-- ===== src/IpMap.antt =====
-- `std::map<IpAddress, A>`: a list of its entries in the order of the keys, which `operator<` gives.
pub mod Laws
use neptun.Common.{ℕ, List, [], ◌∷◌, Option, none, some, Bool, if◌then◌else◌}
use neptun.IpAddress.{IpAddress, less, equal}

abbrev pub IpMap {ℓ} : Type ℓ → Type ℓ
IpMap A = List (IpAddress × A)

-- `find`.
unfoldable pub find {ℓ} : {A : Type ℓ} → IpMap A → IpAddress → Option A
find [] key = none
find ((k, a) ∷ m) key = let rest = find m key in if equal key k then some a else rest

-- `m[key] = a`, for a key that the map has and for a new one.
unfoldable pub insert {ℓ} : {A : Type ℓ} → IpMap A → IpAddress → A → IpMap A
insert [] key a = (key, a) ∷ []
insert ((k, b) ∷ m) key a =
    let rest = insert m key a in
    if less key k
    then (key, a) ∷ (k, b) ∷ m
    else if equal key k
    then (key, a) ∷ m
    else (k, b) ∷ rest

-- `m[key]`, which is `a` for a new key.
unfoldable pub find_or {ℓ} : {A : Type ℓ} → IpMap A → IpAddress → A → A
find_or m key a = elim (find m key) [ none ↦ a | some b ↦ b ]
