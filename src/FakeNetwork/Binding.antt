-- ===== src/FakeNetwork/Binding.antt =====
-- Sockets and their addresses.
use neptun.Common.{
  ◌≡◌, refl, sym, ap, ◌∙◌, List, [], ◌∷◌, ◌++◌, All, Bool, true, false, ◌==◌, ◌||◌, if◌then◌else◌,
  Option, none, some, ok, fault, check, arith, Bool-cases, inl, inr, >>=-eq-ok, ok-injective,
}
use neptun.Io.{Span}
use neptun.IpAddress.{IpAddress, to_string}
use neptun.Network.{FileDescriptor}
use neptun.FakeNetwork.{
  FakeNetwork, find_ip, find_if, is_none, address_of, is_socket_open, bind, socket_predicate,
  ip_address_or_socket_predicate, same_text,
}

pub same_text_refl : (s : Span) → same_text s s ≡ true
unfolding same_text
same_text_refl [] = refl
same_text_refl (c ∷ s) = ground (arith, same_text_refl s)

abbrev or_else {ℓ} : {A : Type ℓ} → Option A → Option A → Option A
or_else none last = last
or_else (some a) last = some a

find_if-append {ℓ} :
    {A : Type ℓ} (p : A → Bool) (xs : List A) (x : A)
    → find_if p (xs ++ (x ∷ [])) ≡ or_else (find_if p xs) (if p x then some x else none)
unfolding find_if
find_if-append p [] x = refl
find_if-append p (y ∷ ys) x = elim (Bool-cases (p y)) [
  | inl found ↦ rw found refl
  | inr other ↦ rw other (find_if-append p ys x)
]

pub first_fails {ℓ} :
    {A : Type ℓ} (p : A → Bool) (x : A) (xs : List A)
    → find_if p (x ∷ xs) ≡ none
    → (p x ≡ false) × (find_if p xs ≡ none)
unfolding find_if
first_fails p x xs h = elim (Bool-cases (p x)) [
  | inl holds ↦ absurd (cc (rw holds at h))
  | inr fails ↦ (fails, rw fails at h)
]

check-ok : (b : Bool) {u : Unit {0}} → check b ≡ ok u → b ≡ true
check-ok true h = refl
check-ok false h = cc

pub is_none-none {ℓ} : {A : Type ℓ} (o : Option A) → is_none o ≡ true → o ≡ none
is_none-none none h = refl
is_none-none (some a) h = cc

-- No element satisfies a predicate if none satisfies a weaker one.
pub find_if-weaker {ℓ} :
    {A : Type ℓ} (p q : A → Bool) (xs : List A)
    → find_if (λ x. q x || p x) xs ≡ none
    → find_if p xs ≡ none
unfolding find_if
find_if-weaker p q [] h = refl
find_if-weaker p q (x ∷ xs) h =
    let (weak, rest) = first_fails (λ y. q y || p y) x xs h in
    elim (Bool-cases (p x)) [
      | inl holds ↦ absurd (ground (arith, weak, holds))
      | inr fails ↦ rw fails (find_if-weaker p q xs rest)
    ]

pub All-find_if {ℓ} :
    {A : Type ℓ} (p : A → Bool) (xs : List A) → find_if p xs ≡ none → All (λ x. p x ≡ false) xs
unfolding find_if
All-find_if p [] h = tt
All-find_if p (x ∷ xs) h =
    let (fails, rest) = first_fails p x xs h in (fails, All-find_if p xs rest)

pub find_if-All {ℓ} :
    {A : Type ℓ} (p : A → Bool) (xs : List A) → All (λ x. p x ≡ false) xs → find_if p xs ≡ none
unfolding find_if
find_if-All p [] h = refl
find_if-All p (x ∷ xs) h = rw h.0 (find_if-All p xs h.1)

-- A bind that returns has found the socket open, and the socket and the address free.
pub bind-ok :
    (n n' : FakeNetwork) (fd : FileDescriptor) (ip : IpAddress)
    → bind n fd ip ≡ ok n'
    → (is_socket_open n fd ≡ true)
      × (find_if (ip_address_or_socket_predicate fd ip) n.bound ≡ none)
      × (n' ≡ record n { bound = n.bound ++ ((ip, fd) ∷ []) })
unfolding bind
bind-ok n n' fd ip h =
    let (_, opened, h₁) = >>=-eq-ok (check (is_socket_open n fd)) _ h in
    let (_, unused, h₂) =
      >>=-eq-ok (check (is_none (find_if (ip_address_or_socket_predicate fd ip) n.bound))) _ h₁ in
    (check-ok _ opened, is_none-none _ (check-ok _ unused), ok-injective (sym h₂))

-- The address of an entry that was found, after a last entry that does not fit.
skipped : (o : Option (IpAddress × FileDescriptor)) → address_of (or_else o none) ≡ address_of o
skipped none = refl
skipped (some y) = refl

-- After `bind` the socket has the address, and every other socket what it had.
pub find_ip-bind :
    (n n' : FakeNetwork) (fd fd' : FileDescriptor) (ip : IpAddress)
    → bind n fd ip ≡ ok n'
    → find_ip n' fd' ≡ (if fd'.value == fd.value then some ip else find_ip n fd')
unfolding find_ip ip_address_or_socket_predicate
find_ip-bind n n' fd fd' ip h =
    let (_, unused, same) = bind-ok n n' fd ip h in
    let fresh : find_if (socket_predicate fd) n.bound ≡ none =
      find_if-weaker (socket_predicate fd) (λ c. same_text (to_string ip) (to_string c.0)) n.bound
        unused in
    let appended = find_if-append (socket_predicate fd') n.bound (ip, fd) in
    ap (λ (m : FakeNetwork). find_ip m fd') same ∙ elim (Bool-cases (fd'.value == fd.value)) [
      | inl equals ↦
          let fd_fd' : fd ≡ fd' = ground (arith, equals) in
          let fresh' : find_if (socket_predicate fd') n.bound ≡ none =
            ap (λ (d : FileDescriptor). find_if (socket_predicate d) n.bound) (sym fd_fd')
            ∙ fresh in
          rw (appended, fresh', equals) refl
      | inr differs ↦ rw (appended, differs) (skipped (find_if (socket_predicate fd') n.bound))
    ]

found_last {ℓ} : {A : Type ℓ} (o : Option A) (x : A) → is_none (or_else o (some x)) ≡ false
found_last none x = refl
found_last (some y) x = refl

-- A binding that is there is found by each predicate that it satisfies.
used :
    (n n' : FakeNetwork) (fd : FileDescriptor) (ip : IpAddress) (fd' : FileDescriptor)
    (ip' : IpAddress)
    → n' ≡ record n { bound = n.bound ++ ((ip, fd) ∷ []) }
    → ip_address_or_socket_predicate fd' ip' (ip, fd) ≡ true
    → is_none (find_if (ip_address_or_socket_predicate fd' ip') n'.bound) ≡ false
used n n' fd ip fd' ip' same holds =
    ap (λ (m : FakeNetwork). is_none (find_if (ip_address_or_socket_predicate fd' ip') m.bound))
      same
    ∙ ap is_none (find_if-append (ip_address_or_socket_predicate fd' ip') n.bound (ip, fd))
    ∙ rw holds (found_last (find_if (ip_address_or_socket_predicate fd' ip') n.bound) (ip, fd))

refuses :
    (n : FakeNetwork) (fd : FileDescriptor) (ip : IpAddress)
    → is_none (find_if (ip_address_or_socket_predicate fd ip) n.bound) ≡ false
    → bind n fd ip ≡ fault
unfolding bind
refuses n fd ip h = elim (Bool-cases (is_socket_open n fd)) [
  | inl opened ↦ rw (bind, opened, h) refl
  | inr closed ↦ rw (bind, closed) refl
]

-- A socket or an address that is bound cannot be bound again.
pub bind_twice :
    (n n' : FakeNetwork) (fd fd' : FileDescriptor) (ip ip' : IpAddress)
    → bind n fd ip ≡ ok n'
    → (bind n' fd' ip ≡ fault) × (bind n' fd ip' ≡ fault)
unfolding ip_address_or_socket_predicate
bind_twice n n' fd fd' ip ip' h =
    let (_, _, same) = bind-ok n n' fd ip h in
    (
      refuses n' fd' ip (used n n' fd ip fd' ip same (rw (same_text_refl (to_string ip)) refl)),
      refuses n' fd ip' (used n n' fd ip fd ip' same (ground arith)),
    )
