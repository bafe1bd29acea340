-- ===== src/IpMap/Laws.antt =====
-- What a map answers after an insertion.
use neptun.Common.{◌≡◌, refl, sym, ap, ◌∙◌, [], ◌∷◌, some, true, false, Bool-cases, inl, inr}
use neptun.IpAddress.{IpAddress, less, equal}
use neptun.IpAddress.Order.{equal_iff}
use neptun.IpMap.{IpMap, find, insert}

equal_refl : (a : IpAddress) → equal a a ≡ true
equal_refl a = (equal_iff a a).1 refl

module _ {ℓ} {A : Type ℓ} where
  -- The key that was inserted has its value.
  pub find-insert : (m : IpMap A) (key : IpAddress) (a : A) → find (insert m key a) key ≡ some a
  unfolding find insert
  find-insert [] key a = rw (equal_refl key) refl
  find-insert ((k, b) ∷ m) key a = elim (Bool-cases (less key k)) [
    | inl before ↦ rw (before, equal_refl key) refl
    | inr other ↦ elim (Bool-cases (equal key k)) [
      | inl same ↦ rw (other, same, equal_refl key) refl
      | inr differs ↦ rw (other, differs, differs) (find-insert m key a)
    ]
  ]

  -- The search passes an entry whose key is the same as one that is not searched.
  passes :
      (k key key' : IpAddress) (m : IpMap A) (b : A)
      → equal key k ≡ true
      → equal key' key ≡ false
      → find m key' ≡ find ((k, b) ∷ m) key'
  unfolding find
  passes k key key' m b same h =
      let key_k : key ≡ k = (equal_iff key k).0 same in
      let other : equal key' k ≡ false = ap (equal key') (sym key_k) ∙ h in rw other refl

  -- Every other key keeps what it had.
  pub find-insert_other :
      (m : IpMap A) (key key' : IpAddress) (a : A)
      → equal key' key ≡ false
      → find (insert m key a) key' ≡ find m key'
  unfolding find insert
  find-insert_other [] key key' a h = rw h refl
  find-insert_other ((k, b) ∷ m) key key' a h = elim (Bool-cases (less key k)) [
    | inl before ↦ rw (before, h) refl
    | inr other ↦ elim (Bool-cases (equal key k)) [
      | inl same ↦ rw (other, same, h) (passes k key key' m b same h)
      | inr differs ↦ rw (other, differs, find-insert_other m key key' a h) refl
    ]
  ]
