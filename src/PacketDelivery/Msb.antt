-- ===== src/PacketDelivery/Msb.antt =====
-- `most_significant_bit`: the highest bit that is set.
use neptun.Common.{
  ℕ, zero, suc, ◌-◌, ◌^◌, ◌≤◌, ◌<◌, ◌≡◌, refl, sym, ap, Bool, true, false, ◌∙◌, inl, inr, Option,
  none, some, arith, ltb, lt→ltb, bit_and, if◌then◌else◌,
}
use native.Mathlib.Decide.{ℕ_discrete}
use neptun.Common.Bits.{bit, test_set, test_unset, bit_cases}
use neptun.PacketDelivery.{msb_loop, most_significant_bit}

-- One round of the loop.
round_set :
    (n v : ℕ) (m : Option ℕ)
    → bit v (32 - suc n) ≡ 1
    → msb_loop (suc n) v m ≡ msb_loop n v (some (32 - suc n))
unfolding msb_loop
round_set n v m h = rw (lt→ltb 0 (bit_and (2 ^ (32 - suc n)) v) (test_set v (32 - suc n) h))

round_unset :
    (n v : ℕ) (m : Option ℕ) → bit v (32 - suc n) ≡ 0 → msb_loop (suc n) v m ≡ msb_loop n v m
unfolding msb_loop
round_unset n v m h = rw (test_unset v (32 - suc n) h)

-- The rounds that are left find nothing.
all_unset :
    (n v : ℕ) (m : Option ℕ)
    → n ≤ 32
    → ((k : ℕ) → 32 - n ≤ k → k < 32 → bit v k ≡ 0)
    → msb_loop n v m ≡ m
unfolding msb_loop
all_unset zero v m b h = refl
all_unset (suc n) v m b h =
    round_unset n v m (h (32 - suc n) (omega arith) (omega arith))
    ∙ all_unset n v m (omega arith) (λ k lo hi. h k (omega arith) hi)

find_msb :
    (n v k : ℕ) (m : Option ℕ)
    → n ≤ 32
    → 32 - n ≤ k
    → k < 32
    → bit v k ≡ 1
    → ((j : ℕ) → k < j → j < 32 → bit v j ≡ 0)
    → msb_loop n v m ≡ some k
find_msb zero v k m b lo hi set above = absurd (omega arith)
find_msb (suc n) v k m b lo hi set above = elim (ℕ_discrete k (32 - suc n)) [
  | yes e ↦
      round_set n v m (rw e at set)
      ∙ all_unset n v (some (32 - suc n)) (omega arith) (λ j lo' hi'. above j (omega arith) hi')
      ∙ ap some (sym e)
  | no ne ↦ elim (bit_cases v (32 - suc n)) [
    | inl unset ↦
        round_unset n v m unset ∙ find_msb n v k m (omega arith) (omega arith) hi set above
    | inr one ↦
        round_set n v m one
        ∙ find_msb n v k (some (32 - suc n)) (omega arith) (omega arith) hi set above
  ]
]

-- Bit `k` is the answer if it is set and no higher one is.
pub most_significant_bit_lem :
    (v k : ℕ)
    → k < 32
    → bit v k ≡ 1
    → ((j : ℕ) → k < j → j < 32 → bit v j ≡ 0)
    → most_significant_bit v ≡ some k
unfolding most_significant_bit
most_significant_bit_lem v k hi set above =
    find_msb 32 v k none (omega arith) (omega arith) hi set above

-- An answer is a bit of the word.
abbrev pub IsBit : Option ℕ → Type 0
IsBit none = Unit
IsBit (some k) = k < 32

if-IsBit : (b : Bool) (k : ℕ) (m : Option ℕ) → k < 32 → IsBit m → IsBit (if b then some k else m)
if-IsBit true k m h i = h
if-IsBit false k m h i = i

msb_loop-IsBit : (n v : ℕ) (m : Option ℕ) → n ≤ 32 → IsBit m → IsBit (msb_loop n v m)
unfolding msb_loop
msb_loop-IsBit zero v m b h = h
msb_loop-IsBit (suc n) v m b h =
    msb_loop-IsBit n v _ (omega arith)
      (if-IsBit (ltb 0 (bit_and (2 ^ (32 - suc n)) v)) (32 - suc n) m (omega arith) h)

pub most_significant_bit-IsBit : (v : ℕ) → IsBit (most_significant_bit v)
unfolding most_significant_bit
most_significant_bit-IsBit v = msb_loop-IsBit 32 v none (omega arith) tt
