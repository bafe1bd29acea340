-- ===== src/Io/Fields.antt =====
-- Which accesses of IoBuffer stay inside the span: exactly those at `idx + sizeof(T)` or less.
use neptun.Common.{
  ℕ, zero, suc, ◌+◌, ◌-◌, ◌*◌, ◌%◌, ◌^◌, ◌≤◌, ◌<◌, ◌≡◌, refl, [], ◌∷◌, arith, bit_or, length, ltb,
  Returns, ok, fault, drop, min, take, Bool-cases, inl, inr, ltb→lt, ltb_false→le, le→ltb_false,
}
use neptun.Io.{Span, load, read_loop, read_unsigned, subspan, read_byte_array}

pub load_inside : (b : Span) (i : ℕ) → i < length b → Returns (load b i)
unfolding load
load_inside [] i h = absurd (omega arith)
load_inside (x ∷ b) zero h = (x, refl)
load_inside (x ∷ b) (suc i) h = load_inside b i (omega arith)

pub load_outside : (b : Span) (i : ℕ) → length b ≤ i → load b i ≡ fault
unfolding load
load_outside [] i h = refl
load_outside (x ∷ b) zero h = absurd (omega arith)
load_outside (x ∷ b) (suc i) h = load_outside b i (omega arith)

read_loop_inside :
    (w n value idx : ℕ) (b : Span) → idx + n ≤ length b → Returns (read_loop w n value idx b)
unfolding read_loop
read_loop_inside w zero value idx b h = (value, refl)
read_loop_inside w (suc n) value idx b h =
    let (x, e) = load_inside b idx (omega arith) in
    let next = bit_or value (x * 2 ^ (8 * n) % 2 ^ (8 * w)) in
    let (v, e') = read_loop_inside w n next (idx + 1) b (omega arith) in (v, rw (e, e'))

-- A read inside the span returns.
pub read_unsigned_inside :
    (w idx : ℕ) (b : Span) → idx + w ≤ length b → Returns (read_unsigned w b idx)
unfolding read_unsigned
read_unsigned_inside w idx b h = read_loop_inside w w 0 idx b h

read_loop_outside :
    (w n value idx : ℕ) (b : Span) → 0 < n → length b < idx + n → read_loop w n value idx b ≡ fault
unfolding read_loop
read_loop_outside w zero value idx b p h = absurd (omega arith)
read_loop_outside w (suc n) value idx b p h = elim (Bool-cases (ltb idx (length b))) [
  | inl inside ↦
      let (x, e) = load_inside b idx (ltb→lt _ _ inside) in
      rw e (
        read_loop_outside w n _ (idx + 1) b (omega (arith, ltb→lt idx (length b) inside))
          (omega arith))
  | inr outside ↦ rw (load_outside b idx (ltb_false→le _ _ outside))
]

-- A read that reaches over the end of the span faults.
pub read_unsigned_outside :
    (w idx : ℕ) (b : Span) → 0 < w → length b < idx + w → read_unsigned w b idx ≡ fault
unfolding read_unsigned
read_unsigned_outside w idx b p h = read_loop_outside w w 0 idx b p h

-- `read_byte_array` cuts the length to what the span has.
pub read_byte_array_inside :
    (idx len : ℕ) (b : Span)
    → idx ≤ length b
    → read_byte_array b idx len ≡ ok (take (min (length b - idx) len) (drop idx b))
unfolding read_byte_array subspan
read_byte_array_inside idx len b h = rw (
  subspan,
  le→ltb_false (length b) idx h,
  le→ltb_false (length b - idx) (min (length b - idx) len) (omega arith),
)
