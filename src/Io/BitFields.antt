-- ===== src/Io/BitFields.antt =====
-- `read_bits`: the field of the big-endian number that the bytes stand for.
use neptun.Common.{
  ℕ, zero, suc, ◌+◌, ◌-◌, ◌*◌, ◌/◌, ◌%◌, ◌^◌, ◌≤◌, ◌<◌, ◌≡◌, refl, sym, ap, ◌∙◌, [], ◌∷◌, ◌++◌,
  append_assoc, arith, length, length-append, All, Outcome, ok, ◌>>=◌, >>=-eq, leb, ◌==◌, ==_iff,
  true, false, Bool-cases, inl, inr, ltb, ltb→lt, ltb_false→le,
}
use neptun.Common.Bits.{bit, bit-suc, bit_cases}
use neptun.Io.{Span, read_unsigned, read_u8, bit_value, read_bits_loop, read_bits}
use neptun.Io.Encode.{value, IsByte, value-lt, read_unsigned_lem}
use native.Mathlib.Nat.{
  mod-eq_of_lt, div-div-eq-div-mul, mul-add-div_right, one-le-pow, pow-suc, pow-le-pow_right,
  div-eq_of_lt, mul_assoc, mul_comm, div-add-mod, mod-lt, mul-add-mod_self_left,
}

zero_plus : (j : ℕ) → zero + j ≡ j
zero_plus j = omega arith

two-pow-add : (m j : ℕ) → 2 ^ (m + j) ≡ 2 ^ m * 2 ^ j
two-pow-add zero j = omega (arith, ap (λ (t : ℕ). 2 ^ t) (zero_plus j))
two-pow-add (suc m) j =
    let e : suc m + j ≡ suc (m + j) = omega arith in
    ap (λ (t : ℕ). 2 ^ t) e
    ∙ omega (
      arith,
      pow-suc 2 (m + j),
      two-pow-add m j,
      ap (λ (t : ℕ). t * 2 ^ j) (pow-suc 2 m),
      mul_assoc (2 ^ m) 2 (2 ^ j),
      mul_assoc (2 ^ m) (2 ^ j) 2,
      ap (λ (t : ℕ). 2 ^ m * t) (mul_comm 2 (2 ^ j)),
    )

-- The bits of a number above and below a cut.
bit_above : (x low m j : ℕ) → low < 2 ^ m → bit (x * 2 ^ m + low) (m + j) ≡ bit x j
bit_above x low m j h =
    let top : (x * 2 ^ m + low) / 2 ^ m ≡ x =
      mul-add-div_right (one-le-pow m 2 (omega arith)) x low ∙ omega (arith, div-eq_of_lt h) in
    ap (λ (t : ℕ). t % 2)
      (ap (λ (t : ℕ). (x * 2 ^ m + low) / t) (two-pow-add m j)
        ∙ sym (div-div-eq-div-mul (x * 2 ^ m + low) (2 ^ m) (2 ^ j))
        ∙ ap (λ (t : ℕ). t / 2 ^ j) top)

bit_below : (x low k m : ℕ) → k < m → bit (x * 2 ^ m + low) k ≡ bit low k
bit_below x low k zero h = absurd (omega arith)
bit_below x low zero (suc m) h = omega (arith, ap (λ (t : ℕ). x * t) (pow-suc 2 m))
bit_below x low (suc k) (suc m) h =
    let half : (x * 2 ^ suc m + low) / 2 ≡ x * 2 ^ m + low / 2 =
      omega (arith, ap (λ (t : ℕ). x * t) (pow-suc 2 m)) in
    rw (bit-suc (x * 2 ^ suc m + low) k, half, bit-suc low k)
      (bit_below x (low / 2) k m (omega arith))

-- The byte that has a bit, counted from the front, and the bit of the number.
IsByte-with :
    (xs : Span) (g : ℕ)
    → g < 8 * length xs
    → All IsByte xs
    → (pre : Span) × (x : ℕ) × (post : Span) × (xs ≡ pre ++ (x ∷ post))
      × (g / 8 ≡ length pre)
      × IsByte x
      × (x / 2 ^ (7 - g % 8) % 2 ≡ bit (value xs) (8 * length xs - 1 - g))
IsByte-with [] g h b = absurd (omega arith)
IsByte-with (x ∷ xs) g h b = elim (Bool-cases (ltb g 8)) [
  | inl here ↦
      let small = ltb→lt g 8 here in
      let place : 8 * length (x ∷ xs) - 1 - g ≡ 8 * length xs + (7 - g % 8) =
        omega (arith, small) in
      (
        [],
        x,
        xs,
        refl,
        omega (arith, small),
        b.0,
        sym (
            ap (bit (value (x ∷ xs))) place
            ∙ bit_above x (value xs) (8 * length xs) (7 - g % 8) (value-lt xs b.1)),
      )
  | inr further ↦
      let big = ltb_false→le g 8 further in
      let (pre, y, post, split, at, byte, same) =
        IsByte-with xs (g - 8) (omega (arith, h, big)) b.1 in
      let column : 7 - g % 8 ≡ 7 - (g - 8) % 8 = omega (arith, big) in
      let place : 8 * length (x ∷ xs) - 1 - g ≡ 8 * length xs - 1 - (g - 8) = omega (arith, big) in
      (
        x ∷ pre,
        y,
        post,
        ap (λ (t : Span). x ∷ t) split,
        omega (arith, at, big),
        byte,
        ap (λ (t : ℕ). y / 2 ^ t % 2) column
            ∙ same
            ∙ sym (
                ap (bit (value (x ∷ xs))) place
                ∙ bit_below x (value xs) (8 * length xs - 1 - (g - 8)) (8 * length xs)
                    (omega (arith, h, big))),
      )
]

-- One byte behind a prefix is read.
read_byte :
    (before xs rest : Span) (g i : ℕ)
    → g < 8 * length xs
    → All IsByte xs
    → i ≡ length before + g / 8
    → (x : ℕ) × (read_unsigned 1 (before ++ (xs ++ rest)) i ≡ ok x)
      × (x / 2 ^ (7 - g % 8) % 2 ≡ bit (value xs) (8 * length xs - 1 - g))
read_byte before xs rest g i h b e =
    let (pre, x, post, split, at, byte, same) = IsByte-with xs g h b in
    let shape : before ++ (xs ++ rest) ≡ (before ++ pre) ++ ((x ∷ []) ++ (post ++ rest)) =
      ap (λ (t : Span). before ++ (t ++ rest)) split
      ∙ ap (λ (t : Span). before ++ t) (append_assoc pre (x ∷ post) rest)
      ∙ sym (append_assoc before pre (x ∷ (post ++ rest))) in
    (
      x,
      ap (λ (t : Span). read_unsigned 1 t i) shape
          ∙ read_unsigned_lem 1 i (before ++ pre) (x ∷ []) (post ++ rest)
              (omega (arith, length-append before pre, at)) refl (byte, tt)
          ∙ ap ok (omega arith),
      same,
    )

-- The lowest `n + 1` bits are a bit and the lowest `n`.
mod-two-pow-suc : (s n : ℕ) → s % 2 ^ suc n ≡ s % 2 ^ n + bit s n * 2 ^ n
mod-two-pow-suc s n =
    let p : ℕ = 2 ^ n in
    let pos : 0 < p = one-le-pow n 2 (omega arith) in
    let top : ℕ = s / p / 2 in
    let low : ℕ = s % p + s / p % 2 * p in
    let split : s ≡ 2 * p * top + low =
      omega (arith, div-add-mod s p, ap (λ (t : ℕ). p * t) (div-add-mod (s / p) 2)) in
    let small : low < 2 * p = grind (arith, mod-lt s pos, mod-lt (s / p) {m = 2}) in
    ap (λ (t : ℕ). s % t) (pow-suc 2 n ∙ mul_comm p 2)
    ∙ ap (λ (t : ℕ). t % (2 * p)) split
    ∙ mul-add-mod_self_left (2 * p) top low
    ∙ mod-eq_of_lt small

bit-mul-le : (s n : ℕ) → bit s n * 2 ^ n ≤ 2 ^ n
bit-mul-le s n = elim (bit_cases s n) [
  | inl off ↦ omega (arith, ap (λ (t : ℕ). t * 2 ^ n) off)
  | inr on ↦ omega (arith, ap (λ (t : ℕ). t * 2 ^ n) on)
]

-- The loop with `n` rounds left where neither the index nor the shift wraps.
unfoldable bits_loop : ℕ → ℕ → ℕ → ℕ → Span → Outcome ℕ
bits_loop w upper zero result b = ok result
bits_loop w upper (suc n) result b = do
  byte_value ← read_u8 b ((upper - suc n) / 8)
  bits_loop w upper n ((result + byte_value / 2 ^ (7 - (upper - suc n) % 8) % 2 * 2 ^ n) % 2 ^ w) b

bit_value_lem : (w n : ℕ) → n < w → w ≤ 32 → bit_value w n ≡ ok (2 ^ n)
unfolding bit_value
bit_value_lem w n h k =
    let small : leb 32 n ≡ false = ground (arith, h, k) in
    rw small (elim (Bool-cases (n == 31)) [
      | inl top ↦
          let is_31 : n ≡ 31 = (==_iff n 31).0 top in
          let is_32 : w ≡ 32 = omega (arith, is_31, h, k) in rw (is_31, is_32) refl
      | inr below ↦
          let larger : 2 ^ suc n ≤ 2 ^ w =
            pow-le-pow_right {n = 2} (omega arith) {i = suc n} {j = w} (omega (arith, h)) in
          rw below (
            ap ok (mod-eq_of_lt (omega (arith, larger, pow-suc 2 n, one-le-pow n 2 (omega arith)))))
    ])

rounds_lem :
    (w upper fuel n index result : ℕ) (b : Span)
    → n + index ≡ upper
    → n < fuel
    → n ≤ w
    → w ≤ 32
    → upper < 2 ^ w
    → read_bits_loop w upper fuel index result b ≡ bits_loop w upper n result b
unfolding read_bits_loop bits_loop
rounds_lem w upper zero n index result b e f r k u = absurd (omega (arith, f))
rounds_lem w upper (suc fuel) zero index result b e f r k u =
    let over : ltb index upper ≡ false = ground (arith, e) in rw (read_bits_loop, over) refl
rounds_lem w upper (suc fuel) (suc n) index result b e f r k u =
    let inside : ltb index upper ≡ true = ground (arith, e) in
    let place : index ≡ upper - suc n = omega (arith, e) in
    let shift : (upper - index - 1) % 2 ^ w ≡ n =
      ap (λ (t : ℕ). t % 2 ^ w) (omega (arith, e)) ∙ mod-eq_of_lt (omega (arith, e, u)) in
    let next : (index + 1) % 2 ^ w ≡ index + 1 = mod-eq_of_lt (omega (arith, e, u)) in
    rw (read_bits_loop, inside, shift, bit_value_lem w n (omega (arith, r)) k, next)
      (>>=-eq (read_u8 b (index / 8)) _ _ (λ x.
          rounds_lem w upper fuel n (index + 1)
            ((result + x / 2 ^ (7 - index % 8) % 2 * 2 ^ n) % 2 ^ w) b (omega (arith, e))
            (omega (arith, f)) (omega (arith, r)) k u)
        ∙ ap
            (λ (i : ℕ). read_u8 b (i / 8) >>= λ x.
              bits_loop w upper n ((result + x / 2 ^ (7 - i % 8) % 2 * 2 ^ n) % 2 ^ w) b)
            place)

loop_lem :
    (w n result hi : ℕ) (before xs rest : Span) (upper : ℕ)
    → upper ≡ 8 * length before + hi
    → n ≤ hi
    → hi ≤ 8 * length xs
    → All IsByte xs
    → result + 2 ^ n ≤ 2 ^ w
    → bits_loop w upper n result (before ++ (xs ++ rest))
      ≡ ok (result + value xs / 2 ^ (8 * length xs - hi) % 2 ^ n)
unfolding bits_loop
loop_lem w zero result hi before xs rest upper e h k b room = ap ok (omega arith)
loop_lem w (suc n) result hi before xs rest upper e h k b room =
    let whole = value xs in
    let s : ℕ = whole / 2 ^ (8 * length xs - hi) in
    let g : ℕ = hi - suc n in
    let (x, got, same) =
      read_byte before xs rest g ((upper - suc n) / 8) (omega (arith, h, k)) b
        (omega (arith, e, h)) in
    let column : 7 - (upper - suc n) % 8 ≡ 7 - g % 8 = omega (arith, e, h) in
    let place : 8 * length xs - 1 - g ≡ (8 * length xs - hi) + n = omega (arith, h, k) in
    let here : x / 2 ^ (7 - (upper - suc n) % 8) % 2 ≡ bit s n =
      ap (λ (t : ℕ). x / 2 ^ t % 2) column
      ∙ same
      ∙ ap (bit whole) place
      ∙ ap (λ (t : ℕ). whole / t % 2) (two-pow-add (8 * length xs - hi) n)
      ∙ ap (λ (t : ℕ). t % 2) (sym (div-div-eq-div-mul whole (2 ^ (8 * length xs - hi)) (2 ^ n))) in
    let digit : ℕ = bit s n in
    let one_bit : digit * 2 ^ n ≤ 2 ^ n = bit-mul-le s n in
    let double : 2 ^ suc n ≡ 2 ^ n * 2 = pow-suc 2 n in
    let fits : (result + digit * 2 ^ n) % 2 ^ w ≡ result + digit * 2 ^ n =
      mod-eq_of_lt (omega (arith, room, one_bit, double, one-le-pow n 2 (omega arith))) in
    rw (got, here, fits)
      (loop_lem w n (result + digit * 2 ^ n) hi before xs rest upper e (omega (arith, h)) k b
          (omega (arith, room, one_bit, double))
        ∙ ap ok (omega (arith, mod-two-pow-suc s n)))

-- `read_bits` into a number of at most 32 bits, whose type has room for the upper bound and for the
-- bits, reads the bits from `lo` up to `hi` of the big-endian number that the bytes behind a prefix stand
-- for, counted from its highest bit.
pub read_bits_lem :
    (w lo hi : ℕ) (before xs rest : Span) (lower upper : ℕ)
    → lower ≡ 8 * length before + lo
    → upper ≡ 8 * length before + hi
    → lo ≤ hi
    → hi ≤ 8 * length xs
    → hi - lo ≤ w
    → w ≤ 32
    → upper < 2 ^ w
    → All IsByte xs
    → read_bits w lower upper (before ++ (xs ++ rest))
      ≡ ok (value xs / 2 ^ (8 * length xs - hi) % 2 ^ (hi - lo))
unfolding read_bits
read_bits_lem w lo hi before xs rest lower upper e e' h k room int_size index b =
    let fits : 0 + 2 ^ (hi - lo) ≤ 2 ^ w =
      omega (arith, pow-le-pow_right {n = 2} (omega arith) {i = hi - lo} {j = w} room) in
    let start : lower % 2 ^ w ≡ lower = mod-eq_of_lt (omega (arith, e, e', h, index)) in
    ap (λ (n : ℕ). read_bits_loop w upper (2 ^ w) n 0 (before ++ (xs ++ rest))) start
    ∙ rounds_lem w upper (2 ^ w) (hi - lo) lower 0 (before ++ (xs ++ rest))
        (omega (arith, e, e', h)) (omega (arith, e, e', h, index)) room int_size index
    ∙ loop_lem w (hi - lo) 0 hi before xs rest upper e' (omega (arith, h)) k b fits
    ∙ ap ok (omega arith)
