-- ===== src/Io/Encode.antt =====
-- What the writes of IoBuffer put into a span, and what the reads make of it.
use neptun.Common.{
  ℕ, zero, suc, ◌+◌, ◌-◌, ◌*◌, ◌/◌, ◌%◌, ◌^◌, ◌≤◌, ◌<◌, ◌≡◌, refl, sym, ap, ◌∙◌, List, [], ◌∷◌,
  ◌++◌, append_assoc, arith, length, drop, length-append, set-append, get_elem?-append, lt→ltb,
  le→ltb_false, take-append, drop-append, All, Outcome, ok, bit_or,
}
use neptun.Common.Bits.{bit_or_fields}
use neptun.Io.{
  Span, load, store, write_loop, write_unsigned, write_bytes, write_byte_array, read_loop,
  read_unsigned, first, advance, subspan, write_after,
}
use native.Mathlib.Nat.{
  mod-eq_of_lt, mul-add-mod_self_left, div-add-mod, mod-lt, one-le-pow, pow-le-pow_right,
}
use native.Mathlib.Numerals.{towards_suc}

-- The `n` bytes of a number, highest first.
abbrev pub big_endian : ℕ → ℕ → List ℕ
big_endian zero v = []
big_endian (suc n) v = (v / 2 ^ (8 * n) % 256) ∷ big_endian n v

-- The number that bytes stand for, highest first.
abbrev pub value : List ℕ → ℕ
value [] = 0
value (x ∷ xs) = x * 2 ^ (8 * length xs) + value xs

abbrev pub IsByte : ℕ → Type 0
IsByte x = x < 256

pub length-big_endian : (n v : ℕ) → length (big_endian n v) ≡ n
length-big_endian zero v = refl
length-big_endian (suc n) v = ap suc (length-big_endian n v)

pub big_endian-IsByte : (n v : ℕ) → All IsByte (big_endian n v)
big_endian-IsByte zero v = tt
big_endian-IsByte (suc n) v = (omega arith, big_endian-IsByte n v)

-- One write, and one read, just past a prefix.
pub store-append :
    (pre : Span) (x : ℕ) (post : Span) (idx y : ℕ)
    → idx ≡ length pre
    → store (pre ++ (x ∷ post)) idx y ≡ ok (pre ++ (y ∷ post))
unfolding store
store-append pre x post idx y e =
    let inside : idx < length (pre ++ (x ∷ post)) = omega (arith, length-append pre (x ∷ post)) in
    rw (store, lt→ltb idx (length (pre ++ (x ∷ post))) inside, set-append pre x post idx y e)

pub load-append :
    (pre : Span) (x : ℕ) (post : Span) (idx : ℕ)
    → idx ≡ length pre
    → load (pre ++ (x ∷ post)) idx ≡ ok x
unfolding load
load-append pre x post idx e = rw (load, get_elem?-append pre x post idx e)

-- `write_loop` replaces the bytes behind a prefix by the number's, and leaves the others.
pub write_loop_lem :
    (n v idx : ℕ) (pre rest : Span)
    → idx ≡ length pre
    → n ≤ length rest
    → write_loop n v idx (pre ++ rest) ≡ ok (pre ++ (big_endian n v ++ drop n rest))
unfolding write_loop
write_loop_lem zero v idx pre rest e h = refl
write_loop_lem (suc n) v idx pre [] e h = absurd (omega arith)
write_loop_lem (suc n) v idx pre (x ∷ rest) e h =
    let y : ℕ = v / 2 ^ (8 * n) % 256 in
    rw (store-append pre x rest idx y e, ← append_assoc pre (y ∷ []) rest)
      (write_loop_lem n v (idx + 1) (pre ++ (y ∷ [])) rest
          (omega (arith, length-append pre (y ∷ []))) (omega arith)
        ∙ ap ok (append_assoc pre (y ∷ []) (big_endian n v ++ drop n rest)))

pub write_bytes_lem :
    (xs : List ℕ) (idx : ℕ) (pre rest : Span)
    → idx ≡ length pre
    → length xs ≤ length rest
    → write_bytes xs idx (pre ++ rest) ≡ ok (pre ++ (xs ++ drop (length xs) rest))
unfolding write_bytes
write_bytes_lem [] idx pre rest e h = refl
write_bytes_lem (y ∷ ys) idx pre [] e h = absurd (omega arith)
write_bytes_lem (y ∷ ys) idx pre (x ∷ rest) e h =
    rw (store-append pre x rest idx y e, ← append_assoc pre (y ∷ []) rest)
      (write_bytes_lem ys (idx + 1) (pre ++ (y ∷ [])) rest
          (omega (arith, length-append pre (y ∷ []))) (omega arith)
        ∙ ap ok (append_assoc pre (y ∷ []) (ys ++ drop (length ys) rest)))

pub write_unsigned_lem :
    (w v idx : ℕ) (pre rest : Span)
    → idx ≡ length pre
    → w ≤ length rest
    → write_unsigned w v idx (pre ++ rest) ≡ ok (pre ++ (big_endian w v ++ drop w rest), w)
unfolding write_unsigned
write_unsigned_lem w v idx pre rest e h = rw (write_loop_lem w v idx pre rest e h)

pub write_byte_array_lem :
    (xs : List ℕ) (idx : ℕ) (pre rest : Span)
    → idx ≡ length pre
    → length xs ≤ length rest
    → write_byte_array xs idx (pre ++ rest) ≡ ok (pre ++ (xs ++ drop (length xs) rest), length xs)
unfolding write_byte_array
write_byte_array_lem xs idx pre rest e h = rw (write_bytes_lem xs idx pre rest e h)

-- `P` is `2 ^ (8 * n)`.
pow_byte : (n : ℕ) → 2 ^ (8 * suc n) ≡ 256 * 2 ^ (8 * n)
pow_byte n = let e : 8 * suc n ≡ 8 * n + 8 = omega arith in rw e (simp towards_suc (omega arith))

mod_byte : (v p : ℕ) → 0 < p → v % (256 * p) ≡ v / p % 256 * p + v % p
mod_byte v p h =
    let top : ℕ = v / p / 256 in
    let low : ℕ = v / p % 256 * p + v % p in
    let split : v ≡ 256 * p * top + low =
      omega (arith, div-add-mod v p, ap (λ (t : ℕ). p * t) (div-add-mod (v / p) 256)) in
    let small : low < 256 * p = grind (arith, mod-lt v h, mod-lt (v / p) {m = 256}) in
    ap (λ (t : ℕ). t % (256 * p)) split
    ∙ mul-add-mod_self_left (256 * p) top low
    ∙ mod-eq_of_lt small

-- The bytes of a number stand for the number, as far as it fits.
pub value-big_endian : (n v : ℕ) → value (big_endian n v) ≡ v % 2 ^ (8 * n)
value-big_endian zero v = omega arith
value-big_endian (suc n) v =
    rw (length-big_endian n v, value-big_endian n v, pow_byte n)
      (sym (mod_byte v (2 ^ (8 * n)) (one-le-pow (8 * n) 2 (omega arith))))

pub value-lt : (xs : List ℕ) → All IsByte xs → value xs < 2 ^ (8 * length xs)
value-lt [] h = omega arith
value-lt (x ∷ xs) h = rw (pow_byte (length xs)) (grind (arith, value-lt xs h.1))

-- One round: the byte is put below the bytes that are read.
merge :
    (w q x k : ℕ)
    → suc k ≤ w
    → IsByte x
    → bit_or (q * 2 ^ (8 * suc k)) (x * 2 ^ (8 * k) % 2 ^ (8 * w)) ≡ (q * 256 + x) * 2 ^ (8 * k)
merge w q x k h b =
    let below : x * 2 ^ (8 * k) < 2 ^ (8 * suc k) =
      rw (pow_byte k) (grind (arith, one-le-pow (8 * k) 2)) in
    let fits : x * 2 ^ (8 * k) < 2 ^ (8 * w) = omega (
      arith,
      below,
      pow-le-pow_right {n = 2} (omega arith) {i = 8 * suc k} {j = 8 * w} (omega arith),
    ) in
    rw (mod-eq_of_lt fits, bit_or_fields (8 * suc k) q (x * 2 ^ (8 * k)) below, pow_byte k)
      (omega arith)

-- `read_loop` reads the bytes behind a prefix as a big-endian number.
read_loop_lem :
    (w q idx : ℕ) (pre xs rest : Span)
    → idx ≡ length pre
    → length xs ≤ w
    → All IsByte xs
    → read_loop w (length xs) (q * 2 ^ (8 * length xs)) idx (pre ++ (xs ++ rest))
      ≡ ok (q * 2 ^ (8 * length xs) + value xs)
unfolding read_loop
read_loop_lem w q idx pre [] rest e h b = ap ok (omega arith)
read_loop_lem w q idx pre (x ∷ xs) rest e h b =
    let sum : (q * 256 + x) * 2 ^ (8 * length xs) + value xs
        ≡ q * 2 ^ (8 * suc (length xs)) + (x * 2 ^ (8 * length xs) + value xs) =
      omega (arith, ap (λ (t : ℕ). q * t) (pow_byte (length xs))) in
    rw
      (
        load-append pre x (xs ++ rest) idx e,
        merge w q x (length xs) h b.0,
        ← append_assoc pre (x ∷ []) (xs ++ rest),
      )
      (read_loop_lem w (q * 256 + x) (idx + 1) (pre ++ (x ∷ [])) xs rest
          (omega (arith, length-append pre (x ∷ []))) (omega arith) b.1
        ∙ ap ok sum)

pub read_unsigned_lem :
    (w idx : ℕ) (pre xs rest : Span)
    → idx ≡ length pre
    → length xs ≡ w
    → All IsByte xs
    → read_unsigned w (pre ++ (xs ++ rest)) idx ≡ ok (value xs)
unfolding read_unsigned
read_unsigned_lem w idx pre xs rest e h b =
    let z : 0 * 2 ^ (8 * length xs) ≡ 0 = omega arith in
    let z' : 0 + value xs ≡ value xs = omega arith in
    rw (← h) (rw (z, z') at (read_loop_lem (length xs) 0 idx pre xs rest e (omega arith) b))

-- What `write_unsigned` has written behind a prefix, `read_unsigned` reads back.
pub read_unsigned-big_endian :
    (w v idx : ℕ) (pre rest : Span)
    → idx ≡ length pre
    → v < 2 ^ (8 * w)
    → read_unsigned w (pre ++ (big_endian w v ++ rest)) idx ≡ ok v
read_unsigned-big_endian w v idx pre rest e h =
    read_unsigned_lem w idx pre (big_endian w v) rest e (length-big_endian w v)
      (big_endian-IsByte w v)
    ∙ ap ok (value-big_endian w v ∙ mod-eq_of_lt h)

pub first-append : (n : ℕ) (pre rest : Span) → n ≡ length pre → first (pre ++ rest) n ≡ ok pre
unfolding first
first-append n pre rest e = rw (
  first,
  le→ltb_false (length (pre ++ rest)) n (omega (arith, length-append pre rest)),
  take-append n pre rest e,
)

pub advance-append : (n : ℕ) (pre rest : Span) → n ≡ length pre → advance (pre ++ rest) n ≡ ok rest
unfolding advance
advance-append n pre rest e = rw (
  advance,
  le→ltb_false (length (pre ++ rest)) n (omega (arith, length-append pre rest)),
  drop-append n pre rest e,
)

pub advance-drop : (n : ℕ) (b : Span) → n ≤ length b → advance b n ≡ ok (drop n b)
unfolding advance
advance-drop n b h = rw (advance, le→ltb_false (length b) n h)

pub subspan-append :
    (idx n : ℕ) (pre mid rest : Span)
    → idx ≡ length pre
    → n ≡ length mid
    → subspan (pre ++ (mid ++ rest)) idx n ≡ ok mid
unfolding subspan
subspan-append idx n pre mid rest e h =
    let total = length-append pre (mid ++ rest) in
    let tail = length-append mid rest in
    rw (
      subspan,
      le→ltb_false (length (pre ++ (mid ++ rest))) idx (omega arith),
      le→ltb_false (length (pre ++ (mid ++ rest)) - idx) n (omega arith),
      drop-append idx pre (mid ++ rest) e,
      take-append n mid rest h,
    )

-- A writer that runs on the rest of a span leaves what lies before it.
pub write_after-append {ℓ} :
    {A : Type ℓ} (idx : ℕ) (writer : Span → Outcome (Span × A)) (pre rest rest' : Span) (a : A)
    → idx ≡ length pre
    → writer rest ≡ ok (rest', a)
    → write_after idx writer (pre ++ rest) ≡ ok (pre ++ rest', a)
unfolding write_after
write_after-append idx writer pre rest rest' a e h =
    rw (advance-append idx pre rest e, h, take-append idx pre rest e)
