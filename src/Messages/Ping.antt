-- ===== src/Messages/Ping.antt =====
-- network/message.h
use neptun.Common.{
  ℕ, ◌+◌, ◌%◌, ◌^◌, ◌≤◌, ◌<◌, ◌≡◌, refl, List, [], ◌++◌, arith, length, drop, length-drop,
  drop-drop, Outcome, ok, ◌>>=◌,
}
use neptun.Io.{Span, first, write_u64, write_string, read_u64, read_string}
use neptun.Io.Encode.{
  big_endian, write_unsigned_lem, write_bytes_lem, read_unsigned-big_endian, first-append,
  subspan-append,
}
use native.Mathlib.Nat.{mod-eq_of_lt}

abbrev k_note_offset : ℕ
k_note_offset = 8

-- A note is the list of its characters' codes.
unfoldable pub write : Span → ℕ → List ℕ → Outcome (Span × Span)
write b timestamp note = do
  (b₁, n₁) ← write_u64 timestamp 0 b
  (b₂, n₂) ← write_string note k_note_offset b₁
  written ← first b₂ (n₁ + n₂)
  ok (b₂, written)

unfoldable pub timestamp : Span → Outcome ℕ
timestamp b = read_u64 b 0

unfoldable pub note : Span → Outcome (List ℕ)
note b = read_string b k_note_offset

abbrev encoding : ℕ → List ℕ → Span
encoding t xs = big_endian 8 t ++ (big_endian 2 (length xs) ++ xs)

write_lem :
    (b : Span) (t : ℕ) (xs : List ℕ)
    → 10 + length xs ≤ length b
    → length xs < 2 ^ 16
    → write b t xs ≡ ok (encoding t xs ++ drop (length xs) (drop 10 b), encoding t xs)
unfolding write write_string
write_lem b t xs h k =
    let r₁ : 2 ≤ length (drop 8 b) = omega (arith, length-drop 8 b) in
    let r₂ : length xs ≤ length (drop 10 b) = omega (arith, length-drop 10 b) in
    let rest = drop (length xs) (drop 10 b) in
    let total : 8 + (2 + length xs) ≡ length (encoding t xs) = omega arith in
    rw
      (
        write_unsigned_lem 8 t 0 [] b refl (omega arith),
        mod-eq_of_lt k,
        write_unsigned_lem 2 (length xs) 8 (big_endian 8 t) (drop 8 b) refl r₁,
        drop-drop 10 8 2 b refl,
        write_bytes_lem xs 10 (big_endian 8 t ++ big_endian 2 (length xs)) (drop 10 b) refl r₂,
        first-append (8 + (2 + length xs)) (encoding t xs) rest total,
      )
      refl

-- `Ping`: a note of fewer than 2 ^ 16 characters, written where it fits, is read back, but of the
-- timestamp only the lower 32 bits are.
pub ping_fields :
    (b : Span) (t : ℕ) (xs : List ℕ)
    → 10 + length xs ≤ length b
    → length xs < 2 ^ 16
    → t < 2 ^ 64
    → (b' : Span) × (written : Span) × (write b t xs ≡ ok (b', written))
      × (length written ≡ 10 + length xs)
      × (timestamp b' ≡ ok (t % 2 ^ 32))
      × (note b' ≡ ok xs)
unfolding timestamp note read_u64 read_string
ping_fields b t xs h k w =
    let rest = drop (length xs) (drop 10 b) in
    let front = big_endian 8 t ++ big_endian 2 (length xs) in
    (
      encoding t xs ++ rest,
      encoding t xs,
      write_lem b t xs h k,
      omega arith,
      rw (read_unsigned-big_endian 8 t 0 [] (big_endian 2 (length xs) ++ (xs ++ rest)) refl w) refl,
      rw
          (
            read_unsigned-big_endian 2 (length xs) 8 (big_endian 8 t) (xs ++ rest) refl k,
            subspan-append 10 (length xs) front xs rest refl refl,
          )
          refl,
    )
