-- ===== src/Io/RoundTrip.antt =====
-- What IoBuffer writes it reads back.
use neptun.Common.{
  ℕ, ◌+◌, ◌-◌, ◌*◌, ◌%◌, ◌^◌, ◌≤◌, ◌<◌, ◌≡◌, refl, sym, ap, ◌∙◌, List, ◌++◌, arith, length, take,
  drop, ok, length-take, length-drop, take-append-drop, length-append, min,
}
use neptun.Io.{
  Span, write_unsigned, read_unsigned, write_u64, read_u64, write_byte_array, read_byte_array,
}
use neptun.Io.Encode.{
  big_endian, write_unsigned_lem, read_unsigned-big_endian, write_byte_array_lem, subspan-append,
}

-- An unsigned number of `w` bytes, written inside a span, is read back from the same place; the other
-- bytes are as before.
pub read_unsigned-write_unsigned :
    (w v idx : ℕ) (b : Span)
    → idx + w ≤ length b
    → v < 2 ^ (8 * w)
    → (mid : Span) × (write_unsigned w v idx b ≡ ok (take idx b ++ (mid ++ drop w (drop idx b)), w))
      × (read_unsigned w (take idx b ++ (mid ++ drop w (drop idx b))) idx ≡ ok v)
read_unsigned-write_unsigned w v idx b h k =
    let front : idx ≡ length (take idx b) = omega (arith, length-take idx b) in
    (
      big_endian w v,
      ap (write_unsigned w v idx) (sym (take-append-drop idx b))
          ∙ write_unsigned_lem w v idx (take idx b) (drop idx b) front
              (omega (arith, length-drop idx b)),
      read_unsigned-big_endian w v idx (take idx b) (drop w (drop idx b)) front k,
    )

-- `read_u64` gives back only the lower half of what `write_u64` has written.
pub read_u64-write_u64 :
    (v idx : ℕ) (b : Span)
    → idx + 8 ≤ length b
    → v < 2 ^ 64
    → (b' : Span) × (write_u64 v idx b ≡ ok (b', 8)) × (read_u64 b' idx ≡ ok (v % 2 ^ 32))
unfolding read_u64
read_u64-write_u64 v idx b h k =
    let (mid, run, back) = read_unsigned-write_unsigned 8 v idx b h k in
    (take idx b ++ (mid ++ drop 8 (drop idx b)), run, rw back refl)

-- Bytes written inside a span are read back from the same place.
pub read_byte_array-write_byte_array :
    (xs : List ℕ) (idx : ℕ) (b : Span)
    → idx + length xs ≤ length b
    → (b' : Span) × (write_byte_array xs idx b ≡ ok (b', length xs))
      × (read_byte_array b' idx (length xs) ≡ ok xs)
unfolding read_byte_array
read_byte_array-write_byte_array xs idx b h =
    let front : idx ≡ length (take idx b) = omega (arith, length-take idx b) in
    let rest = drop (length xs) (drop idx b) in
    (
      take idx b ++ (xs ++ rest),
      ap (write_byte_array xs idx) (sym (take-append-drop idx b))
          ∙ write_byte_array_lem xs idx (take idx b) (drop idx b) front
              (omega (arith, length-drop idx b)),
      subspan-append idx (min (length (take idx b ++ (xs ++ rest)) - idx) (length xs)) (take idx b)
          xs rest front
          (omega (arith, length-append (take idx b) (xs ++ rest), length-append xs rest)),
    )
