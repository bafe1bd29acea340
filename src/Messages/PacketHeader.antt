-- ===== src/Messages/PacketHeader.antt =====
-- neptun/messages/packet_header.h
use neptun.Common.{
  ℕ, ◌+◌, ◌^◌, ◌≤◌, ◌<◌, ◌≡◌, refl, [], ◌++◌, arith, length, drop, length-drop, drop-drop, Outcome,
  ok, ◌>>=◌,
}
use neptun.Io.{Span, first, write_u32, read_u32}
use neptun.Io.Encode.{big_endian, write_unsigned_lem, read_unsigned-big_endian, first-append}

abbrev pub serialized_size : ℕ
serialized_size = 4 + 4 + 4

unfoldable pub write : Span → ℕ → ℕ → ℕ → Outcome (Span × Span)
write b id ack_sequence_number ack_bitmask = do
  (b₁, n₁) ← write_u32 id 0 b
  (b₂, n₂) ← write_u32 ack_sequence_number 4 b₁
  (b₃, n₃) ← write_u32 ack_bitmask 8 b₂
  payload ← first b₃ (n₁ + n₂ + n₃)
  ok (b₃, payload)

unfoldable pub id : Span → Outcome ℕ
id b = read_u32 b 0

unfoldable pub ack_sequence_number : Span → Outcome ℕ
ack_sequence_number b = read_u32 b 4

unfoldable pub ack_bitmask : Span → Outcome ℕ
ack_bitmask b = read_u32 b 8

-- The twelve bytes of a header.
abbrev pub encoding : ℕ → ℕ → ℕ → Span
encoding i s m = big_endian 4 i ++ (big_endian 4 s ++ big_endian 4 m)

pub write_lem :
    (b : Span) (i s m : ℕ)
    → serialized_size ≤ length b
    → write b i s m ≡ ok (encoding i s m ++ drop 12 b, encoding i s m)
unfolding write
write_lem b i s m h =
    let r₁ : 4 ≤ length (drop 4 b) = omega (arith, length-drop 4 b) in
    let r₂ : 4 ≤ length (drop 8 b) = omega (arith, length-drop 8 b) in
    rw (
      write_unsigned_lem 4 i 0 [] b refl (omega arith),
      write_unsigned_lem 4 s 4 (big_endian 4 i) (drop 4 b) refl r₁,
      drop-drop 8 4 4 b refl,
      write_unsigned_lem 4 m 8 (big_endian 4 i ++ big_endian 4 s) (drop 8 b) refl r₂,
      drop-drop 12 8 4 b refl,
      first-append 12 (encoding i s m) (drop 12 b) refl,
    )

-- The getters read the three numbers back from a span that starts with a header.
module _ (i s m : ℕ) (rest : Span) where
  pub id-encoding : i < 2 ^ 32 → id (encoding i s m ++ rest) ≡ ok i
  unfolding id
  id-encoding h =
      read_unsigned-big_endian 4 i 0 [] (big_endian 4 s ++ (big_endian 4 m ++ rest)) refl h

  pub ack_sequence_number-encoding :
      s < 2 ^ 32 → ack_sequence_number (encoding i s m ++ rest) ≡ ok s
  unfolding ack_sequence_number
  ack_sequence_number-encoding h =
      read_unsigned-big_endian 4 s 4 (big_endian 4 i) (big_endian 4 m ++ rest) refl h

  pub ack_bitmask-encoding : m < 2 ^ 32 → ack_bitmask (encoding i s m ++ rest) ≡ ok m
  unfolding ack_bitmask
  ack_bitmask-encoding h =
      read_unsigned-big_endian 4 m 8 (big_endian 4 i ++ big_endian 4 s) rest refl h
