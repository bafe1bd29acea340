-- ===== src/Messages/ReliableMessage.antt =====
-- neptun/messages/reliable_message.h
use neptun.Common.{
  ℕ, ◌+◌, ◌-◌, ◌^◌, ◌≤◌, ◌<◌, ◌≡◌, refl, ap, ◌∙◌, [], ◌++◌, ◌⊎◌, inl, inr, Bool-cases, ltb_false→le,
  ◌||◌, min, arith, drop, length as len, length-append, length-drop, drop-drop, take-append, ltb,
  ◌==◌, if◌then◌else◌, Outcome, ok, Expected, value, unexpected, ◌>>=◌,
}
use neptun.Errors.{EncodingError, malformed_buffer}
use neptun.Io.{
  Span, first, write_u16, write_u32, read_u16, read_u32, write_byte_array, read_byte_array,
}
use neptun.Io.Encode.{
  big_endian, write_unsigned_lem, write_byte_array_lem, read_unsigned-big_endian, first-append,
}
use neptun.Io.Fields.{read_unsigned_inside, read_byte_array_inside}

abbrev k_length_offset : ℕ
k_length_offset = 4

abbrev k_payload_offset : ℕ
k_payload_offset = k_length_offset + 2

-- `serialized_size(payload_size)`.
abbrev pub serialized_size : ℕ → ℕ
serialized_size payload_size = 4 + 2 + payload_size

unfoldable pub write : Span → ℕ → ℕ → Span → Outcome (Span × Span)
write b sequence_number length payload = do
  (b₁, n₁) ← write_u32 sequence_number 0 b
  (b₂, n₂) ← write_u16 length 4 b₁
  (b₃, n₃) ← write_byte_array payload 6 b₂
  written ← first b₃ (n₁ + n₂ + n₃)
  ok (b₃, written)

unfoldable pub sequence_number : Span → Outcome ℕ
sequence_number b = read_u32 b 0

unfoldable pub length : Span → Outcome ℕ
length b = read_u16 b k_length_offset

unfoldable pub payload : Span → Outcome Span
unfolding length
payload b = do n ← length b; read_byte_array b k_payload_offset n

-- `serialized_size()`.
unfoldable pub size : Span → Outcome ℕ
unfolding length
size b = do n ← length b; ok (serialized_size n)

-- The smallest message has one byte of payload.
unfoldable pub validate_size : Span → Outcome (Expected EncodingError ℕ)
unfolding length
validate_size b =
    let minimum_size : ℕ = 6 in
    if ltb (len b) minimum_size then ok (unexpected malformed_buffer) else do
      n ← length b
      let total_size = minimum_size + n
      if ltb (len b) total_size || total_size == minimum_size
          then ok (unexpected malformed_buffer)
          else ok (value total_size)

-- The bytes of a message.
abbrev pub encoding : ℕ → Span → Span
encoding s p = big_endian 4 s ++ (big_endian 2 (len p) ++ p)

pub length-encoding : (s : ℕ) (p : Span) → len (encoding s p) ≡ serialized_size (len p)
length-encoding s p = omega arith

pub write_lem :
    (b : Span) (s : ℕ) (p : Span)
    → serialized_size (len p) ≤ len b
    → write b s (len p) p ≡ ok (encoding s p ++ drop (serialized_size (len p)) b, encoding s p)
unfolding write
write_lem b s p h =
    let r₁ : 2 ≤ len (drop 4 b) = omega (arith, length-drop 4 b) in
    let r₂ : len p ≤ len (drop 6 b) = omega (arith, length-drop 6 b) in
    let size : 6 + len p ≡ len (encoding s p) = omega arith in
    rw (
      write_unsigned_lem 4 s 0 [] b refl (omega arith),
      write_unsigned_lem 2 (len p) 4 (big_endian 4 s) (drop 4 b) refl r₁,
      drop-drop 6 4 2 b refl,
      write_byte_array_lem p 6 (big_endian 4 s ++ big_endian 2 (len p)) (drop 6 b) refl r₂,
      drop-drop (6 + len p) 6 (len p) b refl,
      first-append (6 + len p) (encoding s p) (drop (6 + len p) b) size,
    )

module _ (s : ℕ) (p rest : Span) where
  pub sequence_number-encoding : s < 2 ^ 32 → sequence_number (encoding s p ++ rest) ≡ ok s
  unfolding sequence_number
  sequence_number-encoding h =
      read_unsigned-big_endian 4 s 0 [] (big_endian 2 (len p) ++ (p ++ rest)) refl h

  pub length_field-encoding : len p < 2 ^ 16 → length (encoding s p ++ rest) ≡ ok (len p)
  unfolding length
  length_field-encoding h = read_unsigned-big_endian 2 (len p) 4 (big_endian 4 s) (p ++ rest) refl h

  pub size-encoding : len p < 2 ^ 16 → size (encoding s p ++ rest) ≡ ok (serialized_size (len p))
  unfolding size
  size-encoding h = rw (length_field-encoding h) refl

  pub payload-encoding : len p < 2 ^ 16 → payload (encoding s p ++ rest) ≡ ok p
  unfolding payload
  payload-encoding h =
      let size = length-append p rest in
      rw (
        payload,
        length_field-encoding h,
        read_byte_array_inside 6 (len p) (encoding s p ++ rest) (omega arith),
        take-append (min (len (encoding s p ++ rest) - 6) (len p)) p rest (omega arith),
      )

  pub validate_size-encoding :
      0 < len p
      → len p < 2 ^ 16
      → validate_size (encoding s p ++ rest) ≡ ok (value (serialized_size (len p)))
  unfolding validate_size
  validate_size-encoding pos h = ground (arith, length_field-encoding h, length-append p rest)

-- What `validate_size` answers on arbitrary bytes: it never reads outside them, and a size that it
-- accepts lies within them.
pub validate_size_total :
    (b : Span)
    → (validate_size b ≡ ok (unexpected malformed_buffer))
      ⊎ ((n : ℕ) × (validate_size b ≡ ok (value n))
          × (length b ≡ ok (n - 6))
          × (6 < n)
          × (n ≤ len b))
unfolding validate_size
validate_size_total b = elim (Bool-cases (ltb (len b) 6)) [
  | inl short ↦ inl (rw short)
  | inr long ↦
      let (n, e) = read_unsigned_inside 2 4 b (omega (arith, ltb_false→le (len b) 6 long)) in
      elim (Bool-cases (ltb (len b) (6 + n) || (6 + n) == 6)) [
        | inl bad ↦ inl (rw (long, e, bad))
        | inr good ↦
            let back : n ≡ 6 + n - 6 = omega arith in
            inr (6 + n, rw (long, e, good), e ∙ ap ok back, ground arith, ground arith)
      ]
]
