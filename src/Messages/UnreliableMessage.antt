-- ===== src/Messages/UnreliableMessage.antt =====
-- neptun/messages/unreliable_message.h
use neptun.Common.{
  ℕ, ◌+◌, ◌-◌, ◌^◌, ◌≤◌, ◌<◌, ◌≡◌, refl, ap, ◌∙◌, [], ◌++◌, ◌⊎◌, inl, inr, Bool-cases, ltb_false→le,
  ◌||◌, min, arith, drop, length as len, length-append, length-drop, drop-drop, take-append, ltb,
  ◌==◌, if◌then◌else◌, Outcome, ok, Expected, value, unexpected, ◌>>=◌,
}
use neptun.Errors.{EncodingError, malformed_buffer}
use neptun.Io.{Span, first, write_u16, read_u16, write_byte_array, read_byte_array}
use neptun.Io.Encode.{
  big_endian, write_unsigned_lem, write_byte_array_lem, read_unsigned-big_endian, first-append,
}
use neptun.Io.Fields.{read_unsigned_inside, read_byte_array_inside}

abbrev k_length_offset : ℕ
k_length_offset = 0

abbrev k_payload_offset : ℕ
k_payload_offset = k_length_offset + 2

-- `serialized_size(payload_size)`.
abbrev pub serialized_size : ℕ → ℕ
serialized_size payload_size = 2 + payload_size

unfoldable pub write : Span → ℕ → Span → Outcome (Span × Span)
write b length payload = do
  (b₁, n₁) ← write_u16 length 0 b
  (b₂, n₂) ← write_byte_array payload 2 b₁
  written ← first b₂ (n₁ + n₂)
  ok (b₂, written)

unfoldable pub length : Span → Outcome ℕ
length b = read_u16 b k_length_offset

unfoldable pub payload : Span → Outcome Span
unfolding length
payload b = do n ← length b; read_byte_array b k_payload_offset n

-- `serialized_size()`.
unfoldable pub size : Span → Outcome ℕ
unfolding length
size b = do n ← length b; ok (serialized_size n)

-- The smallest message has one byte of payload.
unfoldable pub validate_size : Span → Outcome (Expected EncodingError ℕ)
unfolding length
validate_size b =
    let minimum_size : ℕ = 2 in
    if ltb (len b) minimum_size then ok (unexpected malformed_buffer) else do
      n ← length b
      let total_size = minimum_size + n
      if ltb (len b) total_size || total_size == minimum_size
          then ok (unexpected malformed_buffer)
          else ok (value total_size)

-- The bytes of a message.
abbrev pub encoding : Span → Span
encoding p = big_endian 2 (len p) ++ p

pub length-encoding : (p : Span) → len (encoding p) ≡ serialized_size (len p)
length-encoding p = omega arith

pub write_lem :
    (b p : Span)
    → serialized_size (len p) ≤ len b
    → write b (len p) p ≡ ok (encoding p ++ drop (serialized_size (len p)) b, encoding p)
unfolding write
write_lem b p h =
    let r : len p ≤ len (drop 2 b) = omega (arith, length-drop 2 b) in
    rw (
      write_unsigned_lem 2 (len p) 0 [] b refl (omega arith),
      write_byte_array_lem p 2 (big_endian 2 (len p)) (drop 2 b) refl r,
      drop-drop (2 + len p) 2 (len p) b refl,
      first-append (2 + len p) (encoding p) (drop (2 + len p) b) (omega arith),
    )

module _ (p rest : Span) where
  pub length_field-encoding : len p < 2 ^ 16 → length (encoding p ++ rest) ≡ ok (len p)
  unfolding length
  length_field-encoding h = read_unsigned-big_endian 2 (len p) 0 [] (p ++ rest) refl h

  pub size-encoding : len p < 2 ^ 16 → size (encoding p ++ rest) ≡ ok (serialized_size (len p))
  unfolding size
  size-encoding h = rw (length_field-encoding h) refl

  pub payload-encoding : len p < 2 ^ 16 → payload (encoding p ++ rest) ≡ ok p
  unfolding payload
  payload-encoding h =
      let size = length-append p rest in
      rw (
        payload,
        length_field-encoding h,
        read_byte_array_inside 2 (len p) (encoding p ++ rest) (omega arith),
        take-append (min (len (encoding p ++ rest) - 2) (len p)) p rest (omega arith),
      )

  pub validate_size-encoding :
      0 < len p
      → len p < 2 ^ 16
      → validate_size (encoding p ++ rest) ≡ ok (value (serialized_size (len p)))
  unfolding validate_size
  validate_size-encoding pos h = ground (arith, length_field-encoding h, length-append p rest)

-- What `validate_size` answers on arbitrary bytes: it never reads outside them, and a size that it
-- accepts lies within them.
pub validate_size_within :
    (b : Span)
    → (validate_size b ≡ ok (unexpected malformed_buffer))
      ⊎ ((n : ℕ) × (validate_size b ≡ ok (value n))
          × (length b ≡ ok (n - 2))
          × (2 < n)
          × (n ≤ len b))
unfolding validate_size
validate_size_within b = elim (Bool-cases (ltb (len b) 2)) [
  | inl short ↦ inl (rw short)
  | inr long ↦
      let (n, e) = read_unsigned_inside 2 0 b (omega (arith, ltb_false→le (len b) 2 long)) in
      elim (Bool-cases (ltb (len b) (2 + n) || (2 + n) == 2)) [
        | inl bad ↦ inl (rw (long, e, bad))
        | inr good ↦
            let back : n ≡ 2 + n - 2 = omega arith in
            inr (2 + n, rw (long, e, good), e ∙ ap ok back, ground arith, ground arith)
      ]
]
