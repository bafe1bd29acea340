-- ===== src/Messages/MessageHeader.antt =====
-- neptun/messages/message_header.h
use neptun.Common.{ℕ, ◌^◌, ◌≤◌, ◌<◌, ◌≡◌, refl, [], ◌++◌, length, drop, Outcome, ok, ◌>>=◌}
use neptun.Io.{Span, first, write_u8, read_u8}
use neptun.Io.Encode.{big_endian, write_unsigned_lem, read_unsigned-big_endian, first-append}

abbrev pub serialized_size : ℕ
serialized_size = 1

unfoldable pub write : Span → ℕ → Outcome (Span × Span)
write b message_type = do
  (b₁, count) ← write_u8 message_type 0 b
  payload ← first b₁ count
  ok (b₁, payload)

unfoldable pub message_type : Span → Outcome ℕ
message_type b = read_u8 b 0

pub write_lem :
    (b : Span) (t : ℕ)
    → serialized_size ≤ length b
    → write b t ≡ ok (big_endian 1 t ++ drop 1 b, big_endian 1 t)
unfolding write
write_lem b t h =
    rw (write_unsigned_lem 1 t 0 [] b refl h, first-append 1 (big_endian 1 t) (drop 1 b) refl)

pub message_type-big_endian :
    (t : ℕ) (rest : Span) → t < 2 ^ 8 → message_type (big_endian 1 t ++ rest) ≡ ok t
unfolding message_type
message_type-big_endian t rest h = read_unsigned-big_endian 1 t 0 [] rest refl h
