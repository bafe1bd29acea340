-- ===== src/Messages/Segment.antt =====
-- neptun/messages/segment.h
use neptun.Common.{
  ℕ, ◌+◌, ◌^◌, ◌≤◌, ◌<◌, ◌≡◌, refl, [], ◌++◌, arith, length, drop, length-drop, drop-drop, Outcome,
  ok, ◌>>=◌,
}
use neptun.Io.{Span, first, write_u8, read_u8}
use neptun.Io.Encode.{big_endian, write_unsigned_lem, read_unsigned-big_endian, first-append}

-- `ManagerType`. The values 1 and 2, of managers that do not exist, are used nowhere.
abbrev pub connection_manager : ℕ
connection_manager = 0

abbrev pub reliable_stream : ℕ
reliable_stream = 3

abbrev pub unreliable_stream : ℕ
unreliable_stream = 4

abbrev pub serialized_size : ℕ
serialized_size = 1 + 1

unfoldable pub write : Span → ℕ → ℕ → Outcome (Span × Span)
write b manager_type message_count = do
  (b₁, n₁) ← write_u8 manager_type 0 b
  (b₂, n₂) ← write_u8 message_count 1 b₁
  payload ← first b₂ (n₁ + n₂)
  ok (b₂, payload)

unfoldable pub manager_type : Span → Outcome ℕ
manager_type b = read_u8 b 0

unfoldable pub message_count : Span → Outcome ℕ
message_count b = read_u8 b 1

-- The two bytes of a segment.
abbrev pub encoding : ℕ → ℕ → Span
encoding t c = big_endian 1 t ++ big_endian 1 c

pub write_lem :
    (b : Span) (t c : ℕ)
    → serialized_size ≤ length b
    → write b t c ≡ ok (encoding t c ++ drop 2 b, encoding t c)
unfolding write
write_lem b t c h =
    let r : 1 ≤ length (drop 1 b) = omega (arith, length-drop 1 b) in
    rw (
      write_unsigned_lem 1 t 0 [] b refl (omega arith),
      write_unsigned_lem 1 c 1 (big_endian 1 t) (drop 1 b) refl r,
      drop-drop 2 1 1 b refl,
      first-append 2 (encoding t c) (drop 2 b) refl,
    )

module _ (t c : ℕ) (rest : Span) where
  pub manager_type-encoding : t < 2 ^ 8 → manager_type (encoding t c ++ rest) ≡ ok t
  unfolding manager_type
  manager_type-encoding h = read_unsigned-big_endian 1 t 0 [] (big_endian 1 c ++ rest) refl h

  pub message_count-encoding : c < 2 ^ 8 → message_count (encoding t c ++ rest) ≡ ok c
  unfolding message_count
  message_count-encoding h = read_unsigned-big_endian 1 c 1 (big_endian 1 t) rest refl h
