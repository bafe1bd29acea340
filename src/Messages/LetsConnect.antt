-- ===== src/Messages/LetsConnect.antt =====
-- neptun/messages/lets_connect.h
use neptun.Common.{
  ℕ, ◌+◌, ◌^◌, ◌≤◌, ◌<◌, ◌≡◌, refl, [], ◌∷◌, ◌++◌, arith, length, take, drop, length-drop,
  drop-drop, Outcome, ok, fault, ◌>>=◌,
}
use neptun.Io.{Span, first, write_u8, write_u16, read_u8, read_u16}
use neptun.Io.Encode.{big_endian, write_unsigned_lem, read_unsigned-big_endian, first-append}
use neptun.Io.Fields.{read_unsigned_outside}

abbrev pub k_id : ℕ
k_id = 0

abbrev pub serialized_size : ℕ
serialized_size = 1 + 1 + 2 + 2

-- The offsets. The third adds the size of a `u16` to the offset of a `u8`.
abbrev pub k_max_send_packet_rate : ℕ
k_max_send_packet_rate = 0

abbrev pub k_max_read_packet_rate : ℕ
k_max_read_packet_rate = k_max_send_packet_rate + 1

abbrev pub k_max_send_packet_size : ℕ
k_max_send_packet_size = k_max_read_packet_rate + 2

abbrev pub k_max_read_packet_size : ℕ
k_max_read_packet_size = k_max_send_packet_size + 2

unfoldable pub write : Span → ℕ → ℕ → ℕ → ℕ → Outcome (Span × Span)
write b send_rate read_rate send_size read_size = do
  (b₁, n₁) ← write_u8 send_rate k_max_send_packet_rate b
  (b₂, n₂) ← write_u8 read_rate k_max_read_packet_rate b₁
  (b₃, n₃) ← write_u16 send_size k_max_send_packet_size b₂
  (b₄, n₄) ← write_u16 read_size k_max_read_packet_size b₃
  payload ← first b₄ (n₁ + n₂ + n₃ + n₄)
  ok (b₄, payload)

unfoldable pub max_send_packet_rate : Span → Outcome ℕ
max_send_packet_rate b = read_u8 b k_max_send_packet_rate

unfoldable pub max_read_packet_rate : Span → Outcome ℕ
max_read_packet_rate b = read_u8 b k_max_read_packet_rate

unfoldable pub max_send_packet_size : Span → Outcome ℕ
max_send_packet_size b = read_u16 b k_max_send_packet_size

unfoldable pub max_read_packet_size : Span → Outcome ℕ
max_read_packet_size b = read_u16 b k_max_read_packet_size

-- The seven bytes that hold the message: the third is not written, and stays what it was.
abbrev pub encoding : ℕ → ℕ → ℕ → ℕ → ℕ → Span
encoding sr rr gap ss rs =
    big_endian 1 sr ++ (big_endian 1 rr ++ (gap ∷ (big_endian 2 ss ++ big_endian 2 rs)))

pub write_lem :
    (x y gap : ℕ) (b : Span) (sr rr ss rs : ℕ)
    → 4 ≤ length b
    → write (x ∷ y ∷ gap ∷ b) sr rr ss rs
      ≡ ok (encoding sr rr gap ss rs ++ drop 4 b, take 6 (encoding sr rr gap ss rs))
unfolding write
write_lem x y gap b sr rr ss rs h =
    let r : 2 ≤ length (drop 2 b) = omega (arith, length-drop 2 b) in
    let low : Span = take 6 (encoding sr rr gap ss rs) in
    rw (
      write_unsigned_lem 1 sr 0 [] (x ∷ y ∷ gap ∷ b) refl (omega arith),
      write_unsigned_lem 1 rr 1 (big_endian 1 sr) (y ∷ gap ∷ b) refl (omega arith),
      write_unsigned_lem 2 ss 3 (big_endian 1 sr ++ (big_endian 1 rr ++ (gap ∷ []))) b refl
          (omega arith),
      write_unsigned_lem 2 rs 5 (big_endian 1 sr ++ (big_endian 1 rr ++ (gap ∷ big_endian 2 ss)))
          (drop 2 b) refl r,
      drop-drop 4 2 2 b refl,
      first-append 6 low (drop 6 (encoding sr rr gap ss rs) ++ drop 4 b) refl,
    )

-- The getters read the four numbers back from a span that holds all seven bytes.
module _ (sr rr gap ss rs : ℕ) (rest : Span) where
  abbrev message : Span
  message = encoding sr rr gap ss rs ++ rest

  pub max_send_packet_rate-encoding : sr < 2 ^ 8 → max_send_packet_rate message ≡ ok sr
  unfolding max_send_packet_rate
  max_send_packet_rate-encoding h = read_unsigned-big_endian 1 sr 0 [] (drop 1 message) refl h

  pub max_read_packet_rate-encoding : rr < 2 ^ 8 → max_read_packet_rate message ≡ ok rr
  unfolding max_read_packet_rate
  max_read_packet_rate-encoding h =
      read_unsigned-big_endian 1 rr 1 (take 1 message) (drop 2 message) refl h

  pub max_send_packet_size-encoding : ss < 2 ^ 16 → max_send_packet_size message ≡ ok ss
  unfolding max_send_packet_size
  max_send_packet_size-encoding h =
      read_unsigned-big_endian 2 ss 3 (take 3 message) (drop 5 message) refl h

  pub max_read_packet_size-encoding : rs < 2 ^ 16 → max_read_packet_size message ≡ ok rs
  unfolding max_read_packet_size
  max_read_packet_size-encoding h = read_unsigned-big_endian 2 rs 5 (take 5 message) rest refl h

-- In a span of the declared size the last field reaches over the end.
pub max_read_packet_size_cut :
    (b : Span) → length b ≤ serialized_size → max_read_packet_size b ≡ fault
unfolding max_read_packet_size
max_read_packet_size_cut b h = read_unsigned_outside 2 5 b (omega arith) (omega arith)
