-- ===== src/Messages/RoundTrip.antt =====
-- What the messages write their getters read back.
use neptun.Common.{ℕ, ◌+◌, ◌^◌, ◌≤◌, ◌<◌, ◌≡◌, ◌∷◌, ◌++◌, length, take, drop, ok, value}
use neptun.Io.{Span}
use neptun.Messages.PacketHeader
use neptun.Messages.Segment
use neptun.Messages.LetsConnect
use neptun.Messages.ReliableMessage
use neptun.Messages.UnreliableMessage

-- `PacketHeader`: written into twelve bytes or more, it returns the twelve bytes written, and from the
-- buffer the getters read the three words of 32 bits.
pub packet_header_fields :
    (b : Span) (i s m : ℕ)
    → 12 ≤ length b
    → i < 2 ^ 32
    → s < 2 ^ 32
    → m < 2 ^ 32
    → (b' : Span) × (PacketHeader.write b i s m ≡ ok (b', take 12 b'))
      × (PacketHeader.id b' ≡ ok i)
      × (PacketHeader.ack_sequence_number b' ≡ ok s)
      × (PacketHeader.ack_bitmask b' ≡ ok m)
packet_header_fields b i s m h ki ks km = (
  PacketHeader.encoding i s m ++ drop 12 b,
  PacketHeader.write_lem b i s m h,
  PacketHeader.id-encoding i s m (drop 12 b) ki,
  PacketHeader.ack_sequence_number-encoding i s m (drop 12 b) ks,
  PacketHeader.ack_bitmask-encoding i s m (drop 12 b) km,
)

-- `Segment`: the same for its two bytes.
pub segment_fields :
    (b : Span) (t c : ℕ)
    → 2 ≤ length b
    → t < 2 ^ 8
    → c < 2 ^ 8
    → (b' : Span) × (Segment.write b t c ≡ ok (b', take 2 b'))
      × (Segment.manager_type b' ≡ ok t)
      × (Segment.message_count b' ≡ ok c)
segment_fields b t c h kt kc = (
  Segment.encoding t c ++ drop 2 b,
  Segment.write_lem b t c h,
  Segment.manager_type-encoding t c (drop 2 b) kt,
  Segment.message_count-encoding t c (drop 2 b) kc,
)

-- `LetsConnect`: written into seven bytes or more, its four numbers are read back from the buffer. The
-- span that `write` returns has only six of the bytes.
pub lets_connect_fields :
    (x y gap : ℕ) (b : Span) (sr rr ss rs : ℕ)
    → 4 ≤ length b
    → sr < 2 ^ 8
    → rr < 2 ^ 8
    → ss < 2 ^ 16
    → rs < 2 ^ 16
    → (b' : Span) × (LetsConnect.write (x ∷ y ∷ gap ∷ b) sr rr ss rs ≡ ok (b', take 6 b'))
      × (LetsConnect.max_send_packet_rate b' ≡ ok sr)
      × (LetsConnect.max_read_packet_rate b' ≡ ok rr)
      × (LetsConnect.max_send_packet_size b' ≡ ok ss)
      × (LetsConnect.max_read_packet_size b' ≡ ok rs)
lets_connect_fields x y gap b sr rr ss rs h k₁ k₂ k₃ k₄ = (
  LetsConnect.encoding sr rr gap ss rs ++ drop 4 b,
  LetsConnect.write_lem x y gap b sr rr ss rs h,
  LetsConnect.max_send_packet_rate-encoding sr rr gap ss rs (drop 4 b) k₁,
  LetsConnect.max_read_packet_rate-encoding sr rr gap ss rs (drop 4 b) k₂,
  LetsConnect.max_send_packet_size-encoding sr rr gap ss rs (drop 4 b) k₃,
  LetsConnect.max_read_packet_size-encoding sr rr gap ss rs (drop 4 b) k₄,
)

-- `ReliableMessage`: a payload that is not empty and within the length field, written where it fits, is
-- accepted by `validate_size` with the size written, and read back with its sequence number.
pub reliable_message_fields :
    (b : Span) (s : ℕ) (p : Span)
    → 6 + length p ≤ length b
    → s < 2 ^ 32
    → 0 < length p
    → length p < 2 ^ 16
    → (b' : Span) × (written : Span) × (ReliableMessage.write b s (length p) p ≡ ok (b', written))
      × (length written ≡ 6 + length p)
      × (ReliableMessage.validate_size b' ≡ ok (value (6 + length p)))
      × (ReliableMessage.sequence_number b' ≡ ok s)
      × (ReliableMessage.payload b' ≡ ok p)
reliable_message_fields b s p h ks pos kp =
    let rest = drop (6 + length p) b in
    (
      ReliableMessage.encoding s p ++ rest,
      ReliableMessage.encoding s p,
      ReliableMessage.write_lem b s p h,
      ReliableMessage.length-encoding s p,
      ReliableMessage.validate_size-encoding s p rest pos kp,
      ReliableMessage.sequence_number-encoding s p rest ks,
      ReliableMessage.payload-encoding s p rest kp,
    )

-- `UnreliableMessage`: the same, without a sequence number.
pub unreliable_message_fields :
    (b p : Span)
    → 2 + length p ≤ length b
    → 0 < length p
    → length p < 2 ^ 16
    → (b' : Span) × (written : Span) × (UnreliableMessage.write b (length p) p ≡ ok (b', written))
      × (length written ≡ 2 + length p)
      × (UnreliableMessage.validate_size b' ≡ ok (value (2 + length p)))
      × (UnreliableMessage.payload b' ≡ ok p)
unreliable_message_fields b p h pos kp =
    let rest = drop (2 + length p) b in
    (
      UnreliableMessage.encoding p ++ rest,
      UnreliableMessage.encoding p,
      UnreliableMessage.write_lem b p h,
      UnreliableMessage.length-encoding p,
      UnreliableMessage.validate_size-encoding p rest pos kp,
      UnreliableMessage.payload-encoding p rest kp,
    )
