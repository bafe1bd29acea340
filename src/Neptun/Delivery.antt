-- ===== src/Neptun/Delivery.antt =====
-- What one peer writes the other reads: the stages of a packet together.
use neptun.Common.{
  ℕ, ◌+◌, ◌^◌, ◌≤◌, ◌<◌, ◌≡◌, refl, ap, ap₂, ◌∙◌, List, [], ◌++◌, drop, length, true, ◌==◌, Option,
  none, some, ok, fault, arith, Bool-cases, inl, inr, length-drop, length-append, All, value,
}
use neptun.Io.{Span}
use neptun.Io.Encode.{first-append, advance-append, advance-drop}
use neptun.Messages.PacketHeader
use neptun.Messages.Segment
use neptun.Metrics.{NeptunMetrics}
use neptun.Connection.{
  ConnectionManager, ConnectionManagerConfig, BandwidthLimit, is_peer_connected,
}
use neptun.ReliableStream.{ReliableStream}
use neptun.ReliableStream
use neptun.ReliableStream.Invariant.{IsValid}
use neptun.ReliableStream.Packing.{packed, write_lem}
use neptun.ReliableStream.Reading.{encodings, IsMessage, next_after, delivered, read_lem}
use neptun.UnreliableStream.{UnreliableStream}
use neptun.UnreliableStream
use neptun.Neptun.{Peer, process_delivery_statuses, update_send_rate}
use neptun.Neptun.Reading.{
  read_packet, read_connection, read_reliable, read_unreliable, set_send_rate, send_rate,
}
use neptun.Neptun.Writing.{write_packet}
use neptun.Neptun.Packets.{
  stage-append, dispatched, write_without_acks, accepted, process_read_without_acks, write_settled,
  read_passes,
}

-- A peer that has nothing to send but messages.
pub record IsPlain (p : Peer) : Type 0 where
  pub no_acks : p.packet_delivery_manager.pending_acks ≡ []
  pub settled : p.connection_manager.num_lets_connect_to_send ≡ 0

-- The peer after a packet with its messages.
abbrev pub after_write : Peer → ℕ → Span → UnreliableStream → Peer
after_write p now buffer unreliable =
    let id = p.packet_delivery_manager.next_outgoing_packet_id in
    record p {
      packet_delivery_manager = dispatched p.packet_delivery_manager now;
      reliable_stream = (packed p.reliable_stream id (drop 12 buffer)).2;
      unreliable_stream = unreliable;
    }

-- The packet is the header, the text that the reliable stream makes and that of the unreliable stream.
pub write_packet_lem :
    (p : Peer) (oldest now : ℕ) (buffer text behind t left : Span) (u : UnreliableStream)
    → IsPlain p
    → p.packet_delivery_manager.next_outgoing_packet_id < 2 ^ 32
    → IsValid p.reliable_stream oldest
    → length p.reliable_stream.buffer.bytes < 2 ^ 16
    → 12 ≤ length buffer
    → length buffer < 1806
    → let id = p.packet_delivery_manager.next_outgoing_packet_id in
      let (b, n, _) = packed p.reliable_stream id (drop 12 buffer) in
      let header = PacketHeader.encoding id 0 0 in
      b ≡ text ++ behind
      → n ≡ length text
      → UnreliableStream.write p.unreliable_stream behind ≡ ok (t ++ left, length t, u)
      → write_packet now p buffer
        ≡ ok (
          (header ++ text) ++ (t ++ left),
          12 + length text + length t,
          after_write p now buffer u,
        )
unfolding write_packet
write_packet_lem p oldest now buffer text behind t left u plain word v small h top bytes size run =
    let id = p.packet_delivery_manager.next_outgoing_packet_id in
    let header = PacketHeader.encoding id 0 0 in
    let rest = drop 12 buffer in
    let s = (packed p.reliable_stream id rest).2 in
    let room : length rest < 1794 = omega (arith, length-drop 12 buffer) in
    let wrote : ReliableStream.write p.reliable_stream id rest
        ≡ ok (text ++ behind, length text, s) =
      write_lem p.reliable_stream oldest v small rest id room
      ∙ ap₂ (λ (b : Span) (n : ℕ). ok (b, n, s)) bytes size in
    let front : 12 + length text ≡ length (header ++ text) = omega arith in
    rw
      (
        write_without_acks p.packet_delivery_manager buffer now plain.no_acks h,
        first-append 12 header rest refl,
        PacketHeader.id-encoding id 0 0 [] word,
        stage-append 12 _ header rest rest 0 p.connection_manager refl
            (write_settled p.connection_manager id rest plain.settled),
        stage-append 12 _ header rest (text ++ behind) (length text) s refl wrote,
      )
      (rw
        (
          stage-append (12 + length text) _ (header ++ text) behind (t ++ left) (length t) u front
              run,
          advance-drop (12 + 0 + length text + length t) ((header ++ text) ++ (t ++ left))
              (omega (arith, length-append text (t ++ left), length-append t left)),
        )
        (ap (λ (k : ℕ). ok ((header ++ text) ++ (t ++ left), k, after_write p now buffer u))
          (omega arith)))

-- The peer after it has read a packet with nothing but the messages `sent`.
abbrev pub after_read : ConnectionManagerConfig → Peer → BandwidthLimit → ℕ → List (ℕ × Span) → Peer
after_read config p limit id sent =
    let rate = send_rate limit.max_read_packet_rate config.limit.max_send_packet_rate in
    let rated =
      update_send_rate
        (record p { packet_delivery_manager = accepted p.packet_delivery_manager id }) rate in
    record rated {
      reliable_stream = record (p.reliable_stream) {
        next_expected_sequence_number =
            next_after p.reliable_stream.next_expected_sequence_number sent;
      };
    }

pub read_reliable_lem :
    (p : Peer) (ms : List (ℕ × Span)) (t : Span) (out : List Span)
    → length ms < 2 ^ 8
    → All IsMessage ms
    → UnreliableStream.read t ≡ ok (value (length t), out)
    → read_reliable p (Segment.encoding Segment.reliable_stream (length ms) ++ (encodings ms ++ t))
      ≡ ok (
        record p {
          reliable_stream = record (p.reliable_stream) {
            next_expected_sequence_number =
                next_after p.reliable_stream.next_expected_sequence_number ms;
          };
        },
        record {
          reliable = delivered p.reliable_stream.next_expected_sequence_number ms;
          unreliable = out;
        },
      )
unfolding read_reliable read_unreliable
read_reliable_lem p ms t out byte good behind =
    let packet = Segment.encoding Segment.reliable_stream (length ms) ++ encodings ms in
    let size : 2 + length (encodings ms) ≡ length packet = omega arith in
    rw
      (
        read_lem p.reliable_stream ms t byte good,
        advance-append (2 + length (encodings ms)) packet t size,
        behind,
        advance-drop (length t) t (omega arith),
      )
      refl

-- The rate does not change the streams.
pub update_send_rate-reliable_stream :
    (p : Peer) (rate : ℕ) → (update_send_rate p rate).reliable_stream ≡ p.reliable_stream
unfolding update_send_rate
update_send_rate-reliable_stream p rate = elim (Bool-cases (rate == 0)) [
  | inl zero_rate ↦ rw zero_rate refl
  | inr positive ↦ rw positive refl
]

pub set_send_rate_lem :
    (config : ConnectionManagerConfig) (p : Peer) (limit : BandwidthLimit)
    → p.connection_manager.peer_bandwidth_limit ≡ some limit
    → set_send_rate config p
      ≡ ok (
          update_send_rate p
            (send_rate limit.max_read_packet_rate config.limit.max_send_packet_rate))
unfolding set_send_rate
set_send_rate_lem config p limit known =
    ap
      (λ (o : Option BandwidthLimit). elim o [
        | none ↦ fault
        | some l ↦ ok (
            update_send_rate p (send_rate l.max_read_packet_rate config.limit.max_send_packet_rate))
      ])
      known

pub connected :
    (c : ConnectionManager) (limit : BandwidthLimit)
    → c.peer_bandwidth_limit ≡ some limit
    → is_peer_connected c ≡ true
connected c limit known = rw known refl

pub read_packet_lem :
    (config : ConnectionManagerConfig) (p : Peer) (metrics : NeptunMetrics) (id : ℕ)
    (limit : BandwidthLimit) (ms : List (ℕ × Span)) (t : Span) (out : List Span)
    → id < 2 ^ 32
    → p.packet_delivery_manager.next_expected_packet_id ≤ id
    → p.connection_manager.peer_bandwidth_limit ≡ some limit
    → length ms < 2 ^ 8
    → All IsMessage ms
    → UnreliableStream.read t ≡ ok (value (length t), out)
    → let body = Segment.encoding Segment.reliable_stream (length ms) ++ (encodings ms ++ t) in
      read_packet config p metrics (PacketHeader.encoding id 0 0 ++ body)
      ≡ ok (
        after_read config p limit id ms,
        metrics,
        record {
          reliable = delivered p.reliable_stream.next_expected_sequence_number ms;
          unreliable = out;
        },
      )
unfolding read_packet read_connection process_delivery_statuses
read_packet_lem config p metrics id limit ms t out word next known byte good behind =
    let body = Segment.encoding Segment.reliable_stream (length ms) ++ (encodings ms ++ t) in
    let header = PacketHeader.encoding id 0 0 in
    let peer : Peer = record p {
      packet_delivery_manager = accepted p.packet_delivery_manager id;
    } in
    let rate = send_rate limit.max_read_packet_rate config.limit.max_send_packet_rate in
    rw
      (
        process_read_without_acks p.packet_delivery_manager id body word next,
        advance-append 12 header body refl,
        read_passes p.connection_manager (length ms) (encodings ms ++ t),
        advance-drop 0 body (omega arith),
        connected p.connection_manager limit known,
        set_send_rate_lem config peer limit known,
        read_reliable_lem (update_send_rate peer rate) ms t out byte good behind,
        update_send_rate-reliable_stream peer rate,
      )
      refl
