-- ===== src/Neptun/Stale.antt =====
-- Packets that `read` gives up: late ones and short ones.
use neptun.Common.{
  ℕ, ◌+◌, ◌^◌, ◌≤◌, ◌<◌, ◌≡◌, refl, ap, List, [], ◌∷◌, ◌++◌, length, ◌==◌, false, ok, fault, arith,
  Outcome, ◌>>=◌, lt→ltb, zero, suc, get_elem?, Option, none, some,
}
use neptun.Io.{Span, load, read_unsigned, read_loop}
use neptun.Messages.PacketHeader
use neptun.Metrics.{NeptunMetrics}
use neptun.PacketDelivery.{
  ack, drop, InFlightPacket, DeliveryStatuses, PacketDeliveryStatus, PacketDeliveryManager,
  process_read, process_acks, process_packet_header,
}
use neptun.Connection.{ConnectionManagerConfig, on_packet_status_delivery}
use neptun.ReliableStream.{InFlightMessage}
use neptun.ReliableStream.Statuses.{status_of_later_packet}
use neptun.Neptun.{Peer, no_callbacks, process_status, process_delivery_statuses}
use neptun.Neptun.Reading.{read_packet}

header_rejected :
    (m : PacketDeliveryManager) (id : ℕ)
    → id < m.next_expected_packet_id
    → process_packet_header m id ≡ (0, m)
unfolding process_packet_header
header_rejected m id lt =
    let other : (id == m.next_expected_packet_id) ≡ false = ground arith in
    rw (other, lt→ltb id m.next_expected_packet_id lt) refl

bind-fault {ℓ κ} :
    {A : Type ℓ} {B : Type κ} (first : Outcome A) (next : A → Outcome B)
    → ((a : A) → next a ≡ fault)
    → (first >>= next) ≡ fault
bind-fault (ok a) next h = h a
bind-fault fault next h = refl

-- A message in flight of an earlier packet stops the program at the status of a later one.
process_status_later :
    (p : Peer) (metrics : NeptunMetrics) (id : ℕ) (status : PacketDeliveryStatus)
    (m : InFlightMessage) (ms : List InFlightMessage)
    → p.reliable_stream.in_flight_messages ≡ m ∷ ms
    → m.packet_id < id
    → process_status id status p metrics ≡ fault
unfolding process_status
process_status_later p metrics id ack m ms e lt =
    let (stops, _) = status_of_later_packet p.reliable_stream id m ms e lt in
    rw stops (bind-fault (on_packet_status_delivery p.connection_manager id ack) _ (λ _. refl))
process_status_later p metrics id drop m ms e lt =
    let (_, stops) = status_of_later_packet p.reliable_stream id m ms e lt in
    rw stops (bind-fault (on_packet_status_delivery p.connection_manager id drop) _ (λ _. refl))

-- The peer after a late packet, whose acks settle all but `left` of its packets.
abbrev pub forgotten : Peer → List InFlightPacket → Peer
forgotten p left = record p {
  packet_delivery_manager = record (p.packet_delivery_manager) { in_flight_packets = left };
}

read_late :
    (config : ConnectionManagerConfig) (p : Peer) (metrics : NeptunMetrics) (id seq mask : ℕ)
    (rest : Span) (statuses : DeliveryStatuses) (left : List InFlightPacket)
    → id < 2 ^ 32
    → seq < 2 ^ 32
    → mask < 2 ^ 32
    → id < p.packet_delivery_manager.next_expected_packet_id
    → process_acks seq mask p.packet_delivery_manager.in_flight_packets ≡ ok (statuses, left)
    → read_packet config p metrics (PacketHeader.encoding id seq mask ++ rest)
      ≡ ok (forgotten p left, metrics, no_callbacks)
unfolding read_packet process_read
read_late config p metrics id seq mask rest statuses left i s m late settled =
    rw
      (
        PacketHeader.ack_sequence_number-encoding id seq mask rest s,
        PacketHeader.ack_bitmask-encoding id seq mask rest m,
        settled,
        PacketHeader.id-encoding id seq mask rest i,
        header_rejected (record (p.packet_delivery_manager) { in_flight_packets = left }) id late,
      )
      refl

-- A packet with an id before the one that is expected is given up after its acks were taken: the
-- packets that they settle leave the delivery manager, while neither the streams nor the metrics learn
-- of it. If the oldest message in flight is of a packet before `next`, the next status, which is that
-- of the packet `next`, stops the program.
pub read_packet_late :
    (config : ConnectionManagerConfig) (p : Peer) (metrics : NeptunMetrics) (id seq mask next : ℕ)
    (rest : Span) (statuses : DeliveryStatuses) (left : List InFlightPacket)
    (status : PacketDeliveryStatus) (message : InFlightMessage) (messages : List InFlightMessage)
    → id < 2 ^ 32
    → seq < 2 ^ 32
    → mask < 2 ^ 32
    → id < p.packet_delivery_manager.next_expected_packet_id
    → process_acks seq mask p.packet_delivery_manager.in_flight_packets ≡ ok (statuses, left)
    → p.reliable_stream.in_flight_messages ≡ message ∷ messages
    → message.packet_id < next
    → (read_packet config p metrics (PacketHeader.encoding id seq mask ++ rest)
        ≡ ok (forgotten p left, metrics, no_callbacks))
      × (process_delivery_statuses ((next, status) ∷ []) (forgotten p left) metrics ≡ fault)
unfolding process_delivery_statuses
read_packet_late config p metrics id seq mask next rest statuses left status message messages i s m
      late settled e lt =
    (
      read_late config p metrics id seq mask rest statuses left i s m late settled,
      rw (process_status_later (forgotten p left) metrics next status message messages e lt) refl,
    )

get_elem?_outside : (b : Span) (idx : ℕ) → length b ≤ idx → get_elem? b idx ≡ none
get_elem?_outside [] idx h = refl
get_elem?_outside (x ∷ b) zero h = absurd (omega arith)
get_elem?_outside (x ∷ b) (suc idx) h = get_elem?_outside b idx (omega (arith, h))

load_outside : (b : Span) (idx : ℕ) → length b ≤ idx → load b idx ≡ fault
unfolding load
load_outside b idx h =
    ap (λ (o : Option ℕ). elim o [ none ↦ fault | some x ↦ ok x ]) (get_elem?_outside b idx h)

-- A number whose last byte is outside.
read_loop_outside :
    (w n value idx : ℕ) (b : Span) → length b ≤ idx + n → read_loop w (suc n) value idx b ≡ fault
unfolding read_loop
read_loop_outside w zero value idx b h = rw (load_outside b idx (omega (arith, h))) refl
read_loop_outside w (suc n) value idx b h =
    bind-fault (load b idx) _ (λ byte. read_loop_outside w n _ (idx + 1) b (omega (arith, h)))

-- The code does not look at the size of a packet: one of fewer than twelve bytes is read past its end.
pub read_packet_short :
    (config : ConnectionManagerConfig) (p : Peer) (metrics : NeptunMetrics) (packet : Span)
    → length packet < 12
    → read_packet config p metrics packet ≡ fault
unfolding read_packet process_read PacketHeader.ack_bitmask read_unsigned
read_packet_short config p metrics packet short =
    let outside : read_loop 4 4 0 8 packet ≡ fault =
      read_loop_outside 4 3 0 8 packet (omega (arith, short)) in
    rw (outside, bind-fault (PacketHeader.ack_sequence_number packet) _ (λ _. refl)) refl
