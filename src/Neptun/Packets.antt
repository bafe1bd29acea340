-- ===== src/Neptun/Packets.antt =====
-- The stages of a packet without acks and handshakes, written and read.
use neptun.Common.{
  ℕ, suc, ◌+◌, ◌%◌, ◌^◌, ◌≤◌, ◌<◌, ◌≡◌, refl, ap, List, [], ◌∷◌, ◌++◌, drop, length, false, ltb,
  ◌==◌, Outcome, ok, arith, value, Bool-cases, inl, inr, take-append, le→ltb_false,
}
use neptun.Io.{Span}
use neptun.Io.Encode.{advance-append}
use neptun.Messages.PacketHeader
use neptun.Messages.Segment
use neptun.PacketDelivery.{
  PacketDeliveryManager, InFlightPacket, process_read, process_acks, process_packet_header,
  most_significant_bit, write_header, acks_from,
}
use neptun.PacketDelivery
use neptun.Connection.{
  ConnectionManager, ConnectionManagerConfig, BandwidthLimit, is_peer_connected,
}
use neptun.Connection
use neptun.Neptun.Writing.{stage}

-- A stage behind bytes that are written leaves them alone.
pub stage-append :
    {A : Type 0} (idx : ℕ) (writer : Span → Outcome (Span × ℕ × A)) (pre rest rest' : Span)
    (count : ℕ) (a : A)
    → idx ≡ length pre
    → writer rest ≡ ok (rest', count, a)
    → stage idx writer (pre ++ rest) ≡ ok (pre ++ rest', count, a)
unfolding stage
stage-append idx writer pre rest rest' count a e run =
    rw (advance-append idx pre rest e, run, take-append idx pre rest e) refl

-- The manager after it has written a header without acks.
abbrev pub dispatched : PacketDeliveryManager → ℕ → PacketDeliveryManager
dispatched m now = record m {
  next_outgoing_packet_id = (m.next_outgoing_packet_id + 1) % 2 ^ 32;
  pending_acks = [];
  in_flight_packets =
      m.in_flight_packets
      ++ (record { id = m.next_outgoing_packet_id; time_dispatched = now } ∷ []);
}

pub write_without_acks :
    (m : PacketDeliveryManager) (buffer : Span) (now : ℕ)
    → m.pending_acks ≡ []
    → 12 ≤ length buffer
    → PacketDelivery.write m buffer now
      ≡ ok (
        PacketHeader.encoding m.next_outgoing_packet_id 0 0 ++ drop 12 buffer,
        12,
        dispatched m now,
      )
unfolding PacketDelivery.write write_header
write_without_acks m buffer now e h =
    rw (e, PacketHeader.write_lem buffer m.next_outgoing_packet_id 0 0 h) refl

no_acks : (ps : List InFlightPacket) → process_acks 0 0 ps ≡ ok ([], ps)
unfolding process_acks most_significant_bit acks_from
no_acks ps = refl

-- The manager after it has accepted the packet `id`.
abbrev pub accepted : PacketDeliveryManager → ℕ → PacketDeliveryManager
accepted m id = record m {
  pending_acks = m.pending_acks ++ (id ∷ []);
  next_expected_packet_id = (id + 1) % 2 ^ 32;
}

header_accepted :
    (m : PacketDeliveryManager) (id : ℕ)
    → m.next_expected_packet_id ≤ id
    → process_packet_header m id ≡ (12, accepted m id)
unfolding process_packet_header
header_accepted m id le =
    let above = le→ltb_false id m.next_expected_packet_id le in
    elim (Bool-cases (id == m.next_expected_packet_id)) [
      | inl same ↦ rw same refl
      | inr other ↦ rw (other, above) refl
    ]

pub process_read_without_acks :
    (m : PacketDeliveryManager) (id : ℕ) (rest : Span)
    → id < 2 ^ 32
    → m.next_expected_packet_id ≤ id
    → process_read m (PacketHeader.encoding id 0 0 ++ rest) ≡ ok (12, [], id, accepted m id)
unfolding process_read process_packet_header
process_read_without_acks m id rest h le =
    let packet = PacketHeader.encoding id 0 0 ++ rest in
    rw
      (
        PacketHeader.ack_sequence_number-encoding id 0 0 rest (omega arith),
        PacketHeader.ack_bitmask-encoding id 0 0 rest (omega arith),
        no_acks m.in_flight_packets,
        PacketHeader.id-encoding id 0 0 rest h,
      )
      (ap (λ (r : ℕ × PacketDeliveryManager). ok (r.0, [], id, r.1)) (header_accepted m id le))

-- A manager with no handshake to send writes nothing.
pub write_settled :
    (c : ConnectionManager) (id : ℕ) (buffer : Span)
    → c.num_lets_connect_to_send ≡ 0
    → Connection.write c id buffer ≡ ok (buffer, 0, c)
unfolding Connection.write
write_settled c id buffer e = rw e refl

-- The segment of another stage is left to it.
pub read_passes :
    (c : ConnectionManager) (count : ℕ) (rest : Span)
    → Connection.read c (Segment.encoding Segment.reliable_stream count ++ rest) ≡ ok (value 0, c)
unfolding Connection.read
read_passes c count rest =
    let long : ltb (suc (suc (length rest))) 2 ≡ false = ground arith in
    rw (Segment.manager_type-encoding 3 count rest (omega arith), long) refl
