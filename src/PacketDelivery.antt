-- ===== src/PacketDelivery.antt =====
-- neptun/packet_delivery_manager.h, with the types of neptun/common.h.
-- Times are nanoseconds since the clock's epoch, as numbers; adding the timeout does not wrap.
pub mod Msb
pub mod Acks
pub mod Timeouts
pub mod Outgoing
pub mod History
pub mod Tests
use neptun.Common.{
  ℕ, zero, suc, ◌+◌, ◌-◌, ◌*◌, ◌%◌, ◌^◌, Option, none, some, List, [], ◌∷◌, ◌++◌, ltb, leb, ◌==◌,
  if◌then◌else◌, bit_and, bit_or, Outcome, ok, check, ◌>>=◌, ◌>>◌, length,
}
use neptun.Io.{Span}
use neptun.Messages.PacketHeader

pub data PacketDeliveryStatus : Type 0 where
  ack drop : PacketDeliveryStatus

-- `DeliveryStatuses`: the vector of ids with their statuses, in the order they were added.
abbrev pub DeliveryStatuses : Type 0
DeliveryStatuses = List (ℕ × PacketDeliveryStatus)

abbrev pub add : DeliveryStatuses → ℕ → PacketDeliveryStatus → DeliveryStatuses
add statuses packet_id status = statuses ++ ((packet_id, status) ∷ [])

pub record InFlightPacket : Type 0 where
  pub id : ℕ
  pub time_dispatched : ℕ

-- The queues are lists, the front first.
pub record PacketDeliveryManager : Type 0 where
  pub packet_timeout : ℕ
  pub next_outgoing_packet_id : ℕ
  pub next_expected_packet_id : ℕ
  pub pending_acks : List ℕ
  pub in_flight_packets : List InFlightPacket

-- The constructor; the timeout is in milliseconds.
unfoldable pub init : ℕ → ℕ → PacketDeliveryManager
init next_expected packet_timeout = record {
  packet_timeout = packet_timeout;
  next_outgoing_packet_id = 0;
  next_expected_packet_id = next_expected;
  pending_acks = [];
  in_flight_packets = [];
}

-- The loop of `most_significant_bit` with `n` of its 32 rounds left: the bit is `32 - n`.
unfoldable pub msb_loop : ℕ → ℕ → Option ℕ → Option ℕ
msb_loop zero value msb = msb
msb_loop (suc n) value msb =
    let bit = 32 - suc n in
    msb_loop n value (if ltb 0 (bit_and (2 ^ bit) value) then some bit else msb)

unfoldable pub most_significant_bit : ℕ → Option ℕ
unfolding msb_loop
most_significant_bit value = msb_loop 32 value none

-- The status of an in-flight packet that the acks cover. A shift by 32 is undefined behaviour.
unfoldable pub status_of : ℕ → ℕ → ℕ → Outcome PacketDeliveryStatus
status_of ack_sequence_number ack_bitmask id = if ltb id ack_sequence_number then ok drop else do
  let delta = id - ack_sequence_number
  check (leb delta 32)
  check (ltb delta 32)
  ok (if ltb 0 (bit_and (2 ^ delta) ack_bitmask) then ack else drop)

-- The loop of `process_acks`.
unfoldable pub acks_loop :
    ℕ
    → ℕ
    → ℕ
    → DeliveryStatuses
    → List InFlightPacket
    → Outcome (DeliveryStatuses × List InFlightPacket)
acks_loop seq mask highest statuses [] = ok (statuses, [])
acks_loop seq mask highest statuses (p ∷ ps) =
    if ltb highest p.id then ok (statuses, p ∷ ps) else do
      status ← status_of seq mask p.id
      acks_loop seq mask highest (add statuses p.id status) ps

unfoldable pub acks_from :
    ℕ → ℕ → Option ℕ → List InFlightPacket → Outcome (DeliveryStatuses × List InFlightPacket)
acks_from seq mask none ps = ok ([], ps)
acks_from seq mask (some msb) ps = acks_loop seq mask ((seq + msb) % 2 ^ 32) [] ps

-- The statuses, and the in-flight packets that are left.
unfoldable pub process_acks :
    ℕ → ℕ → List InFlightPacket → Outcome (DeliveryStatuses × List InFlightPacket)
unfolding acks_from
process_acks seq mask ps = acks_from seq mask (most_significant_bit mask) ps

abbrev pub add_pending_ack : PacketDeliveryManager → ℕ → PacketDeliveryManager
add_pending_ack m packet_id = record m { pending_acks = m.pending_acks ++ (packet_id ∷ []) }

-- The header is given by its id. The number of bytes to skip is 0 for a packet that is too old.
unfoldable pub process_packet_header : PacketDeliveryManager → ℕ → ℕ × PacketDeliveryManager
process_packet_header m id =
    let accepted = record (add_pending_ack m id) { next_expected_packet_id = (id + 1) % 2 ^ 32 } in
    if id == m.next_expected_packet_id
    then (PacketHeader.serialized_size, accepted)
    else if ltb id m.next_expected_packet_id
    then (0, m)
    else (PacketHeader.serialized_size, accepted)

-- The byte count, the statuses and the id of the packet.
unfoldable pub process_read :
    PacketDeliveryManager → Span → Outcome (ℕ × DeliveryStatuses × ℕ × PacketDeliveryManager)
process_read m buffer = do
  seq ← PacketHeader.ack_sequence_number buffer
  mask ← PacketHeader.ack_bitmask buffer
  (statuses, left) ← process_acks seq mask m.in_flight_packets
  id ← PacketHeader.id buffer
  let (count, m') = process_packet_header (record m { in_flight_packets = left }) id
  ok (count, statuses, id, m')

-- The loop of `drop_old_packets`; a millisecond is a million nanoseconds.
unfoldable pub drop_loop :
    ℕ → ℕ → DeliveryStatuses → List InFlightPacket → DeliveryStatuses × List InFlightPacket
drop_loop timeout now statuses [] = (statuses, [])
drop_loop timeout now statuses (p ∷ ps) =
    let rest = drop_loop timeout now (add statuses p.id drop) ps in
    if leb (p.time_dispatched + timeout * 1000000) now then rest else (statuses, p ∷ ps)

unfoldable pub drop_old_packets :
    PacketDeliveryManager → ℕ → DeliveryStatuses × PacketDeliveryManager
drop_old_packets m now =
    let (statuses, left) = drop_loop m.packet_timeout now [] m.in_flight_packets in
    (statuses, record m { in_flight_packets = left })

-- The loop of `write` over the pending acks: the bitmask, and the acks for a later packet.
unfoldable pub bitmask_loop : ℕ → ℕ → List ℕ → Outcome (ℕ × List ℕ)
bitmask_loop seq mask [] = ok (mask, [])
bitmask_loop seq mask (id ∷ ids) = do
  check (leb seq id)
  let bit_position = id - seq
  let rest = bitmask_loop seq (bit_or mask (2 ^ bit_position)) ids
  if leb 32 bit_position then ok (mask, id ∷ ids) else rest

-- The two branches of `write` on the pending acks: the buffer after the header, the byte count and
-- the acks that are left.
unfoldable pub write_header : Span → ℕ → List ℕ → Outcome (Span × ℕ × List ℕ)
unfolding bitmask_loop
write_header buffer packet_id [] = do
  (buffer', payload) ← PacketHeader.write buffer packet_id 0 0
  check (length payload == PacketHeader.serialized_size)
  ok (buffer', length payload, [])
write_header buffer packet_id (seq ∷ ids) = do
  (mask, left) ← bitmask_loop seq 0 (seq ∷ ids)
  (buffer', _) ← PacketHeader.write buffer packet_id seq mask
  ok (buffer', PacketHeader.serialized_size, left)

-- The buffer after it, the byte count and the manager.
unfoldable pub write : PacketDeliveryManager → Span → ℕ → Outcome (Span × ℕ × PacketDeliveryManager)
unfolding write_header
write m buffer now = do
  let packet_id = m.next_outgoing_packet_id
  let dispatched : InFlightPacket = record { id = packet_id; time_dispatched = now }
  (buffer', count, left) ← write_header buffer packet_id m.pending_acks
  ok (
    buffer',
    count,
    record m {
      next_outgoing_packet_id = (packet_id + 1) % 2 ^ 32;
      pending_acks = left;
      in_flight_packets = m.in_flight_packets ++ (dispatched ∷ []);
    },
  )
