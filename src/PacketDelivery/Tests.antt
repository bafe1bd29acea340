-- ===== src/PacketDelivery/Tests.antt =====
-- Runs of PacketDeliveryManager, and its theorems at concrete packets.
use neptun.Common.{
  ℕ, ◌≡◌, ◌<◌, ◌^◌, ◌++◌, map, if◌then◌else◌, refl, [], ◌∷◌, arith, ok, replicate, drop as skip,
}
use neptun.Messages.PacketHeader.{encoding, write_lem}
use neptun.PacketDelivery.{
  InFlightPacket, PacketDeliveryManager, init, most_significant_bit, process_acks, drop_old_packets,
  drop_loop, write, write_header, acks_loop, status_of, ack, drop,
}
use neptun.PacketDelivery.Acks.{reported, ids, covered, uncovered}
use neptun.PacketDelivery.Outgoing.{write-process_acks, carried, delayed, last_of, member}
use neptun.PacketDelivery.History.{Reach, here, next, writes, ticks, Reach_keeps}

abbrev packet : ℕ → ℕ → InFlightPacket
packet id time = record { id = id; time_dispatched = time }

abbrev manager : PacketDeliveryManager
manager = record {
  packet_timeout = 5;
  next_outgoing_packet_id = 3;
  next_expected_packet_id = 41;
  pending_acks = 7 ∷ 9 ∷ 50 ∷ [];
  in_flight_packets = packet 1 0 ∷ packet 2 9000000 ∷ [];
}

process_acks_run :
    process_acks 1 5 (packet 0 0 ∷ packet 1 0 ∷ packet 2 0 ∷ packet 3 0 ∷ packet 4 0 ∷ [])
    ≡ ok ((0, drop) ∷ (1, ack) ∷ (2, drop) ∷ (3, ack) ∷ [], packet 4 0 ∷ [])
unfolding process_acks most_significant_bit acks_loop status_of
process_acks_run = refl

write-process_acks_example :
    let ps = packet 8 0 ∷ packet 9 0 ∷ packet 10 0 ∷ [] in
    let sent = carried 7 (9 ∷ 50 ∷ []) in
    (mask : ℕ) × (write manager (replicate 14 0) 0
      ≡ ok (
        encoding 3 7 mask ++ skip 12 (replicate 14 0),
        12,
        record manager {
          next_outgoing_packet_id = 4;
          pending_acks = delayed 7 (9 ∷ 50 ∷ []);
          in_flight_packets = packet 1 0 ∷ packet 2 9000000 ∷ packet 3 0 ∷ [];
        },
      ))
    × (mask < 2 ^ 32)
    × (process_acks 7 mask ps
        ≡ ok (
          map
              (λ p. (p.id, if member p.id (7 ∷ sent) then ack else drop))
              (covered (last_of 7 sent) ps),
          uncovered (last_of 7 sent) ps,
        ))
write-process_acks_example =
    write-process_acks manager (replicate 14 0) 0 7 60 (9 ∷ 50 ∷ [])
      (packet 8 0 ∷ packet 9 0 ∷ packet 10 0 ∷ []) (omega arith) refl
      (omega arith, (omega arith, (omega arith, omega arith))) (omega arith)

-- A manager that has sent one packet, has seen nothing and then drops it.
abbrev fresh : PacketDeliveryManager
fresh = record {
  packet_timeout = 5;
  next_outgoing_packet_id = 0;
  next_expected_packet_id = 0;
  pending_acks = [];
  in_flight_packets = [];
}

abbrev sent_one : PacketDeliveryManager
sent_one = record fresh { next_outgoing_packet_id = 1; in_flight_packets = packet 0 0 ∷ [] }

sends : write fresh (replicate 12 0) 0 ≡ ok (replicate 12 0, 12, sent_one)
unfolding write write_header
sends = rw (write_lem (replicate 12 0) 0 0 0 (omega arith)) refl

drops :
    drop_old_packets sent_one 6000000 ≡ ((0, drop) ∷ [], record sent_one { in_flight_packets = [] })
unfolding drop_old_packets drop_loop
drops = refl

history : Reach (init 0 5) (0 ∷ []) ((0, drop) ∷ []) (record sent_one { in_flight_packets = [] })
unfolding init
history =
    next (next (here refl refl) (writes (replicate 12 0) 0 sends refl refl) refl refl)
      (ticks 6000000 drops refl) refl refl

Reach_keeps_example : reported ((0, drop) ∷ []) ++ ids [] ≡ ids [] ++ (0 ∷ [])
unfolding init
Reach_keeps_example = Reach_keeps history
