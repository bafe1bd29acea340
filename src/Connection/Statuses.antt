-- ===== src/Connection/Statuses.antt =====
-- `on_packet_status_delivery`: what a status does to the handshake.
use neptun.Common.{ℕ, ◌+◌, ◌≡◌, refl, List, [], ◌∷◌, if◌then◌else◌, Bool-cases, inl, inr, ok, fault}
use neptun.PacketDelivery.{ack, drop}
use neptun.Connection.{
  ConnectionManager, is_peer_connected, front_matches, pop, clear_loop, on_packet_status_delivery,
}

clear_loop_lem : (ids : List ℕ) → clear_loop ids ≡ []
unfolding clear_loop
clear_loop_lem [] = refl
clear_loop_lem (id ∷ ids) = clear_loop_lem ids

-- On an ACK of the packet at the front of the queue the queue is emptied and then popped once more, which
-- is undefined behaviour. Any other ACK changes nothing.
pub ack_status :
    (c : ConnectionManager) (packet_id : ℕ)
    → on_packet_status_delivery c packet_id ack
      ≡ (if front_matches packet_id c.in_flight_lets_connect then fault else ok c)
unfolding on_packet_status_delivery pop
ack_status c packet_id = elim (Bool-cases (front_matches packet_id c.in_flight_lets_connect)) [
  | inl front ↦ rw (front, clear_loop_lem c.in_flight_lets_connect) refl
  | inr other ↦ rw other refl
]

-- A DROP of the packet at the front removes it, and has the message sent once more unless the limits
-- of the peer are known. Any other DROP changes nothing.
pub drop_status :
    (c : ConnectionManager) (packet_id id : ℕ) (ids : List ℕ)
    → c.in_flight_lets_connect ≡ id ∷ ids
    → on_packet_status_delivery c packet_id drop
      ≡ ok (
          if front_matches packet_id (id ∷ ids)
          then record c {
            in_flight_lets_connect = ids;
            num_lets_connect_to_send =
                c.num_lets_connect_to_send + (if is_peer_connected c then 0 else 1);
          }
          else c)
unfolding on_packet_status_delivery pop
drop_status c packet_id id ids e = elim (Bool-cases (front_matches packet_id (id ∷ ids))) [
  | inl front ↦ rw (e, front) refl
  | inr other ↦ rw (e, other) refl
]
