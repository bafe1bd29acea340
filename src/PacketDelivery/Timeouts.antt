-- ===== src/PacketDelivery/Timeouts.antt =====
-- `drop_old_packets`: the packets that are older than the timeout.
use neptun.Common.{
  ℕ, ◌+◌, ◌*◌, ◌≤◌, ◌<◌, ◌≡◌, refl, ap, List, [], ◌∷◌, ◌++◌, map, append-nil, append_assoc,
  map-append, arith, leb, Bool-cases, inl, inr, if◌then◌else◌, All, leb→le,
}
use neptun.PacketDelivery.{
  PacketDeliveryManager, drop, DeliveryStatuses, InFlightPacket, add, drop_loop, drop_old_packets,
}
use neptun.PacketDelivery.Acks.{ids, reported}

-- Nanoseconds at which the packet counts as lost.
abbrev pub deadline : ℕ → InFlightPacket → ℕ
deadline timeout p = p.time_dispatched + timeout * 1000000

abbrev pub expired : ℕ → ℕ → List InFlightPacket → List InFlightPacket
expired timeout now [] = []
expired timeout now (p ∷ ps) =
    if leb (deadline timeout p) now then p ∷ expired timeout now ps else []

abbrev pub waiting : ℕ → ℕ → List InFlightPacket → List InFlightPacket
waiting timeout now [] = []
waiting timeout now (p ∷ ps) =
    if leb (deadline timeout p) now then waiting timeout now ps else p ∷ ps

-- The queue is in the order of dispatch, none before the given time.
abbrev pub InOrder : ℕ → List InFlightPacket → Type 0
InOrder t [] = Unit
InOrder t (p ∷ ps) = (t ≤ p.time_dispatched) × InOrder p.time_dispatched ps

abbrev pub dropped : List InFlightPacket → DeliveryStatuses
dropped = map (λ p. (p.id, drop))

drop_loop_lem :
    (timeout now : ℕ) (statuses : DeliveryStatuses) (ps : List InFlightPacket)
    → drop_loop timeout now statuses ps
      ≡ (statuses ++ dropped (expired timeout now ps), waiting timeout now ps)
unfolding drop_loop
drop_loop_lem timeout now statuses [] = rw (append-nil statuses)
drop_loop_lem timeout now statuses (p ∷ ps) = elim (Bool-cases (leb (deadline timeout p) now)) [
  | inl old ↦ rw (
    old,
    drop_loop_lem timeout now (add statuses p.id drop) ps,
    append_assoc statuses ((p.id, drop) ∷ []) (dropped (expired timeout now ps)),
  )
  | inr young ↦ rw (young, append-nil statuses)
]

pub expired-append-waiting :
    (timeout now : ℕ) (ps : List InFlightPacket)
    → expired timeout now ps ++ waiting timeout now ps ≡ ps
expired-append-waiting timeout now [] = refl
expired-append-waiting timeout now (p ∷ ps) = ground (arith, expired-append-waiting timeout now ps)

expired_late :
    (timeout now : ℕ) (ps : List InFlightPacket)
    → All (λ p. deadline timeout p ≤ now) (expired timeout now ps)
expired_late timeout now [] = tt
expired_late timeout now (p ∷ ps) = elim (Bool-cases (leb (deadline timeout p) now)) [
  | inl old ↦ rw old (leb→le _ _ old, expired_late timeout now ps)
  | inr young ↦ rw young tt
]

later_wait :
    (timeout now t : ℕ) (ps : List InFlightPacket)
    → now < t + timeout * 1000000
    → InOrder t ps
    → All (λ p. now < deadline timeout p) ps
later_wait timeout now t [] h o = tt
later_wait timeout now t (p ∷ ps) h o =
    (omega arith, later_wait timeout now p.time_dispatched ps (omega arith) o.1)

waiting_early :
    (timeout now t : ℕ) (ps : List InFlightPacket)
    → InOrder t ps
    → All (λ p. now < deadline timeout p) (waiting timeout now ps)
waiting_early timeout now t [] o = tt
waiting_early timeout now t (p ∷ ps) o = elim (Bool-cases (leb (deadline timeout p) now)) [
  | inl old ↦ rw old (waiting_early timeout now p.time_dispatched ps o.1)
  | inr young ↦ rw young (
      let h : now < deadline timeout p = ground arith in
      (h, later_wait timeout now p.time_dispatched ps h o.1))
]

pub reported-dropped : (ps : List InFlightPacket) → reported (dropped ps) ≡ ids ps
reported-dropped [] = refl
reported-dropped (p ∷ ps) = ap (◌∷◌ p.id) (reported-dropped ps)

-- For a queue in the order of dispatch `drop_old_packets` reports as dropped exactly the packets
-- whose timeout has passed: those are a prefix of the queue, what is left is the rest of it, every
-- packet reported has reached its deadline and no packet left has.
pub drop_old_packets_lem :
    (m : PacketDeliveryManager) (now t : ℕ)
    → InOrder t m.in_flight_packets
    → (old : List InFlightPacket) × (drop_old_packets m now).0 ≡ dropped old
      × (old ++ (drop_old_packets m now).1.in_flight_packets ≡ m.in_flight_packets)
      × All (λ p. deadline m.packet_timeout p ≤ now) old
      × All (λ p. now < deadline m.packet_timeout p) (drop_old_packets m now).1.in_flight_packets
unfolding drop_old_packets
drop_old_packets_lem m now t o =
    let ps = m.in_flight_packets in
    let e = drop_loop_lem m.packet_timeout now [] ps in
    rw e (
      expired m.packet_timeout now ps,
      refl,
      expired-append-waiting m.packet_timeout now ps,
      expired_late m.packet_timeout now ps,
      waiting_early m.packet_timeout now t ps o,
    )

-- Without a hypothesis: the ids reported, then those left, are those in flight.
pub reported-drop_old :
    (m : PacketDeliveryManager) (now : ℕ)
    → reported (drop_old_packets m now).0 ++ ids (drop_old_packets m now).1.in_flight_packets
      ≡ ids m.in_flight_packets
unfolding drop_old_packets
reported-drop_old m now =
    let ps = m.in_flight_packets in
    let timeout = m.packet_timeout in
    rw (
      drop_loop_lem timeout now [] ps,
      reported-dropped (expired timeout now ps),
      ← map-append (λ (p : InFlightPacket). p.id) (expired timeout now ps) (waiting timeout now ps),
      expired-append-waiting timeout now ps,
    )
