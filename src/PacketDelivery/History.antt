-- ===== src/PacketDelivery/History.antt =====
-- A manager over time: each packet is reported at most once, and accepted at most once.
use neptun.Common.{
  ℕ, zero, suc, ◌+◌, ◌%◌, ◌^◌, ◌≤◌, ◌<◌, ◌≡◌, refl, sym, ap, ◌∙◌, ◌⊎◌, inl, inr, List, [], ◌∷◌,
  ◌++◌, append-nil, append_assoc, map-append, arith, ltb, if◌then◌else◌, ok, length, length-append,
  >>=-eq-ok,
}
use neptun.Io.{Span}
use neptun.Messages.PacketHeader
use neptun.PacketDelivery.{
  PacketDeliveryStatus, DeliveryStatuses, InFlightPacket, PacketDeliveryManager, init,
  most_significant_bit, process_acks, process_packet_header, process_read, drop_old_packets, write,
}
use neptun.PacketDelivery.Acks.{ids, reported, process_acks_lem, reported-settled}
use neptun.PacketDelivery.Timeouts.{reported-drop_old}

-- A packet is accepted, and its ack queued, exactly if its id is not below the next one expected.
-- From then on that id and all below it are refused.
pub process_packet_header_lem :
    (m : PacketDeliveryManager) (id later : ℕ)
    → id + 1 < 2 ^ 32
    → later ≤ id
    → let (count, m') = process_packet_header m id in
      (count ≡ (if ltb id m.next_expected_packet_id then 0 else 12))
      × (m'.pending_acks ≡ (
          if ltb id m.next_expected_packet_id then m.pending_acks else m.pending_acks ++ (id ∷ [])))
      × (m.next_expected_packet_id ≤ m'.next_expected_packet_id)
      × (process_packet_header m' later ≡ (0, m'))
unfolding process_packet_header
process_packet_header_lem m id later h k = ground arith

header_keeps :
    (m : PacketDeliveryManager) (id : ℕ)
    → let m' = (process_packet_header m id).1 in
      (m'.in_flight_packets ≡ m.in_flight_packets)
      × (m'.next_outgoing_packet_id ≡ m.next_outgoing_packet_id)
unfolding process_packet_header
header_keeps m id = ground arith

read_keeps :
    (m : PacketDeliveryManager) (buffer : Span) {count id : ℕ} {statuses : DeliveryStatuses}
    {m' : PacketDeliveryManager}
    → process_read m buffer ≡ ok (count, statuses, id, m')
    → (reported statuses ++ ids m'.in_flight_packets ≡ ids m.in_flight_packets)
      × (m'.next_outgoing_packet_id ≡ m.next_outgoing_packet_id)
unfolding process_read
read_keeps m buffer e =
    let ps = m.in_flight_packets in
    let (seq, _, e₁) = >>=-eq-ok (PacketHeader.ack_sequence_number buffer) _ e in
    let (mask, _, e₂) = >>=-eq-ok (PacketHeader.ack_bitmask buffer) _ e₁ in
    let (s, p, e₃) = >>=-eq-ok (process_acks seq mask ps) _ e₂ in
    let (id, _, e₄) = >>=-eq-ok (PacketHeader.id buffer) _ e₃ in
    ground (
      arith,
      p,
      process_acks_lem seq mask ps,
      reported-settled seq mask (most_significant_bit mask) ps,
      header_keeps (record m { in_flight_packets = s.1 }) id,
    )

write_keeps :
    (m : PacketDeliveryManager) (buffer : Span) (now : ℕ) {buffer' : Span} {count : ℕ}
    {m' : PacketDeliveryManager}
    → write m buffer now ≡ ok (buffer', count, m')
    → (ids m'.in_flight_packets ≡ ids m.in_flight_packets ++ (m.next_outgoing_packet_id ∷ []))
      × (m'.next_outgoing_packet_id ≡ (m.next_outgoing_packet_id + 1) % 2 ^ 32)
unfolding write
write_keeps m buffer now e =
    let dispatched : InFlightPacket = record {
      id = m.next_outgoing_packet_id;
      time_dispatched = now;
    } in
    ground (arith, map-append (λ (p : InFlightPacket). p.id) m.in_flight_packets (dispatched ∷ []))

-- One call of the manager's owner, with the ids that it sends and the statuses that it gets.
pub data Step (m : PacketDeliveryManager)
    : List ℕ → DeliveryStatuses → PacketDeliveryManager → Type 0 where
  writes :
      (buffer : Span) (now : ℕ) {buffer' : Span} {count : ℕ} {sent : List ℕ}
      {statuses : DeliveryStatuses} {m' : PacketDeliveryManager}
      → write m buffer now ≡ ok (buffer', count, m')
      → sent ≡ m.next_outgoing_packet_id ∷ []
      → statuses ≡ []
      → Step m sent statuses m'
  reads :
      (buffer : Span) {count id : ℕ} {sent : List ℕ} {statuses : DeliveryStatuses}
      {m' : PacketDeliveryManager}
      → process_read m buffer ≡ ok (count, statuses, id, m')
      → sent ≡ []
      → Step m sent statuses m'
  ticks :
      (now : ℕ) {sent : List ℕ} {statuses : DeliveryStatuses} {m' : PacketDeliveryManager}
      → drop_old_packets m now ≡ (statuses, m')
      → sent ≡ []
      → Step m sent statuses m'

-- A history of calls, with all ids sent and all statuses reported, in order.
pub data Reach (m : PacketDeliveryManager)
    : List ℕ → DeliveryStatuses → PacketDeliveryManager → Type 0 where
  here :
      {sent : List ℕ} {statuses : DeliveryStatuses}
      → sent ≡ []
      → statuses ≡ []
      → Reach m sent statuses m
  next :
      {sent more all : List ℕ} {statuses new every : DeliveryStatuses}
      {m' m'' : PacketDeliveryManager}
      → Reach m sent statuses m'
      → Step m' more new m''
      → all ≡ sent ++ more
      → every ≡ statuses ++ new
      → Reach m all every m''

Step-keeps :
    {m m' : PacketDeliveryManager} {sent : List ℕ} {statuses : DeliveryStatuses}
    → Step m sent statuses m'
    → reported statuses ++ ids m'.in_flight_packets ≡ ids m.in_flight_packets ++ sent
Step-keeps {m} (writes buffer now e s t) = rw (s, t) ((write_keeps m buffer now e).0)
Step-keeps {m} (reads buffer e s) =
    rw s ((read_keeps m buffer e).0 ∙ sym (append-nil (ids m.in_flight_packets)))
Step-keeps {m} (ticks now e s) =
    let kept = reported-drop_old m now in
    rw (s, append-nil (ids m.in_flight_packets)) (rw e at kept)

-- One step sends nothing, or the next packet.
abbrev Numbered : ℕ → ℕ → List ℕ → Type 0
Numbered n n' sent = ((sent ≡ []) × (n' ≡ n)) ⊎ ((sent ≡ n ∷ []) × (n' ≡ (n + 1) % 2 ^ 32))

Step-sends :
    {m m' : PacketDeliveryManager} {sent : List ℕ} {statuses : DeliveryStatuses}
    → Step m sent statuses m'
    → Numbered m.next_outgoing_packet_id m'.next_outgoing_packet_id sent
unfolding drop_old_packets
Step-sends {m} (writes buffer now e s t) = inr (s, (write_keeps m buffer now e).1)
Step-sends {m} (reads buffer e s) = inl (s, (read_keeps m buffer e).1)
Step-sends {m} (ticks now e s) = inl (s, ap (λ r. r.1.next_outgoing_packet_id) (sym e))

-- Whatever the calls and the packets received: the ids reported, then those in flight, are the ids
-- that were in flight at first, then those sent since. So each packet gets one status at most, the
-- statuses come in the order of sending, and a packet without one is still in flight.
pub Reach_keeps :
    {m m' : PacketDeliveryManager} {sent : List ℕ} {statuses : DeliveryStatuses}
    → Reach m sent statuses m'
    → reported statuses ++ ids m'.in_flight_packets ≡ ids m.in_flight_packets ++ sent
Reach_keeps {m} (here s t) = rw (s, t, append-nil (ids m.in_flight_packets))
Reach_keeps {m}
      (next {sent = sent} {more = more} {statuses = old} {new = new} {m' = m₁} {m'' = m₂} r st s
        t) =
    let ih = Reach_keeps r in
    let step = Step-keeps st in
    rw (
      s,
      t,
      map-append (λ (s : ℕ × PacketDeliveryStatus). s.0) old new,
      append_assoc (reported old) (reported new) (ids m₂.in_flight_packets),
      step,
      ← append_assoc (reported old) (ids m₁.in_flight_packets) more,
      ih,
      append_assoc (ids m.in_flight_packets) sent more,
    )

-- `n` consecutive numbers.
abbrev pub range : ℕ → ℕ → List ℕ
range lo zero = []
range lo (suc n) = lo ∷ range (suc lo) n

range-suc : (lo n k : ℕ) → k ≡ lo + n → range lo n ++ (k ∷ []) ≡ range lo (suc n)
range-suc lo zero k e = ap (λ (i : ℕ). i ∷ []) (omega arith)
range-suc lo (suc n) k e = ap (◌∷◌ lo) (range-suc (suc lo) n k (omega arith))

extend :
    (lo n n' : ℕ) (sent more : List ℕ)
    → sent ≡ range lo (length sent)
    → n ≡ lo + length sent
    → lo + length (sent ++ more) < 2 ^ 32
    → Numbered n n' more
    → (sent ++ more ≡ range lo (length (sent ++ more))) × (n' ≡ lo + length (sent ++ more))
extend lo n n' sent more e k h (inl (s, t)) = rw (s, append-nil sent) (e, omega arith)
extend lo n n' sent more e k h (inr (s, t)) =
    let size : length (sent ++ more) ≡ suc (length sent) =
      rw s (omega (arith, length-append sent (n ∷ []))) in
    rw size
      (rw s (ap (λ (xs : List ℕ). xs ++ (n ∷ [])) e ∙ range-suc lo (length sent) n k), omega arith)

Reach_sends :
    {m m' : PacketDeliveryManager} {sent : List ℕ} {statuses : DeliveryStatuses}
    → Reach m sent statuses m'
    → m.next_outgoing_packet_id + length sent < 2 ^ 32
    → (sent ≡ range m.next_outgoing_packet_id (length sent))
      × (m'.next_outgoing_packet_id ≡ m.next_outgoing_packet_id + length sent)
Reach_sends {m} (here s t) h = rw s (refl, omega arith)
Reach_sends {m} (next {sent = sent} {more = more} {m' = m₁} r st s t) h =
    let size : length sent ≤ length (sent ++ more) = omega (arith, length-append sent more) in
    let bound : m.next_outgoing_packet_id + length (sent ++ more) < 2 ^ 32 = rw (← s) h in
    let (e, k) = Reach_sends r (omega arith) in
    rw s (
      extend m.next_outgoing_packet_id m₁.next_outgoing_packet_id _ sent more e k bound
        (Step-sends st))

-- A fresh manager that has sent fewer than 2 ^ 32 packets has numbered them 0, 1, 2, … and has
-- reported the first of these numbers, in order and each once; the others are in flight.
pub Reach-init :
    (next_expected timeout : ℕ) {m : PacketDeliveryManager} {sent : List ℕ}
    {statuses : DeliveryStatuses}
    → Reach (init next_expected timeout) sent statuses m
    → length sent < 2 ^ 32
    → (reported statuses ++ ids m.in_flight_packets ≡ range 0 (length sent))
      × (m.next_outgoing_packet_id ≡ length sent)
unfolding init
Reach-init next_expected timeout r h =
    let (e, k) = Reach_sends r (omega arith) in (Reach_keeps r ∙ e, omega arith)
