-- ===== src/PacketDelivery/Acks.antt =====
-- `process_acks`: which in-flight packets get a status, and which one.
use neptun.Common.{
  ℕ, ◌+◌, ◌-◌, ◌%◌, ◌^◌, ◌≤◌, ◌≡◌, refl, ap, inl, inr, Option, none, some, List, [], ◌∷◌, ◌++◌, map,
  append-nil, append_assoc, arith, ltb, ◌==◌, ltb_false→le, Bool-cases, if◌then◌else◌, ok,
  map-append,
}
use neptun.Common.Bits.{bit, test_set, test_unset, bit_cases}
use neptun.PacketDelivery.{
  PacketDeliveryStatus, ack, drop, DeliveryStatuses, InFlightPacket, most_significant_bit,
  status_of, acks_loop, acks_from, process_acks, add,
}
use neptun.PacketDelivery.Msb.{IsBit, most_significant_bit-IsBit}

abbrev pub ids : List InFlightPacket → List ℕ
ids = map (λ p. p.id)

abbrev pub reported : DeliveryStatuses → List ℕ
reported = map (λ s. s.0)

-- The packets from the front up to the first id above the bound, and the others.
abbrev pub covered : ℕ → List InFlightPacket → List InFlightPacket
covered highest [] = []
covered highest (p ∷ ps) = if ltb highest p.id then [] else p ∷ covered highest ps

abbrev pub uncovered : ℕ → List InFlightPacket → List InFlightPacket
uncovered highest [] = []
uncovered highest (p ∷ ps) = if ltb highest p.id then p ∷ ps else uncovered highest ps

-- The status that the header's acks give to an id.
abbrev pub verdict : ℕ → ℕ → ℕ → PacketDeliveryStatus
verdict seq mask id = if ltb id seq then drop else if bit mask (id - seq) == 1 then ack else drop

abbrev pub judge : ℕ → ℕ → List InFlightPacket → DeliveryStatuses
judge seq mask = map (λ p. (p.id, verdict seq mask p.id))

pub covered-append-uncovered :
    (h : ℕ) (ps : List InFlightPacket) → covered h ps ++ uncovered h ps ≡ ps
covered-append-uncovered h [] = refl
covered-append-uncovered h (p ∷ ps) = ground (arith, covered-append-uncovered h ps)

pub status_of_lem :
    (seq mask id : ℕ) → id ≤ seq + 31 → status_of seq mask id ≡ ok (verdict seq mask id)
unfolding status_of
status_of_lem seq mask id h = elim (bit_cases mask (id - seq)) [
  | inl unset ↦ ground (arith, test_unset mask (id - seq) unset)
  | inr set ↦ ground (arith, test_set mask (id - seq) set)
]

acks_loop_lem :
    (seq mask highest : ℕ) (statuses : DeliveryStatuses) (ps : List InFlightPacket)
    → highest ≤ seq + 31
    → acks_loop seq mask highest statuses ps
      ≡ ok (statuses ++ judge seq mask (covered highest ps), uncovered highest ps)
unfolding acks_loop
acks_loop_lem seq mask highest statuses [] h = rw (append-nil statuses)
acks_loop_lem seq mask highest statuses (p ∷ ps) h = elim (Bool-cases (ltb highest p.id)) [
  | inl above ↦ rw (above, append-nil statuses)
  | inr below ↦ rw (
    below,
    status_of_lem seq mask p.id (omega (arith, ltb_false→le highest p.id below)),
    acks_loop_lem seq mask highest (add statuses p.id (verdict seq mask p.id)) ps h,
    append_assoc statuses ((p.id, verdict seq mask p.id) ∷ [])
        (judge seq mask (covered highest ps)),
  )
]

-- What the acks settle, given the highest bit that is set.
abbrev pub settled : ℕ → ℕ → Option ℕ → List InFlightPacket → DeliveryStatuses × List InFlightPacket
settled seq mask none ps = ([], ps)
settled seq mask (some msb) ps =
    let highest = (seq + msb) % 2 ^ 32 in
    (judge seq mask (covered highest ps), uncovered highest ps)

acks_from_lem :
    (seq mask : ℕ) (msb : Option ℕ) (ps : List InFlightPacket)
    → IsBit msb
    → acks_from seq mask msb ps ≡ ok (settled seq mask msb ps)
unfolding acks_from
acks_from_lem seq mask none ps b = refl
acks_from_lem seq mask (some msb) ps b =
    acks_loop_lem seq mask ((seq + msb) % 2 ^ 32) [] ps (omega arith)

-- For every header and every queue `process_acks` passes its assertion and ends.
-- With no bit set it settles nothing; with highest bit `msb` it settles the in-flight packets from
-- the front while their id is at most the sequence number plus `msb`, wrapped to 32 bits:
-- an id from the sequence number on is acked exactly if its bit is set, any other is dropped.
pub process_acks_lem :
    (seq mask : ℕ) (ps : List InFlightPacket)
    → process_acks seq mask ps ≡ ok (settled seq mask (most_significant_bit mask) ps)
unfolding process_acks
process_acks_lem seq mask ps =
    acks_from_lem seq mask (most_significant_bit mask) ps (most_significant_bit-IsBit mask)

reported-judge : (seq mask : ℕ) (ps : List InFlightPacket) → reported (judge seq mask ps) ≡ ids ps
reported-judge seq mask [] = refl
reported-judge seq mask (p ∷ ps) = ap (◌∷◌ p.id) (reported-judge seq mask ps)

-- No packet is lost or settled twice: the ids reported, then those left, are those in flight.
pub reported-settled :
    (seq mask : ℕ) (msb : Option ℕ) (ps : List InFlightPacket)
    → let (statuses, left) = settled seq mask msb ps in reported statuses ++ ids left ≡ ids ps
reported-settled seq mask none ps = refl
reported-settled seq mask (some msb) ps =
    let h = (seq + msb) % 2 ^ 32 in
    rw (
      reported-judge seq mask (covered h ps),
      ← map-append (λ (p : InFlightPacket). p.id) (covered h ps) (uncovered h ps),
      covered-append-uncovered h ps,
    )
