-- ===== src/PacketDelivery/Outgoing.antt =====
-- `write`: the header of an outgoing packet, and what its acks tell the peer.
use neptun.Common.{
  ℕ, suc, ◌+◌, ◌-◌, ◌%◌, ◌^◌, ◌≤◌, ◌<◌, ◌≡◌, refl, ap, ◌∙◌, inl, inr, some, List, [], ◌∷◌, ◌++◌,
  map, arith, ltb, leb, ◌==◌, ltb→lt, ltb_false→le, Bool-cases, Bool, true, false, ◌||◌,
  if◌then◌else◌, bit_or, ok, length, drop as skip,
}
use neptun.Common.Bits.{bit, bit-bit_or, bit-two-pow_self, bit-two-pow_ne, bit_or-lt}
use neptun.Io.{Span}
use neptun.Messages.PacketHeader
use neptun.Messages.PacketHeader.{encoding}
use neptun.PacketDelivery.{
  ack, drop, DeliveryStatuses, InFlightPacket, PacketDeliveryManager, most_significant_bit,
  process_acks, bitmask_loop, write_header, write,
}
use neptun.PacketDelivery.Msb.{most_significant_bit_lem}
use neptun.PacketDelivery.Acks.{covered, uncovered, verdict, judge, process_acks_lem}
use native.Mathlib.Decide.{ℕ_discrete}
use native.Mathlib.Nat.{pow-le-pow_right, zero-div}

-- Strictly increasing numbers, all at least `lo` and below `hi`.
abbrev pub Between : ℕ → ℕ → List ℕ → Type 0
Between lo hi [] = lo ≤ hi
Between lo hi (x ∷ xs) = (lo ≤ x) × Between (suc x) hi xs

abbrev pub member : ℕ → List ℕ → Bool
member i [] = false
member i (x ∷ xs) = i == x || member i xs

-- The acks from the front that one header can carry, and the others.
abbrev pub carried : ℕ → List ℕ → List ℕ
carried seq [] = []
carried seq (x ∷ xs) = if leb 32 (x - seq) then [] else x ∷ carried seq xs

abbrev pub delayed : ℕ → List ℕ → List ℕ
delayed seq [] = []
delayed seq (x ∷ xs) = if leb 32 (x - seq) then x ∷ xs else delayed seq xs

abbrev pub last_of : ℕ → List ℕ → ℕ
last_of d [] = d
last_of d (x ∷ xs) = last_of x xs

abbrev mask_of : ℕ → ℕ → List ℕ → ℕ
mask_of seq mask [] = mask
mask_of seq mask (x ∷ xs) = mask_of seq (bit_or mask (2 ^ (x - seq))) xs

pub carried-append-delayed : (seq : ℕ) (xs : List ℕ) → carried seq xs ++ delayed seq xs ≡ xs
carried-append-delayed seq [] = refl
carried-append-delayed seq (x ∷ xs) = ground (arith, carried-append-delayed seq xs)

bitmask_loop_lem :
    (seq mask lo hi : ℕ) (xs : List ℕ)
    → seq ≤ lo
    → Between lo hi xs
    → bitmask_loop seq mask xs ≡ ok (mask_of seq mask (carried seq xs), delayed seq xs)
unfolding bitmask_loop
bitmask_loop_lem seq mask lo hi [] h b = refl
bitmask_loop_lem seq mask lo hi (x ∷ xs) h b =
    ground
      (arith, bitmask_loop_lem seq (bit_or mask (2 ^ (x - seq))) (suc x) hi xs (omega arith) b.1)

Between-le : (lo hi : ℕ) (xs : List ℕ) → Between lo hi xs → lo ≤ hi
Between-le lo hi [] b = b
Between-le lo hi (x ∷ xs) b = omega (arith, Between-le (suc x) hi xs b.1)

carried-below : (seq lo hi : ℕ) (xs : List ℕ) → Between lo hi xs → Between lo hi (carried seq xs)
carried-below seq lo hi [] b = b
carried-below seq lo hi (x ∷ xs) b = elim (Bool-cases (leb 32 (x - seq))) [
  | inl far ↦ rw far (omega (arith, Between-le lo hi (x ∷ xs) b))
  | inr near ↦ rw near (b.0, carried-below seq (suc x) hi xs b.1)
]

carried-Between :
    (seq lo hi : ℕ) (xs : List ℕ)
    → lo ≤ seq + 32
    → Between lo hi xs
    → Between lo (seq + 32) (carried seq xs)
carried-Between seq lo hi [] h b = h
carried-Between seq lo hi (x ∷ xs) h b = elim (Bool-cases (leb 32 (x - seq))) [
  | inl far ↦ rw far h
  | inr near ↦ rw near (b.0, carried-Between seq (suc x) hi xs (ground arith) b.1)
]

-- A bit of the mask is set exactly for the acks that it was built from.
bit-mask_of :
    (seq mask lo hi k : ℕ) (xs : List ℕ)
    → seq ≤ lo
    → Between lo hi xs
    → bit (mask_of seq mask xs) k ≡ (if member (seq + k) xs then 1 else bit mask k)
bit-mask_of seq mask lo hi k [] h b = refl
bit-mask_of seq mask lo hi k (x ∷ xs) h b =
    let ih = bit-mask_of seq (bit_or mask (2 ^ (x - seq))) (suc x) hi k xs (omega arith) b.1 in
    let or = bit-bit_or k mask (2 ^ (x - seq)) in
    elim (ℕ_discrete (x - seq) k) [
      | yes e ↦
          let one : bit (2 ^ (x - seq)) k ≡ 1 = rw e (bit-two-pow_self k) in
          let small : bit mask k < 2 = omega arith in ground (arith, ih, or, one, small)
      | no ne ↦ ground (arith, ih, or, bit-two-pow_ne (x - seq) k ne)
    ]

mask_of-lt :
    (seq mask lo : ℕ) (xs : List ℕ)
    → Between lo (seq + 32) xs
    → mask < 2 ^ 32
    → mask_of seq mask xs < 2 ^ 32
mask_of-lt seq mask lo [] b h = h
mask_of-lt seq mask lo (x ∷ xs) b h =
    let r = Between-le (suc x) (seq + 32) xs b.1 in
    let near : x - seq ≤ 31 = omega arith in
    mask_of-lt seq (bit_or mask (2 ^ (x - seq))) (suc x) xs b.1 (
      bit_or-lt 32 mask (2 ^ (x - seq)) h
        (omega (arith, pow-le-pow_right {n = 2} (omega arith) {i = x - seq} {j = 31} near)))

-- The last number is a member, and those above it are not.
member-last :
    (lo hi x : ℕ) (xs : List ℕ) → Between lo hi (x ∷ xs) → member (last_of x xs) (x ∷ xs) ≡ true
member-last lo hi x [] b = ground arith
member-last lo hi x (y ∷ ys) b = ground (arith, member-last (suc x) hi y ys b.1)

last_of_bounds :
    (lo hi x : ℕ) (xs : List ℕ) → Between lo hi (x ∷ xs) → (x ≤ last_of x xs) × (last_of x xs < hi)
last_of_bounds lo hi x [] b = omega arith
last_of_bounds lo hi x (y ∷ ys) b = let r = last_of_bounds (suc x) hi y ys b.1 in omega arith

member_above :
    (i x : ℕ) (xs : List ℕ) (lo hi : ℕ)
    → Between lo hi (x ∷ xs)
    → last_of x xs < i
    → member i (x ∷ xs) ≡ false
member_above i x [] lo hi b h = ground arith
member_above i x (y ∷ ys) lo hi b h =
    let r = last_of_bounds (suc x) hi y ys b.1 in
    let far : x < i = omega arith in ground (arith, member_above i y ys (suc x) hi b.1 h)

member_below : (i lo hi : ℕ) (xs : List ℕ) → i < lo → Between lo hi xs → member i xs ≡ false
member_below i lo hi [] h b = refl
member_below i lo hi (x ∷ xs) h b = ground (arith, member_below i (suc x) hi xs)

-- The statuses that the peer's header gives, by the acks that it carries.
abbrev received : List ℕ → List InFlightPacket → DeliveryStatuses
received acks = map (λ p. (p.id, if member p.id acks then ack else drop))

-- For acks in increasing order, `write_header` returns and writes a header whose bits are the acks.
write_header_lem :
    (buffer : Span) (packet_id seq hi : ℕ) (acks : List ℕ)
    → 12 ≤ length buffer
    → Between seq hi (seq ∷ acks)
    → write_header buffer packet_id (seq ∷ acks)
      ≡ ok (
        encoding packet_id seq (mask_of seq 0 (seq ∷ carried seq acks)) ++ skip 12 buffer,
        12,
        delayed seq acks,
      )
unfolding write_header
write_header_lem buffer packet_id seq hi acks h b =
    let near : leb 32 (seq - seq) ≡ false = ground arith in
    rw (
      bitmask_loop_lem seq 0 seq hi (seq ∷ acks) (omega arith) b,
      near,
      PacketHeader.write_lem buffer packet_id seq (mask_of seq 0 (seq ∷ carried seq acks)) h,
    )

-- `x ∷ xs` are the acks carried; the sequence number is the first of them.
module _ (seq : ℕ) (xs : List ℕ) (b : Between seq (seq + 32) (seq ∷ xs)) where
  abbrev mask : ℕ
  mask = mask_of seq 0 (seq ∷ xs)

  abbrev newest : ℕ
  newest = last_of seq xs

  bit-mask : (k : ℕ) → bit mask k ≡ (if member (seq + k) (seq ∷ xs) then 1 else 0)
  bit-mask k =
      bit-mask_of seq 0 seq (seq + 32) k (seq ∷ xs) (omega arith) b
      ∙ ap (λ (t : ℕ). if member (seq + k) (seq ∷ xs) then 1 else t % 2) (zero-div (2 ^ k))

  msb-mask : most_significant_bit mask ≡ some (newest - seq)
  msb-mask =
      let r = last_of_bounds seq (seq + 32) seq xs b in
      let e : seq + (newest - seq) ≡ newest = omega arith in
      most_significant_bit_lem mask (newest - seq) (omega arith)
        (bit-mask (newest - seq)
          ∙ ap (λ (t : Bool). if t then 1 else 0)
              (ap (λ (i : ℕ). member i (seq ∷ xs)) e ∙ member-last seq (seq + 32) seq xs b))
        (λ j lo hi. rw (bit-mask j, member_above (seq + j) seq xs seq (seq + 32) b (omega arith)))

  verdict-member : (id : ℕ) → verdict seq mask id ≡ (if member id (seq ∷ xs) then ack else drop)
  verdict-member id = elim (Bool-cases (ltb id seq)) [
    | inl old ↦
        let h : id < seq = ltb→lt id seq old in
        rw (old, member_below id seq (seq + 32) (seq ∷ xs) h b)
    | inr new ↦
        let e : seq + (id - seq) ≡ id = omega (arith, ltb_false→le id seq new) in
        let m = bit-mask (id - seq) in ground (arith, new, rw e at m)
  ]

  judge-received : (ps : List InFlightPacket) → judge seq mask ps ≡ received (seq ∷ xs) ps
  judge-received [] = refl
  judge-received (p ∷ ps) = rw (verdict-member p.id, judge-received ps)

  process_acks-mask :
      (ps : List InFlightPacket)
      → newest < 2 ^ 32
      → process_acks seq mask ps ≡ ok (received (seq ∷ xs) (covered newest ps), uncovered newest ps)
  process_acks-mask ps h =
      let r = last_of_bounds seq (seq + 32) seq xs b in
      let e : (seq + (newest - seq)) % 2 ^ 32 ≡ newest = omega arith in
      process_acks_lem seq mask ps ∙ rw (msb-mask) (rw (e, judge-received (covered newest ps)))

-- The header that a manager writes for its pending acks `seq ∷ acks`, in increasing order and below
-- 2 ^ 32, and what the peer that gets it makes of it. `write` returns, it appends the packet to those
-- in flight, and the acks that do not fit stay pending. When the peer processes the header it
-- settles exactly its in-flight packets up to the newest ack carried: as acked those whose id is
-- among the acks carried, as dropped the others.
pub write-process_acks :
    (m : PacketDeliveryManager) (buffer : Span) (now seq hi : ℕ) (acks : List ℕ)
    (ps : List InFlightPacket)
    → 12 ≤ length buffer
    → m.pending_acks ≡ seq ∷ acks
    → Between seq hi (seq ∷ acks)
    → hi ≤ 2 ^ 32
    → let sent = carried seq acks in
      (mask : ℕ) × (write m buffer now
        ≡ ok (
          encoding m.next_outgoing_packet_id seq mask ++ skip 12 buffer,
          12,
          record m {
            next_outgoing_packet_id = (m.next_outgoing_packet_id + 1) % 2 ^ 32;
            pending_acks = delayed seq acks;
            in_flight_packets =
                m.in_flight_packets
                ++ (record { id = m.next_outgoing_packet_id; time_dispatched = now } ∷ []);
          },
        ))
      × (mask < 2 ^ 32)
      × (process_acks seq mask ps
          ≡ ok (
            map
                (λ p. (p.id, if member p.id (seq ∷ sent) then ack else drop))
                (covered (last_of seq sent) ps),
            uncovered (last_of seq sent) ps,
          ))
unfolding write
write-process_acks m buffer now seq hi acks ps h e b top =
    let sent = carried seq acks in
    let fits : Between seq (seq + 32) (seq ∷ sent) =
      (b.0, carried-Between seq (suc seq) hi acks (omega arith) b.1) in
    let newest = last_of_bounds seq hi seq sent (b.0, carried-below seq (suc seq) hi acks b.1) in
    (
      mask_of seq 0 (seq ∷ sent),
      rw (e, write_header_lem buffer m.next_outgoing_packet_id seq hi acks h b),
      mask_of-lt seq 0 seq (seq ∷ sent) fits (omega arith),
      process_acks-mask seq sent fits ps (omega arith),
    )
