-- ===== src/ReliableStream/Statuses.antt =====
-- `on_packet_delivery_status`: what a status does to the messages.
use neptun.Common.{
  ℕ, ◌+◌, ◌-◌, ◌%◌, ◌^◌, ◌<◌, ◌≡◌, refl, ap, ◌∙◌, List, [], ◌∷◌, ◌++◌, arith, All, ok, fault, ltb,
  leb, ◌==◌, ==_iff, true,
}
use neptun.FlipBuffer.{FlipBuffer}
use neptun.PacketDelivery.{ack, drop}
use neptun.ReliableStream.{
  PendingMessage, InFlightMessage, ReliableStream, range_size, ack_loop, front_is, stack_loop,
  unstack_loop, on_packet_delivery_status,
}
use neptun.ReliableStream.Invariant.{IsValid, Chain, messages, pending_of, InOrder}
use native.Mathlib.Decide.{ℕ_discrete}

-- What the loop of an ACK leaves, for the packet `packet_id`.
record Acked (packet_id : ℕ) (f : FlipBuffer) (hi stop : ℕ) (ms : List InFlightMessage)
    (pending : List PendingMessage) (begin n : ℕ) (gone left : List InFlightMessage) : Type 0 where
  run : ack_loop packet_id f ms ≡ ok (record f { begin_index = begin }, left)
  parts : gone ++ left ≡ ms
  theirs : All (λ m. m.packet_id ≡ packet_id) gone
  others : All (λ m. packet_id < m.packet_id) left
  passes : front_is (ltb packet_id) left ≡ true
  chain : Chain begin hi n stop (pending_of left ++ pending)

range_size_lem :
    (m : PendingMessage)
    → m.range.begin < m.range.end
    → range_size m.range ≡ ok (m.range.end - m.range.begin)
unfolding range_size
range_size_lem m h = ground arith

InOrder-above :
    (packet_id lo : ℕ) (ms : List InFlightMessage)
    → packet_id < lo
    → InOrder lo ms
    → All (λ m. packet_id < m.packet_id) ms
InOrder-above packet_id lo [] h o = tt
InOrder-above packet_id lo (m ∷ ms) h o =
    (omega arith, InOrder-above packet_id m.packet_id ms (omega arith) o.1)

abbrev consumed : FlipBuffer → InFlightMessage → FlipBuffer
consumed f m = record f { begin_index = m.message.range.end }

-- The first message is of the packet.
ack_loop_hit :
    (packet_id : ℕ) (f : FlipBuffer) (m : InFlightMessage) (ms : List InFlightMessage)
    → m.packet_id ≡ packet_id
    → m.message.range.begin ≡ f.begin_index
    → f.begin_index < m.message.range.end
    → ack_loop packet_id f (m ∷ ms) ≡ ack_loop packet_id (consumed f m) ms
unfolding ack_loop
ack_loop_hit packet_id f m ms e b h =
    let test : (m.packet_id == packet_id) ≡ true = (==_iff m.packet_id packet_id).1 e in
    let moved : f.begin_index + (m.message.range.end - m.message.range.begin)
        ≡ m.message.range.end =
      omega arith in
    rw (test, range_size_lem m.message (omega arith))
      (ap (λ (i : ℕ). ack_loop packet_id (record f { begin_index = i }) ms) moved)

ack_loop_lem :
    (packet_id : ℕ) (f : FlipBuffer) (hi n stop : ℕ) (ms : List InFlightMessage)
    (pending : List PendingMessage)
    → Chain f.begin_index hi n stop (pending_of ms ++ pending)
    → InOrder packet_id ms
    → (begin n' : ℕ) × (gone left : List InFlightMessage) × Acked packet_id f hi stop ms pending
        begin n' gone left
unfolding ack_loop
ack_loop_lem packet_id f hi n stop [] pending c o = (
  f.begin_index,
  n,
  [],
  [],
  record { run = refl; parts = refl; theirs = tt; others = tt; passes = refl; chain = c },
)
ack_loop_lem packet_id f hi n stop (m ∷ ms) pending c o = elim (ℕ_discrete m.packet_id packet_id) [
  | yes e ↦
      let (begin, n', gone, left, a) =
        ack_loop_lem packet_id (consumed f m) hi ((n + 1) % 2 ^ 32) stop ms pending c.3
          (rw e at o.1) in
      (
        begin,
        n',
        m ∷ gone,
        left,
        record {
          run = ack_loop_hit packet_id f m ms e c.0 (omega arith) ∙ a.run;
          parts = ap (◌∷◌ m) a.parts;
          theirs = (e, a.theirs);
          others = a.others;
          passes = a.passes;
          chain = a.chain;
        },
      )
  | no ne ↦
      let later : packet_id < m.packet_id = omega arith in
      (
        f.begin_index,
        n,
        [],
        m ∷ ms,
        record {
          run = ground arith;
          parts = refl;
          theirs = tt;
          others = (later, InOrder-above packet_id m.packet_id ms later o.1);
          passes = ground arith;
          chain = c;
        },
      )
]

stack_loop_lem :
    (stack : List PendingMessage) (ms : List InFlightMessage) (pending : List PendingMessage)
    → unstack_loop pending (stack_loop stack ms) ≡ unstack_loop (pending_of ms ++ pending) stack
unfolding stack_loop unstack_loop
stack_loop_lem stack [] pending = refl
stack_loop_lem stack (m ∷ ms) pending = stack_loop_lem (m.message ∷ stack) ms pending

front_passes :
    (packet_id : ℕ) (ms : List InFlightMessage)
    → InOrder packet_id ms
    → front_is (leb packet_id) ms ≡ true
front_passes packet_id [] o = refl
front_passes packet_id (m ∷ ms) o = ground arith

-- An ACK of a packet, at a valid stream whose messages in flight belong to that packet or to later
-- ones: it passes its assertion and returns. It removes exactly the messages that the packet
-- carried, which are the first ones, and keeps every other message, its bytes and the invariant.
pub ack_lem :
    (s : ReliableStream) (packet_id oldest : ℕ)
    → IsValid s oldest
    → InOrder packet_id s.in_flight_messages
    → (s' : ReliableStream) × (oldest' : ℕ) × (gone : List InFlightMessage)
      × (on_packet_delivery_status s packet_id ack ≡ ok s')
      × IsValid s' oldest'
      × (gone ++ s'.in_flight_messages ≡ s.in_flight_messages)
      × All (λ m. m.packet_id ≡ packet_id) gone
      × All (λ m. packet_id < m.packet_id) s'.in_flight_messages
      × (s'.pending_messages ≡ s.pending_messages)
      × (s'.buffer.bytes ≡ s.buffer.bytes)
      × (s'.next_outgoing_sequence_number ≡ s.next_outgoing_sequence_number)
      × (s'.next_expected_sequence_number ≡ s.next_expected_sequence_number)
unfolding on_packet_delivery_status
ack_lem s packet_id oldest v o =
    let (begin, n, gone, left, a) =
      ack_loop_lem packet_id s.buffer s.buffer.end_index oldest s.next_outgoing_sequence_number
        s.in_flight_messages s.pending_messages v.chain o in
    (
      record s { buffer = record (s.buffer) { begin_index = begin }; in_flight_messages = left },
      n,
      gone,
      rw (a.run, a.passes),
      record { chain = a.chain; end_le = v.end_le },
      a.parts,
      a.theirs,
      a.others,
      refl,
      refl,
      refl,
      refl,
    )

-- A DROP of a packet, where the first message in flight is of that packet or a later one: it passes
-- its assertion, and puts every message in flight, of whatever packet, back before the pending
-- ones. No message is lost, and their order stays.
pub drop_lem :
    (s : ReliableStream) (packet_id : ℕ)
    → InOrder packet_id s.in_flight_messages
    → on_packet_delivery_status s packet_id drop
      ≡ ok (record s { in_flight_messages = []; pending_messages = messages s })
unfolding on_packet_delivery_status
drop_lem s packet_id o = rw (
  front_passes packet_id s.in_flight_messages o,
  stack_loop_lem [] s.in_flight_messages s.pending_messages,
  unstack_loop,
)

-- Where the first message in flight is of an earlier packet, either status stops the program.
pub status_of_later_packet :
    (s : ReliableStream) (packet_id : ℕ) (m : InFlightMessage) (ms : List InFlightMessage)
    → s.in_flight_messages ≡ m ∷ ms
    → m.packet_id < packet_id
    → (on_packet_delivery_status s packet_id ack ≡ fault)
      × (on_packet_delivery_status s packet_id drop ≡ fault)
unfolding on_packet_delivery_status ack_loop
status_of_later_packet s packet_id m ms e h = (rw e (ground arith), rw e (ground arith))
