-- ===== src/ReliableStream.antt =====
-- neptun/reliable_stream.h: messages that are kept in a FlipBuffer until the peer has them.
pub mod Invariant
pub mod Statuses
pub mod Shifting
pub mod Flipping
pub mod Sending
pub mod Writing
pub mod Fitting
pub mod Packing
pub mod Packets
pub mod Reading
pub mod Ordering
pub mod Tests
use neptun.Common.{
  ℕ, zero, suc, ◌+◌, ◌-◌, ◌%◌, ◌^◌, List, [], ◌∷◌, ◌++◌, Bool, true, ltb, leb, ◌==◌, not,
  if◌then◌else◌, length, Outcome, ok, fault, check, Expected, value, unexpected, ◌>>=◌, ◌>>◌,
}
use neptun.Errors.{NeptunError, malformed_packet}
use neptun.Io.{Span, subspan, write_bytes, write_after}
use neptun.Io
use neptun.FlipBuffer.{FlipBuffer, remaining, flip, consume}
use neptun.FlipBuffer
use neptun.Messages.Segment
use neptun.Messages.ReliableMessage
use neptun.PacketDelivery.{PacketDeliveryStatus, ack, drop}

pub record BufferRange : Type 0 where
  pub begin : ℕ
  pub end : ℕ

-- `operator-=`.
unfoldable pub minus : BufferRange → ℕ → Outcome BufferRange
minus r amount = do
  check (leb amount r.begin)
  check (leb amount r.end)
  ok (record { begin = r.begin - amount; end = r.end - amount })

unfoldable pub range_size : BufferRange → Outcome ℕ
range_size r = do check (leb r.begin r.end); ok (r.end - r.begin)

pub record PendingMessage : Type 0 where
  pub range : BufferRange
  pub sequence_number : ℕ

pub record InFlightMessage : Type 0 where
  pub packet_id : ℕ
  pub message : PendingMessage

-- The queues are lists, the front first.
pub record ReliableStream : Type 0 where
  pub buffer : FlipBuffer
  pub in_flight_messages : List InFlightMessage
  pub pending_messages : List PendingMessage
  pub next_outgoing_sequence_number : ℕ
  pub next_expected_sequence_number : ℕ

unfoldable pub init : ℕ → ReliableStream
unfolding FlipBuffer.init
init buffer_capacity = record {
  buffer = FlipBuffer.init buffer_capacity;
  in_flight_messages = [];
  pending_messages = [];
  next_outgoing_sequence_number = 0;
  next_expected_sequence_number = 0;
}

-- The loop of an ACK: the messages at the front that the packet carried are done with.
unfoldable pub ack_loop :
    ℕ → FlipBuffer → List InFlightMessage → Outcome (FlipBuffer × List InFlightMessage)
unfolding range_size consume
ack_loop packet_id buffer [] = ok (buffer, [])
ack_loop packet_id buffer (m ∷ ms) =
    if not (m.packet_id == packet_id)
    then ok (buffer, m ∷ ms)
    else do size ← range_size m.message.range; ack_loop packet_id (consume buffer size) ms

-- `in_flight_messages.empty() || compare(front().packet_id)`.
abbrev pub front_is : (ℕ → Bool) → List InFlightMessage → Bool
front_is test [] = true
front_is test (m ∷ ms) = test m.packet_id

-- The two loops of a DROP, over a stack whose top is the head.
unfoldable pub stack_loop : List PendingMessage → List InFlightMessage → List PendingMessage
stack_loop stack [] = stack
stack_loop stack (m ∷ ms) = stack_loop (m.message ∷ stack) ms

unfoldable pub unstack_loop : List PendingMessage → List PendingMessage → List PendingMessage
unstack_loop pending [] = pending
unstack_loop pending (m ∷ stack) = unstack_loop (m ∷ pending) stack

unfoldable pub on_packet_delivery_status :
    ReliableStream → ℕ → PacketDeliveryStatus → Outcome ReliableStream
unfolding ack_loop stack_loop unstack_loop
on_packet_delivery_status s packet_id ack = do
  (buffer, left) ← ack_loop packet_id s.buffer s.in_flight_messages
  check (front_is (ltb packet_id) left)
  ok (record s { buffer = buffer; in_flight_messages = left })
on_packet_delivery_status s packet_id drop = do
  check (front_is (leb packet_id) s.in_flight_messages)
  ok (record s {
    in_flight_messages = [];
    pending_messages = unstack_loop s.pending_messages (stack_loop [] s.in_flight_messages);
  })

-- The end of a round of `read`'s loop: the next sequence number expected, and what the callback has
-- been given.
unfoldable pub accept : Span → ℕ → ℕ → List Span → Outcome (ℕ × List Span)
accept message number seq out = if not (number == seq) then ok (seq, out) else do
  payload ← ReliableMessage.payload message
  ok ((seq + 1) % 2 ^ 32, out ++ (payload ∷ []))

-- The loop of `read` with `n` messages left.
unfoldable pub read_loop :
    ℕ → Span → ℕ → ℕ → List Span → Outcome (Expected NeptunError ℕ × ℕ × List Span)
unfolding accept
read_loop zero buffer idx seq out = ok (value idx, seq, out)
read_loop (suc n) buffer idx seq out = do
  message ← Io.advance buffer idx
  size ← ReliableMessage.validate_size message
  elim size [
    | unexpected _ ↦ ok (unexpected malformed_packet, seq, out)
    | value msg_size ↦ do
      number ← ReliableMessage.sequence_number message
      (seq', out') ← accept message number seq out
      read_loop n buffer (idx + msg_size) seq' out'
  ]

-- The result, the payloads given to the callback in order, and the stream.
unfoldable pub read :
    ReliableStream → Span → Outcome (Expected NeptunError ℕ × List Span × ReliableStream)
unfolding read_loop
read s buffer = if ltb (length buffer) Segment.serialized_size then ok (value 0, [], s) else do
  manager_type ← Segment.manager_type buffer
  if not (manager_type == Segment.reliable_stream) then ok (value 0, [], s) else do
    message_count ← Segment.message_count buffer
    (result, seq, out) ←
        read_loop message_count buffer Segment.serialized_size s.next_expected_sequence_number []
    ok (result, out, record s { next_expected_sequence_number = seq })

-- `buffer_span(range)`.
unfoldable pub buffer_span : FlipBuffer → BufferRange → Outcome Span
buffer_span f r = check (leb r.begin r.end) >> subspan f.bytes r.begin (r.end - r.begin)

-- The first loop of `write`: how many messages fit, and the size with them.
unfoldable pub count_loop : FlipBuffer → ℕ → ℕ → ℕ → List PendingMessage → Outcome (ℕ × ℕ)
unfolding buffer_span
count_loop f limit total_size message_count [] = ok (total_size, message_count)
count_loop f limit total_size message_count (m ∷ ms) = do
  payload ← buffer_span f m.range
  let msg_size = ReliableMessage.serialized_size (length payload)
  let rest = count_loop f limit (total_size + msg_size) (message_count + 1) ms
  if ltb limit (total_size + msg_size) then ok (total_size, message_count) else rest

-- The second loop, with `n` messages left to write at `idx`.
unfoldable pub write_loop :
    ℕ
    → FlipBuffer
    → ℕ
    → ℕ
    → List PendingMessage
    → List InFlightMessage
    → Span
    → Outcome (ℕ × List PendingMessage × List InFlightMessage × Span)
write_loop zero f packet_id idx pending in_flight buffer = ok (idx, pending, in_flight, buffer)
write_loop (suc n) f packet_id idx [] in_flight buffer = fault
write_loop (suc n) f packet_id idx (m ∷ ms) in_flight buffer = do
  payload ← buffer_span f m.range
  (buffer', written) ←
      write_after idx
        (λ b. ReliableMessage.write b m.sequence_number (length payload % 2 ^ 16) payload) buffer
  check (leb (length written) (length buffer - idx))
  write_loop n f packet_id (idx + length written) ms
      (in_flight ++ (record { packet_id = packet_id; message = m } ∷ [])) buffer'

-- The buffer after it, the number of bytes and the stream. The count of messages is cut to a byte.
unfoldable pub write : ReliableStream → ℕ → Span → Outcome (Span × ℕ × ReliableStream)
unfolding count_loop write_loop
write s packet_id buffer = do
  (total_size, message_count) ←
      count_loop s.buffer (length buffer) Segment.serialized_size 0 s.pending_messages
  if message_count == 0 then ok (buffer, 0, s) else do
    (buffer', segment) ← Segment.write buffer Segment.reliable_stream (message_count % 2 ^ 8)
    (idx, pending, in_flight, buffer'') ←
        write_loop message_count s.buffer packet_id (length segment) s.pending_messages
          s.in_flight_messages buffer'
    check (idx == total_size)
    ok (
      buffer'',
      total_size,
      record s { pending_messages = pending; in_flight_messages = in_flight },
    )

-- `maybe_flip` moves every range; the queue of messages in flight is rotated once around.
unfoldable pub shift : PendingMessage → ℕ → Outcome PendingMessage
unfolding minus
shift m amount = do range ← minus m.range amount; ok (record m { range = range })

unfoldable pub rotate_loop : ℕ → ℕ → List InFlightMessage → Outcome (List InFlightMessage)
unfolding shift
rotate_loop zero amount queue = ok queue
rotate_loop (suc n) amount [] = fault
rotate_loop (suc n) amount (m ∷ ms) = do
  message ← shift m.message amount
  rotate_loop n amount (ms ++ (record m { message = message } ∷ []))

unfoldable pub shift_all : ℕ → List PendingMessage → Outcome (List PendingMessage)
unfolding shift
shift_all amount [] = ok []
shift_all amount (m ∷ ms) = do m' ← shift m amount; ms' ← shift_all amount ms; ok (m' ∷ ms')

unfoldable pub maybe_flip : ReliableStream → Outcome ReliableStream
unfolding rotate_loop shift_all
maybe_flip s =
    let amount = s.buffer.begin_index in
    if not (ltb 0 amount) then ok s else do
      in_flight ← rotate_loop (length s.in_flight_messages) amount s.in_flight_messages
      pending ← shift_all amount s.pending_messages
      buffer ← flip s.buffer
      ok (record s { buffer = buffer; in_flight_messages = in_flight; pending_messages = pending })

-- The callback gets the free span, writes at its start and returns what it has written.
unfoldable pub send : ReliableStream → (Span → Span) → Outcome ReliableStream
unfolding maybe_flip
send s write_to_buffer = do
  s₁ ← maybe_flip s
  free ← remaining s₁.buffer
  let payload = write_to_buffer free
  bytes ← write_bytes payload s₁.buffer.end_index s₁.buffer.bytes
  let written : FlipBuffer = record (s₁.buffer) { bytes = bytes }
  if length payload == 0 then ok (record s₁ { buffer = written }) else do
    let number = s₁.next_outgoing_sequence_number
    let end : ℕ = s₁.buffer.end_index
    let range : BufferRange = record { begin = end; end = end + length payload }
    let message : PendingMessage = record { range = range; sequence_number = number }
    buffer ← FlipBuffer.advance written (length payload)
    ok (record s₁ {
      buffer = buffer;
      pending_messages = s₁.pending_messages ++ (message ∷ []);
      next_outgoing_sequence_number = (number + 1) % 2 ^ 32;
    })
