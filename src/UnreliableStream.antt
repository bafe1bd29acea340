-- ===== src/UnreliableStream.antt =====
-- neptun/unreliable_stream.h: messages that go into one packet or are dropped.
-- A pending message is a span into the buffer's vector: it is the range of its bytes there.
pub mod Reading
pub mod Writing
pub mod Packets
pub mod Segments
pub mod Sending
pub mod Tests
use neptun.Common.{
  ℕ, zero, suc, ◌+◌, ◌-◌, ◌%◌, ◌^◌, List, [], ◌∷◌, ◌++◌, ltb, leb, ◌==◌, not, if◌then◌else◌, length,
  Outcome, ok, fault, check, Expected, value, unexpected, ◌>>=◌, ◌>>◌,
}
use neptun.Errors.{NeptunError, malformed_packet}
use neptun.Io.{Span, write_bytes, write_after}
use neptun.Io
use neptun.FlipBuffer.{FlipBuffer, remaining, flip, consume}
use neptun.FlipBuffer
use neptun.Messages.Segment
use neptun.Messages.UnreliableMessage
use neptun.ReliableStream.{BufferRange, buffer_span}

pub record UnreliableStream : Type 0 where
  pub buffer : FlipBuffer
  pub pending_messages : List BufferRange

unfoldable pub init : ℕ → UnreliableStream
unfolding FlipBuffer.init
init buffer_capacity = record { buffer = FlipBuffer.init buffer_capacity; pending_messages = [] }

-- The loop of `read` with `n` messages left.
unfoldable pub read_loop : ℕ → Span → ℕ → List Span → Outcome (Expected NeptunError ℕ × List Span)
read_loop zero buffer idx out = ok (value idx, out)
read_loop (suc n) buffer idx out = do
  message ← Io.advance buffer idx
  size ← UnreliableMessage.validate_size message
  elim size [
    | unexpected _ ↦ ok (unexpected malformed_packet, out)
    | value msg_size ↦ do
      payload ← UnreliableMessage.payload message
      read_loop n buffer (idx + msg_size) (out ++ (payload ∷ []))
  ]

-- The result, and the payloads given to the callback in order. The stream does not change.
unfoldable pub read : Span → Outcome (Expected NeptunError ℕ × List Span)
unfolding read_loop
read buffer = if ltb (length buffer) Segment.serialized_size then ok (value 0, []) else do
  manager_type ← Segment.manager_type buffer
  if not (manager_type == Segment.unreliable_stream) then ok (value 0, []) else do
    message_count ← Segment.message_count buffer
    read_loop message_count buffer Segment.serialized_size []

-- The first loop of `write`: how many messages fit, and the size with them.
unfoldable pub count_loop : ℕ → ℕ → ℕ → List BufferRange → ℕ × ℕ
count_loop limit total_size message_count [] = (total_size, message_count)
count_loop limit total_size message_count (r ∷ rs) =
    let msg_size = UnreliableMessage.serialized_size (r.end - r.begin) in
    let rest = count_loop limit (total_size + msg_size) (message_count + 1) rs in
    if ltb limit (total_size + msg_size) then (total_size, message_count) else rest

-- The second loop, with `n` messages left to write at `idx`.
unfoldable pub write_loop :
    ℕ → FlipBuffer → ℕ → List BufferRange → Span → Outcome (ℕ × FlipBuffer × Span)
write_loop zero f idx pending buffer = ok (idx, f, buffer)
write_loop (suc n) f idx [] buffer = fault
write_loop (suc n) f idx (r ∷ rs) buffer = do
  payload ← buffer_span f r
  let f' = consume f (length payload)
  (buffer', written) ←
      write_after idx (λ b. UnreliableMessage.write b (length payload % 2 ^ 16) payload) buffer
  check (leb (length written) (length buffer - idx))
  write_loop n f' (idx + length written) rs buffer'

-- The buffer after it, the number of bytes and the stream. The count of messages is cut to a byte.
unfoldable pub write : UnreliableStream → Span → Outcome (Span × ℕ × UnreliableStream)
unfolding count_loop write_loop
write s buffer = do
  let (total_size, message_count) =
      count_loop (length buffer) Segment.serialized_size 0 s.pending_messages
  if message_count == 0 then ok (buffer, 0, s) else do
    (buffer', segment) ← Segment.write buffer Segment.unreliable_stream (message_count % 2 ^ 8)
    (idx, f, buffer'') ←
        write_loop message_count s.buffer (length segment) s.pending_messages buffer'
    check (idx == total_size)
    flipped ← flip f
    ok (buffer'', total_size, record { buffer = flipped; pending_messages = [] })

-- The callback gets the free span, writes at its start and returns what it has written.
unfoldable pub send : UnreliableStream → (Span → Span) → Outcome UnreliableStream
send s write_to_buffer = do
  free ← remaining s.buffer
  let payload = write_to_buffer free
  bytes ← write_bytes payload s.buffer.end_index s.buffer.bytes
  let written : FlipBuffer = record (s.buffer) { bytes = bytes }
  if length payload == 0 then ok (record s { buffer = written }) else do
    let end : ℕ = s.buffer.end_index
    let range : BufferRange = record { begin = end; end = end + length payload }
    buffer ← FlipBuffer.advance written (length payload)
    ok (record { buffer = buffer; pending_messages = s.pending_messages ++ (range ∷ []) })
