-- ===== src/UnreliableStream/Tests.antt =====
-- The theorems of UnreliableStream at concrete bytes.
use neptun.Common.{
  ℕ, ◌-◌, ◌≤◌, replicate, take, length-take, ◌++◌, refl, ◌≡◌, ◌+◌, List, [], ◌∷◌, arith, ok, length,
  Expected, value,
}
use neptun.Io.{Span}
use neptun.Errors.{NeptunError}
use neptun.ReliableStream.{BufferRange}
use neptun.UnreliableStream.Sending.{payloads-send}
use neptun.UnreliableStream.{UnreliableStream, read, write, send}
use neptun.UnreliableStream.Writing.{fitting, payloads}
use neptun.UnreliableStream.Packets.{IsValid, taken, read-write_segment}
use neptun.UnreliableStream.Reading.{encodings, read_any, IsWithin}

read_any_example :
    let buffer : Span = 4 ∷ 2 ∷ 0 ∷ 1 ∷ 8 ∷ 0 ∷ [] in
    (result : Expected NeptunError ℕ) × (out : List Span) × (read buffer ≡ ok (result, out))
    × IsWithin buffer result
read_any_example = read_any (4 ∷ 2 ∷ 0 ∷ 1 ∷ 8 ∷ 0 ∷ [])

-- Three messages, of which the third does not fit ten bytes.
abbrev stream : UnreliableStream
stream = record {
  buffer = record {
    begin_index = 0;
    end_index = 6;
    bytes = 8 ∷ 9 ∷ 10 ∷ 11 ∷ 12 ∷ 13 ∷ 0 ∷ 0 ∷ [];
  };
  pending_messages =
      record { begin = 0; end = 1 }
      ∷ record { begin = 1; end = 3 }
      ∷ record { begin = 3; end = 6 }
      ∷ [];
}

stream-IsValid : IsValid stream
stream-IsValid = record {
  ranges = (
    omega arith,
    omega arith,
    (omega arith, omega arith, (omega arith, omega arith, omega arith)),
  );
  end_le = omega arith;
}

abbrev packet : Span
packet = replicate 10 0

abbrev fit : List BufferRange
fit = fitting 10 2 stream.pending_messages

-- The callback gets the first two messages.
first_two : payloads stream.buffer fit ≡ (8 ∷ []) ∷ (9 ∷ 10 ∷ []) ∷ []
first_two = refl

read-write_segment_example :
    let sent = payloads stream.buffer fit in
    (b : Span) × (s' : UnreliableStream) × (write stream packet
      ≡ ok (b, 2 + length (encodings sent), s'))
    × (read b ≡ ok (value (2 + length (encodings sent)), sent))
    × (s'.pending_messages ≡ [])
    × IsValid s'
    × (s'.buffer.end_index + taken stream.buffer fit ≡ 6 - 0)
read-write_segment_example =
    read-write_segment stream packet stream-IsValid (omega arith) (omega arith) (omega arith)

-- The callback writes one byte, if there is room.
abbrev one_byte : Span → Span
one_byte free = take (length free) (7 ∷ [])

one_byte-within : (free : Span) → length (one_byte free) ≤ length free
one_byte-within free = omega (arith, length-take {A = ℕ} (length free) (7 ∷ []))

payloads-send_example :
    (s' : UnreliableStream) × (send stream one_byte ≡ ok s')
    × IsValid s'
    × (payloads s'.buffer s'.pending_messages
        ≡ ((8 ∷ []) ∷ (9 ∷ 10 ∷ []) ∷ (11 ∷ 12 ∷ 13 ∷ []) ∷ []) ++ ((7 ∷ []) ∷ []))
    × (s'.buffer.begin_index ≡ 0)
    × (s'.buffer.end_index ≡ 7)
    × (length s'.buffer.bytes ≡ 8)
payloads-send_example = payloads-send stream one_byte stream-IsValid one_byte-within
