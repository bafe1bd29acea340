-- ===== src/ReliableStream/Invariant.antt =====
-- The invariant of a stream, and the messages that it holds.
use neptun.Common.{
  ℕ, ◌+◌, ◌-◌, ◌%◌, ◌^◌, ◌≤◌, ◌<◌, ◌≡◌, refl, List, [], ◌∷◌, ◌++◌, map, arith, length, take, drop,
}
use neptun.Io.{Span}
use neptun.FlipBuffer.{FlipBuffer}
use neptun.FlipBuffer
use neptun.FlipBuffer.Laws
use neptun.ReliableStream.{BufferRange, PendingMessage, InFlightMessage, ReliableStream, init}

abbrev pub pending_of : List InFlightMessage → List PendingMessage
pending_of = map (λ m. m.message)

-- All messages that the peer is not known to have, oldest first.
abbrev pub messages : ReliableStream → List PendingMessage
messages s = pending_of s.in_flight_messages ++ s.pending_messages

-- The ranges fill the buffer from `lo` to `hi`, none is empty, and the sequence numbers follow one
-- another from `n` up to `stop`, modulo 2 ^ 32.
abbrev pub Chain : ℕ → ℕ → ℕ → ℕ → List PendingMessage → Type 0
Chain lo hi n stop [] = (lo ≡ hi) × (n ≡ stop)
Chain lo hi n stop (m ∷ ms) =
    (m.range.begin ≡ lo)
    × (lo < m.range.end)
    × (m.sequence_number ≡ n)
    × Chain m.range.end hi ((n + 1) % 2 ^ 32) stop ms

-- `oldest` is the sequence number of the first message.
pub record IsValid (s : ReliableStream) (oldest : ℕ) : Type 0 where
  pub chain :
      Chain s.buffer.begin_index s.buffer.end_index oldest s.next_outgoing_sequence_number
        (messages s)
  pub end_le : s.buffer.end_index ≤ length s.buffer.bytes

abbrev pub bytes_of : FlipBuffer → BufferRange → Span
bytes_of f r = take (r.end - r.begin) (drop r.begin f.bytes)

-- Each message with its sequence number.
abbrev pub texts : FlipBuffer → List PendingMessage → List (ℕ × Span)
texts f = map (λ m. (m.sequence_number, bytes_of f m.range))

abbrev pub contents : ReliableStream → List (ℕ × Span)
contents s = texts s.buffer (messages s)

-- The messages in flight are in the order of their packets, none before `lo`.
abbrev pub InOrder : ℕ → List InFlightMessage → Type 0
InOrder lo [] = Unit
InOrder lo (m ∷ ms) = (lo ≤ m.packet_id) × InOrder m.packet_id ms

pub Chain-le : (lo hi n stop : ℕ) (ms : List PendingMessage) → Chain lo hi n stop ms → lo ≤ hi
Chain-le lo hi n stop [] c = omega arith
Chain-le lo hi n stop (m ∷ ms) c =
    omega (arith, Chain-le m.range.end hi ((n + 1) % 2 ^ 32) stop ms c.3)

pub buffer-IsValid : (s : ReliableStream) (n : ℕ) → IsValid s n → FlipBuffer.Laws.IsValid s.buffer
buffer-IsValid s n v = record {
  begin_le =
      Chain-le s.buffer.begin_index s.buffer.end_index n s.next_outgoing_sequence_number
        (messages s) v.chain;
  end_le = v.end_le;
}

pub init-IsValid : (capacity : ℕ) → IsValid (init capacity) 0
unfolding init
init-IsValid capacity = record { chain = (refl, refl); end_le = omega arith }
