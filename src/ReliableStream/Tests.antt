-- ===== src/ReliableStream/Tests.antt =====
-- Runs of ReliableStream, and its theorems at concrete streams.
use neptun.Common.{
  ℕ, ◌≡◌, ◌≤◌, ◌<◌, ◌^◌, ◌++◌, map, All, List, refl, [], ◌∷◌, arith, ok, replicate, length, take,
  Expected, value,
}
use neptun.Io.{Span}
use neptun.Errors.{NeptunError}
use neptun.PacketDelivery.{ack, drop}
use neptun.ReliableStream.{
  PendingMessage, InFlightMessage, ReliableStream, init, on_packet_delivery_status, read, write,
  send,
}
use neptun.ReliableStream.Invariant.{IsValid, messages, texts, contents, InOrder}
use neptun.ReliableStream.Statuses.{ack_lem, drop_lem}
use neptun.ReliableStream.Sending.{Sent, send_lem}
use neptun.ReliableStream.Reading.{next_after, delivered, read_total, IsWithin}
use neptun.ReliableStream.Ordering.{read_all, read_in_order}
use neptun.ReliableStream.Packing.{packed}
use neptun.ReliableStream.Packets.{write_keeps, read-write}
use neptun.ReliableStream.Writing.{fitting}

abbrev message : ℕ → ℕ → ℕ → PendingMessage
message from to number = record {
  range = record { begin = from; end = to };
  sequence_number = number;
}

-- Three messages of 2, 1 and 3 bytes; the first is in flight in packet 5, the second in packet 6.
abbrev stream : ReliableStream
stream = record {
  buffer = record {
    begin_index = 1;
    end_index = 7;
    bytes = 9 ∷ 10 ∷ 11 ∷ 20 ∷ 30 ∷ 31 ∷ 32 ∷ 0 ∷ 0 ∷ [];
  };
  in_flight_messages =
      record { packet_id = 5; message = message 1 3 0 }
      ∷ record { packet_id = 6; message = message 3 4 1 }
      ∷ [];
  pending_messages = message 4 7 2 ∷ [];
  next_outgoing_sequence_number = 3;
  next_expected_sequence_number = 2;
}

stream-IsValid : IsValid stream 0
stream-IsValid = record {
  chain =
      (refl, omega arith, refl, (refl, omega arith, refl, (refl, omega arith, refl, (refl, refl))));
  end_le = omega arith;
}

ack_lem_example :
    let s = stream in
    (s' : ReliableStream) × (oldest' : ℕ) × (gone : List InFlightMessage)
    × (on_packet_delivery_status s 5 ack ≡ ok s')
    × IsValid s' oldest'
    × (gone ++ s'.in_flight_messages ≡ s.in_flight_messages)
    × All (λ m. m.packet_id ≡ 5) gone
    × All (λ m. 5 < m.packet_id) s'.in_flight_messages
    × (s'.pending_messages ≡ s.pending_messages)
    × (s'.buffer.bytes ≡ s.buffer.bytes)
    × (s'.next_outgoing_sequence_number ≡ s.next_outgoing_sequence_number)
    × (s'.next_expected_sequence_number ≡ s.next_expected_sequence_number)
ack_lem_example = ack_lem stream 5 0 stream-IsValid (omega arith, (omega arith, tt))

drop_lem_example :
    on_packet_delivery_status stream 5 drop
    ≡ ok (record stream { in_flight_messages = []; pending_messages = messages stream })
drop_lem_example = drop_lem stream 5 (omega arith, (omega arith, tt))

-- The callback writes one byte, if there is room for it.
abbrev one_byte : Span → Span
one_byte free = map (λ x. 77) (take 1 free)

one_byte-le : (free : Span) → length (one_byte free) ≤ length free
one_byte-le [] = omega arith
one_byte-le (x ∷ free) = omega arith

send_lem_example :
    (s' : ReliableStream) × (free : Span) × (send stream one_byte ≡ ok s')
    × Sent stream s' 0 free (one_byte free)
send_lem_example = send_lem stream 0 one_byte stream-IsValid one_byte-le

write_keeps_example :
    (b : Span) × (n : ℕ) × (s' : ReliableStream) × (write stream 7 (replicate 20 1) ≡ ok (b, n, s'))
    × IsValid s' 0
    × (contents s' ≡ contents stream)
    × InOrder 5 s'.in_flight_messages
    × (s'.next_expected_sequence_number ≡ stream.next_expected_sequence_number)
write_keeps_example =
    write_keeps stream 0 5 7 (replicate 20 1) stream-IsValid (omega arith) (omega arith)
      (omega arith) (omega arith, (omega arith, tt)) (omega arith, (omega arith, tt))

read-write_example :
    let (b, n, s') = packed stream 7 (replicate 20 1) in
    let sent = texts stream.buffer (fitting 20 2 stream.pending_messages) in
    (write stream 7 (replicate 20 1) ≡ ok (b, n, s'))
    × (read stream b
        ≡ ok (
          value n,
          delivered 2 sent,
          record stream { next_expected_sequence_number = next_after 2 sent },
        ))
read-write_example =
    read-write stream stream 0 7 (replicate 20 1) stream-IsValid (omega arith) (omega arith)
      (omega arith) (omega arith)

read_total_example :
    let buffer : Span = 3 ∷ 1 ∷ 0 ∷ 0 ∷ 0 ∷ 2 ∷ 0 ∷ 9 ∷ 1 ∷ [] in
    (result : Expected NeptunError ℕ) × (out : List Span) × (s' : ReliableStream) × (read stream
        buffer
      ≡ ok (result, out, s'))
    × IsWithin buffer result
read_total_example = read_total stream (3 ∷ 1 ∷ 0 ∷ 0 ∷ 0 ∷ 2 ∷ 0 ∷ 9 ∷ 1 ∷ [])

-- A history of two messages: the second arrives first, then both, then the first again.
abbrev packets : List (List (ℕ × Span) × Span)
packets =
    ((1, 8 ∷ []) ∷ [], []) ∷ ((0, 7 ∷ []) ∷ (1, 8 ∷ []) ∷ [], 4 ∷ []) ∷ ((0, 7 ∷ []) ∷ [], []) ∷ []

read_in_order_example :
    (s' : ReliableStream) × (read_all (init 8) packets []
      ≡ ok (take s'.next_expected_sequence_number ((7 ∷ []) ∷ (8 ∷ []) ∷ []), s'))
read_in_order_example =
    let first : (0 < 2 ^ 32) × (0 < 1) × (1 < 2 ^ 16) = (omega arith, omega arith, omega arith) in
    let second : (1 < 2 ^ 32) × (0 < 1) × (1 < 2 ^ 16) = (omega arith, omega arith, omega arith) in
    read_in_order 8 ((7 ∷ []) ∷ (8 ∷ []) ∷ []) packets (omega arith) (
      (omega arith, (second, tt), (refl, tt)),
      (
        (omega arith, (first, (second, tt)), (refl, (refl, tt))),
        ((omega arith, (first, tt), (refl, tt)), tt),
      ),
    )
