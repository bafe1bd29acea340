-- ===== src/ReliableStream/Packets.antt =====
-- What a packet keeps, and what the peer's `read` finds there.
use neptun.Common.{
  ℕ, ◌+◌, ◌^◌, ◌≤◌, ◌<◌, ◌≡◌, refl, sym, ap, ◌∙◌, inl, inr, List, [], ◌∷◌, ◌++◌, append_assoc,
  map-append, arith, length, drop, All, ok, Bool-cases, ◌==◌, value,
}
use neptun.Io.{Span}
use neptun.Messages.Segment
use neptun.ReliableStream.{PendingMessage, InFlightMessage, ReliableStream, write, read}
use neptun.ReliableStream.Invariant.{IsValid, messages, pending_of, texts, contents, InOrder}
use neptun.ReliableStream.Writing.{fitting, waiting, flights, fitting-append-waiting}
use neptun.ReliableStream.Reading.{encodings, next_after, delivered, read_lem}
use neptun.ReliableStream.Fitting.{length-encodings, length-texts}
use neptun.ReliableStream.Packing.{
  body, fitting_inside, fitting-IsMessage, fitting_within, packed, write_lem,
}

pending_of-flights :
    (packet_id : ℕ) (ms : List PendingMessage) → pending_of (flights packet_id ms) ≡ ms
pending_of-flights packet_id [] = refl
pending_of-flights packet_id (m ∷ ms) = ap (◌∷◌ m) (pending_of-flights packet_id ms)

InOrder-flights :
    (lo packet_id : ℕ) (ms : List PendingMessage)
    → lo ≤ packet_id
    → InOrder lo (flights packet_id ms)
InOrder-flights lo packet_id [] h = tt
InOrder-flights lo packet_id (m ∷ ms) h = (h, InOrder-flights packet_id packet_id ms (omega arith))

InOrder-append :
    (lo packet_id : ℕ) (fs : List InFlightMessage) (ms : List PendingMessage)
    → lo ≤ packet_id
    → InOrder lo fs
    → All (λ m. m.packet_id ≤ packet_id) fs
    → InOrder lo (fs ++ flights packet_id ms)
InOrder-append lo packet_id [] ms h o b = InOrder-flights lo packet_id ms h
InOrder-append lo packet_id (m ∷ fs) ms h o b =
    (o.0, InOrder-append m.packet_id packet_id fs ms b.0 o.1 b.1)

messages-packed :
    (s : ReliableStream) (packet_id : ℕ) (buffer : Span)
    → messages (packed s packet_id buffer).2 ≡ messages s
messages-packed s packet_id buffer =
    let fit = fitting (length buffer) 2 s.pending_messages in
    let left = waiting (length buffer) 2 s.pending_messages in
    let flying = pending_of s.in_flight_messages in
    elim (Bool-cases (length fit == 0)) [
      | inl nothing ↦ rw nothing refl
      | inr something ↦ rw something (
          ap (λ (ms : List PendingMessage). ms ++ left)
            (map-append (λ m. m.message) s.in_flight_messages (flights packet_id fit)
              ∙ ap (◌++◌ flying) (pending_of-flights packet_id fit))
          ∙ append_assoc flying fit left
          ∙ ap (◌++◌ flying) (fitting-append-waiting (length buffer) 2 s.pending_messages))
    ]

-- What `packed` leaves alone.
buffer-packed :
    (s : ReliableStream) (packet_id : ℕ) (buffer : Span)
    → let s' = (packed s packet_id buffer).2 in
      (s'.buffer ≡ s.buffer)
      × (s'.next_outgoing_sequence_number ≡ s.next_outgoing_sequence_number)
      × (s'.next_expected_sequence_number ≡ s.next_expected_sequence_number)
buffer-packed s packet_id buffer =
    elim (Bool-cases (length (fitting (length buffer) 2 s.pending_messages) == 0)) [
      | inl nothing ↦ rw nothing (refl, refl, refl)
      | inr something ↦ rw something (refl, refl, refl)
    ]

InOrder-packed :
    (s : ReliableStream) (lo packet_id : ℕ) (buffer : Span)
    → lo ≤ packet_id
    → InOrder lo s.in_flight_messages
    → All (λ m. m.packet_id ≤ packet_id) s.in_flight_messages
    → InOrder lo (packed s packet_id buffer).2.in_flight_messages
InOrder-packed s lo packet_id buffer h o b =
    let fit = fitting (length buffer) 2 s.pending_messages in
    elim (Bool-cases (length fit == 0)) [
      | inl nothing ↦ rw nothing o
      | inr something ↦ rw something (InOrder-append lo packet_id s.in_flight_messages fit h o b)
    ]

-- `write` at a valid stream, with a packet id that is none before those in flight: it returns a valid
-- stream that holds the same messages with the same bytes, oldest first, and whose messages in flight
-- are still in the order of their packets.
pub write_keeps :
    (s : ReliableStream) (oldest lo packet_id : ℕ) (buffer : Span)
    → IsValid s oldest
    → length s.buffer.bytes < 2 ^ 16
    → length buffer < 1794
    → lo ≤ packet_id
    → InOrder lo s.in_flight_messages
    → All (λ m. m.packet_id ≤ packet_id) s.in_flight_messages
    → (b : Span) × (n : ℕ) × (s' : ReliableStream) × (write s packet_id buffer ≡ ok (b, n, s'))
      × IsValid s' oldest
      × (contents s' ≡ contents s)
      × InOrder lo s'.in_flight_messages
      × (s'.next_expected_sequence_number ≡ s.next_expected_sequence_number)
write_keeps s oldest lo packet_id buffer v small h l o b =
    let p = packed s packet_id buffer in
    let same = messages-packed s packet_id buffer in
    let (buf, next, expected) = buffer-packed s packet_id buffer in
    (
      p.0,
      p.1,
      p.2,
      write_lem s oldest v small buffer packet_id h,
      record { chain = rw (buf, next, same) v.chain; end_le = rw buf v.end_le },
      rw (buf, same) refl,
      InOrder-packed s lo packet_id buffer l o b,
      expected,
    )

-- What one side writes the other reads. If `write` at a valid stream reports bytes, the peer's `read`
-- of the packet returns, reports the same number of bytes, and gives the callback those messages of
-- the packet that come next in its sequence, with the bytes that were sent.
pub read-write :
    (s r : ReliableStream) (oldest packet_id : ℕ) (buffer : Span)
    → IsValid s oldest
    → length s.buffer.bytes < 2 ^ 16
    → oldest < 2 ^ 32
    → length buffer < 1794
    → 0 < (packed s packet_id buffer).1
    → let (b, n, s') = packed s packet_id buffer in
      let sent = texts s.buffer (fitting (length buffer) 2 s.pending_messages) in
      (write s packet_id buffer ≡ ok (b, n, s'))
      × (read r b
          ≡ ok (
            value n,
            delivered r.next_expected_sequence_number sent,
            record r {
              next_expected_sequence_number = next_after r.next_expected_sequence_number sent;
            },
          ))
read-write s r oldest packet_id buffer v small word h some =
    let fit = fitting (length buffer) 2 s.pending_messages in
    let sent = texts s.buffer fit in
    elim (Bool-cases (length fit == 0)) [
      | inl nothing ↦
          let zero_size : (packed s packet_id buffer).1 ≡ 0 = rw nothing refl in
          absurd (omega (arith, some, zero_size))
      | inr something ↦
          let inside = fitting_inside s oldest v small buffer in
          let room = fitting_within s oldest v small buffer something in
          let byte : length fit < 2 ^ 8 = omega (arith, length-encodings s.buffer fit inside) in
          let count = length-texts s.buffer fit in
          let rest = drop (length (body s.buffer fit)) buffer in
          let total : 2 + length (encodings sent) ≡ length (body s.buffer fit) = omega arith in
          (
            write_lem s oldest v small buffer packet_id h,
            rw something (
                ap (read r) (append_assoc (Segment.encoding 3 (length fit)) (encodings sent) rest)
                ∙ ap (λ (n : ℕ). read r (Segment.encoding 3 n ++ (encodings sent ++ rest)))
                    (sym count)
                ∙ read_lem r sent rest (rw count byte)
                    (fitting-IsMessage s oldest v small buffer word)
                ∙ ap
                    (λ (n : ℕ). ok (
                      value n,
                      delivered r.next_expected_sequence_number sent,
                      record r {
                        next_expected_sequence_number =
                            next_after r.next_expected_sequence_number sent;
                      },
                    ))
                    total),
          )
    ]
