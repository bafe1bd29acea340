-- ===== src/ReliableStream/Packing.antt =====
-- `write`: the packet that it makes.
use neptun.Common.{
  ℕ, ◌+◌, ◌^◌, ◌≤◌, ◌<◌, ◌≡◌, refl, sym, ap, ◌∙◌, inl, inr, List, ◌++◌, append_assoc, arith, length,
  drop, All, All-split, ok, Bool-cases, ◌==◌, if◌then◌else◌, length-drop, drop-drop, false, true,
  Outcome,
}
use neptun.Io.{Span}
use neptun.FlipBuffer.{FlipBuffer}
use neptun.Messages.Segment
use neptun.ReliableStream.{PendingMessage, ReliableStream, write, write_loop}
use neptun.ReliableStream.Invariant.{IsValid, messages, pending_of, texts}
use neptun.ReliableStream.Writing.{
  fitting, waiting, flights, fitting-append-waiting, InBuffer, Chain-InBuffer, count_loop_lem,
  write_loop_lem, state-eq,
}
use neptun.ReliableStream.Reading.{encodings, IsMessage}
use native.Mathlib.Nat.{mod-eq_of_lt}
use neptun.ReliableStream.Fitting.{
  fitting-room, length-encodings, IsText, texts-IsMessage, Chain-IsMessage,
}

-- The stream, the buffer and the size after `write`.
abbrev pub body : FlipBuffer → List PendingMessage → Span
body f fit = Segment.encoding Segment.reliable_stream (length fit) ++ encodings (texts f fit)

abbrev pub packed : ReliableStream → ℕ → Span → Span × ℕ × ReliableStream
packed s packet_id buffer =
    let fit = fitting (length buffer) Segment.serialized_size s.pending_messages in
    let packet = body s.buffer fit in
    if length fit == 0 then (buffer, 0, s) else (
      packet ++ drop (length packet) buffer,
      length packet,
      record s {
        pending_messages = waiting (length buffer) Segment.serialized_size s.pending_messages;
        in_flight_messages = s.in_flight_messages ++ flights packet_id fit;
      },
    )

module _ (s : ReliableStream) (oldest : ℕ) (v : IsValid s oldest)
    (small : length s.buffer.bytes < 2 ^ 16) (buffer : Span) where
  every_inside : All (InBuffer s.buffer) (messages s)
  every_inside =
      Chain-InBuffer s.buffer s.buffer.begin_index s.buffer.end_index oldest
        s.next_outgoing_sequence_number (messages s) v.end_le v.chain

  pending_inside : All (InBuffer s.buffer) s.pending_messages
  pending_inside =
      (All-split (InBuffer s.buffer) (pending_of s.in_flight_messages) s.pending_messages
        every_inside).1

  pub fitting_inside : All (InBuffer s.buffer) (fitting (length buffer) 2 s.pending_messages)
  fitting_inside =
      let fit = fitting (length buffer) 2 s.pending_messages in
      let left = waiting (length buffer) 2 s.pending_messages in
      (All-split (InBuffer s.buffer) fit left
        (rw (fitting-append-waiting (length buffer) 2 s.pending_messages) pending_inside)).0

  -- The loop that writes the messages that fit behind the segment.
  write_fitting :
      (packet_id : ℕ)
      → let fit = fitting (length buffer) 2 s.pending_messages in
        let sent = encodings (texts s.buffer fit) in
        2 + length sent ≤ length buffer
        → write_loop
            (length fit)
            s.buffer
            packet_id
            2
            s.pending_messages
            s.in_flight_messages
            (Segment.encoding 3 (length fit) ++ drop 2 buffer)
          ≡ ok (
            2 + length sent,
            waiting (length buffer) 2 s.pending_messages,
            s.in_flight_messages ++ flights packet_id fit,
            body s.buffer fit ++ drop (2 + length sent) buffer,
          )
  write_fitting packet_id h =
      let fit = fitting (length buffer) 2 s.pending_messages in
      let left = waiting (length buffer) 2 s.pending_messages in
      let sent = encodings (texts s.buffer fit) in
      let pre = Segment.encoding 3 (length fit) in
      ap
        (λ (ms : List PendingMessage).
          write_loop (length fit) s.buffer packet_id 2 ms s.in_flight_messages
            (pre ++ drop 2 buffer))
        (sym (fitting-append-waiting (length buffer) 2 s.pending_messages))
      ∙ write_loop_lem s.buffer packet_id 2 fit left s.in_flight_messages pre (drop 2 buffer)
          fitting_inside small refl (omega (arith, length-drop 2 buffer))
      ∙ state-eq refl refl (
          sym (append_assoc pre sent (drop (length sent) (drop 2 buffer)))
          ∙ ap (◌++◌ (pre ++ sent)) (drop-drop (2 + length sent) 2 (length sent) buffer refl))

  pub fitting-IsMessage :
      oldest < 2 ^ 32
      → All IsMessage (texts s.buffer (fitting (length buffer) 2 s.pending_messages))
  fitting-IsMessage h =
      let f = s.buffer in
      let fit = fitting (length buffer) 2 s.pending_messages in
      let left = waiting (length buffer) 2 s.pending_messages in
      let flying = pending_of s.in_flight_messages in
      let all =
        Chain-IsMessage f f.begin_index f.end_index oldest s.next_outgoing_sequence_number
          (messages s) h small v.chain every_inside in
      let pending = (All-split (IsText f) flying s.pending_messages all).1 in
      texts-IsMessage f fit
        (All-split (IsText f) fit left
          (rw (fitting-append-waiting (length buffer) 2 s.pending_messages) pending)).0

  pub fitting_within :
      let fit = fitting (length buffer) 2 s.pending_messages in
      (length fit == 0) ≡ false → 2 + length (encodings (texts s.buffer fit)) ≤ length buffer
  fitting_within some =
      elim (fitting-room s.buffer (length buffer) 2 s.pending_messages pending_inside) [
        | inl none ↦
            let empty : length (fitting (length buffer) 2 s.pending_messages) ≡ 0 =
              ap length none in
            absurd (ground (arith, some, empty))
        | inr room ↦ room
      ]

  abbrev after : ℕ → ReliableStream
  after packet_id = record s {
    pending_messages = waiting (length buffer) 2 s.pending_messages;
    in_flight_messages =
        s.in_flight_messages ++ flights packet_id (fitting (length buffer) 2 s.pending_messages);
  }

  -- `write` at a valid stream whose buffer is within a message's length field, into a packet of fewer
  -- than 1794 bytes (the count of messages is then within its byte): it returns, and the packet, its
  -- size and the stream are those of `packed`. The packet is a segment of the longest run of pending
  -- messages from the front that fits, each with its sequence number and its bytes, at the start of
  -- the buffer, whose other bytes are unchanged; these messages are then in flight under the packet's
  -- id and the others still pending. If none fits, nothing changes.
  pub write_lem :
      (packet_id : ℕ)
      → length buffer < 1794
      → write s packet_id buffer ≡ ok (packed s packet_id buffer)
  unfolding write
  write_lem packet_id h =
      let fit = fitting (length buffer) 2 s.pending_messages in
      let sent = encodings (texts s.buffer fit) in
      let count : 0 + length fit ≡ length fit = omega arith in
      rw (count_loop_lem s.buffer (length buffer) 2 0 s.pending_messages pending_inside, count)
        (elim (Bool-cases (length fit == 0)) [
          | inl nothing ↦ rw nothing
          | inr something ↦
              let room = fitting_within something in
              let byte : length fit < 2 ^ 8 =
                omega (arith, length-encodings s.buffer fit fitting_inside) in
              let same : (2 + length sent == 2 + length sent) ≡ true = ground arith in
              let total : 2 + length sent ≡ length (body s.buffer fit) = omega arith in
              let done : ℕ → Outcome (Span × ℕ × ReliableStream) =
                λ n. ok (body s.buffer fit ++ drop n buffer, n, after packet_id) in
              rw
                (
                  something,
                  mod-eq_of_lt byte,
                  Segment.write_lem buffer 3 (length fit) (omega arith),
                  write_fitting packet_id room,
                  same,
                )
                (ap done total)
        ])
