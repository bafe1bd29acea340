-- ===== src/ReliableStream/Sending.antt =====
-- `send`: a new message at the end, the others as they were.
use neptun.Common.{
  ℕ, ◌+◌, ◌-◌, ◌%◌, ◌^◌, ◌≤◌, ◌<◌, ◌≡◌, refl, sym, ap, ap₂, ◌∙◌, List, [], ◌∷◌, ◌++◌, map,
  append-nil, append_assoc, map-append, arith, length, take, drop, ok, Bool-cases, inl, inr,
  length-drop,
}
use neptun.Io.{Span}
use neptun.Common.{if◌then◌else◌, ◌==◌}
use neptun.FlipBuffer.{FlipBuffer}
use neptun.FlipBuffer.Laws.{remaining_lem}
use neptun.FlipBuffer.Filling.{filled, length-filled, write_payload, advance-filled, slice-filled}
use neptun.ReliableStream.{PendingMessage, ReliableStream, send}
use neptun.ReliableStream.Invariant.{
  IsValid, Chain, messages, pending_of, bytes_of, texts, contents, buffer-IsValid, Chain-le,
}
use neptun.ReliableStream.Shifting.{slice-prefix}
use neptun.ReliableStream.Flipping.{Flipped, maybe_flip_lem}

-- Appending a message at the end of a chain.
Chain-append :
    (lo hi n stop size : ℕ) (ms : List PendingMessage)
    → Chain lo hi n stop ms
    → 0 < size
    → Chain lo (hi + size) n ((stop + 1) % 2 ^ 32) (
        ms
        ++ (record { range = record { begin = hi; end = hi + size }; sequence_number = stop } ∷ []))
Chain-append lo hi n stop size [] c h = omega arith
Chain-append lo hi n stop size (m ∷ ms) c h =
    (c.0, c.1, c.2, Chain-append m.range.end hi ((n + 1) % 2 ^ 32) stop size ms c.3 h)

-- Writing behind a chain's bytes changes none of its texts.
texts-written :
    (f g : FlipBuffer) (payload rest : Span) (lo hi n stop : ℕ) (ms : List PendingMessage)
    → g.bytes ≡ take hi f.bytes ++ (payload ++ rest)
    → hi ≤ length f.bytes
    → Chain lo hi n stop ms
    → texts g ms ≡ texts f ms
texts-written f g payload rest lo hi n stop [] e k c = refl
texts-written f g payload rest lo hi n stop (m ∷ ms) e k c =
    let upper = Chain-le m.range.end hi ((n + 1) % 2 ^ 32) stop ms c.3 in
    let same : bytes_of g m.range ≡ bytes_of f m.range = rw e (
      slice-prefix m.range.begin (m.range.end - m.range.begin) hi f.bytes (payload ++ rest)
        (omega arith) k) in
    ap₂ (λ (t : Span) (ts : List (ℕ × Span)). (m.sequence_number, t) ∷ ts) same
      (texts-written f g payload rest m.range.end hi ((n + 1) % 2 ^ 32) stop ms e k c.3)

-- What `send` does with the payload that the callback returns.
pub record Sent (s s' : ReliableStream) (oldest : ℕ) (free payload : Span) : Type 0 where
  pub valid : IsValid s' oldest
  pub room : length s'.buffer.bytes ≡ length s.buffer.bytes
  pub free_room : length free + (s.buffer.end_index - s.buffer.begin_index) ≡ length s.buffer.bytes
  pub appended :
      contents s'
      ≡ contents s
        ++ (if length payload == 0 then [] else (s.next_outgoing_sequence_number, payload) ∷ [])
  pub outgoing : s'.next_outgoing_sequence_number ≡ (
      if length payload == 0
      then s.next_outgoing_sequence_number
      else (s.next_outgoing_sequence_number + 1) % 2 ^ 32)
  pub expected : s'.next_expected_sequence_number ≡ s.next_expected_sequence_number

-- The stream after the payload is written at the end of the bytes in use, before and after the
-- message is queued.
abbrev written : ReliableStream → Span → ReliableStream
written s payload = record s { buffer = filled s.buffer payload }

abbrev queued : ReliableStream → Span → ReliableStream
queued s payload =
    let e : ℕ = s.buffer.end_index in
    let next : ℕ = s.next_outgoing_sequence_number in
    let t = written s payload in
    record t {
      buffer = record (t.buffer) { end_index = e + length payload };
      pending_messages =
          s.pending_messages
          ++ (record {
            range = record { begin = e; end = e + length payload };
            sequence_number = next;
          }
              ∷ []);
      next_outgoing_sequence_number = (next + 1) % 2 ^ 32;
    }

module _ (s : ReliableStream) (oldest : ℕ) (v : IsValid s oldest) (payload : Span)
    (fits : length payload ≤ length s.buffer.bytes - s.buffer.end_index) where
  contents-written : contents (written s payload) ≡ contents s
  contents-written =
      texts-written s.buffer (written s payload).buffer payload
        (drop (length payload) (drop s.buffer.end_index s.buffer.bytes)) s.buffer.begin_index
        s.buffer.end_index oldest s.next_outgoing_sequence_number (messages s) refl v.end_le v.chain

  written-IsValid : IsValid (written s payload) oldest
  written-IsValid = record {
    chain = v.chain;
    end_le = rw (length-filled s.buffer v.end_le payload fits) v.end_le;
  }

  queued-IsValid : 0 < length payload → IsValid (queued s payload) oldest
  queued-IsValid h = record {
    chain = rw (← append_assoc (pending_of s.in_flight_messages) s.pending_messages) (
        Chain-append s.buffer.begin_index s.buffer.end_index oldest s.next_outgoing_sequence_number
          (length payload) (messages s) v.chain h);
    end_le = rw (length-filled s.buffer v.end_le payload fits) (omega (arith, v.end_le));
  }

  contents-queued :
      contents (queued s payload) ≡ contents s ++ ((s.next_outgoing_sequence_number, payload) ∷ [])
  contents-queued =
      let flights = pending_of s.in_flight_messages in
      let e : ℕ = s.buffer.end_index in
      let text : PendingMessage → ℕ × Span =
        λ m. (m.sequence_number, bytes_of (queued s payload).buffer m.range) in
      let new : PendingMessage = record {
        range = record { begin = e; end = e + length payload };
        sequence_number = s.next_outgoing_sequence_number;
      } in
      let mine : bytes_of (queued s payload).buffer new.range ≡ payload =
        slice-filled s.buffer v.end_le payload fits in
      ap (map text) (sym (append_assoc flights s.pending_messages (new ∷ [])))
      ∙ map-append text (messages s) (new ∷ [])
      ∙ ap₂ (λ (xs : List (ℕ × Span)) (t : Span). xs ++ ((s.next_outgoing_sequence_number, t) ∷ []))
          contents-written mine

-- `send` on a stream without a flip to make.
send-Flipped :
    (s s' : ReliableStream) (oldest : ℕ) (w : Span → Span)
    → Flipped s s' oldest
    → length (w (drop s'.buffer.end_index s'.buffer.bytes))
      ≤ length (drop s'.buffer.end_index s'.buffer.bytes)
    → let payload = w (drop s'.buffer.end_index s'.buffer.bytes) in
      send s w ≡ ok (if length payload == 0 then written s' payload else queued s' payload)
unfolding send
send-Flipped s s' oldest w f h =
    let free = drop s'.buffer.end_index s'.buffer.bytes in
    let payload = w free in
    let fits : length payload ≤ length s'.buffer.bytes - s'.buffer.end_index =
      omega (arith, length-drop s'.buffer.end_index s'.buffer.bytes) in
    let v = f.valid in
    rw
      (
        f.run,
        remaining_lem s'.buffer (buffer-IsValid s' oldest v),
        write_payload s'.buffer v.end_le payload fits,
      )
      (elim (Bool-cases (length payload == 0)) [
        | inl nothing ↦ rw nothing
        | inr some ↦ rw (some, advance-filled s'.buffer v.end_le payload fits)
      ])

-- `send` at a valid stream, for any callback that writes no more than the span it is given. It
-- returns, keeps the invariant, and gives the callback all of the buffer that no message uses. The
-- stream then holds the messages it held, in order and with their bytes, and behind them the
-- payload under the next sequence number, if the payload is not empty.
pub send_lem :
    (s : ReliableStream) (oldest : ℕ) (w : Span → Span)
    → IsValid s oldest
    → ((free : Span) → length (w free) ≤ length free)
    → (s' : ReliableStream) × (free : Span) × (send s w ≡ ok s') × Sent s s' oldest free (w free)
send_lem s oldest w v h =
    let (s₁, f) = maybe_flip_lem s oldest v in
    let free = drop s₁.buffer.end_index s₁.buffer.bytes in
    let payload = w free in
    let size = length-drop s₁.buffer.end_index s₁.buffer.bytes in
    let fits : length payload ≤ length s₁.buffer.bytes - s₁.buffer.end_index =
      omega (arith, h free) in
    let run = send-Flipped s s₁ oldest w f (h free) in
    let space : length free + (s.buffer.end_index - s.buffer.begin_index) ≡ length s.buffer.bytes =
      omega (arith, f.room, f.used, f.start, f.valid.end_le) in
    elim (Bool-cases (length payload == 0)) [
      | inl nothing ↦ (
        written s₁ payload,
        free,
        run ∙ rw nothing,
        record {
          valid = written-IsValid s₁ oldest f.valid payload fits;
          room = length-filled s₁.buffer f.valid.end_le payload fits ∙ f.room;
          free_room = space;
          appended = rw nothing (
              contents-written s₁ oldest f.valid payload fits
              ∙ f.same
              ∙ sym (append-nil (contents s)));
          outgoing = rw nothing f.outgoing;
          expected = f.expected;
        },
      )
      | inr something ↦ (
        queued s₁ payload,
        free,
        run ∙ rw something,
        record {
          valid = queued-IsValid s₁ oldest f.valid payload fits (ground arith);
          room = length-filled s₁.buffer f.valid.end_le payload fits ∙ f.room;
          free_room = space;
          appended = rw something (
              contents-queued s₁ oldest f.valid payload fits
              ∙ ap₂ (λ (xs : List (ℕ × Span)) (n : ℕ). xs ++ ((n, payload) ∷ [])) f.same
                  f.outgoing);
          outgoing = rw something (ap (λ (n : ℕ). (n + 1) % 2 ^ 32) f.outgoing);
          expected = f.expected;
        },
      )
    ]
