-- ===== src/ReliableStream/Ordering.antt =====
-- `read` over many packets: the order in which the callback gets the messages.
use neptun.Common.{
  ℕ, zero, suc, ◌+◌, ◌%◌, ◌^◌, ◌≤◌, ◌<◌, ◌≡◌, refl, sym, ap, ◌∙◌, List, [], ◌∷◌, ◌++◌, some,
  append-nil, append_assoc, arith, length, get_elem?, take, All, ok, Bool-cases, inl, inr, ◌==◌,
  ==_iff,
}
use neptun.Io.{Span}
use neptun.Messages.Segment
use neptun.ReliableStream.{ReliableStream, read}
use neptun.Common.{Outcome, ◌>>=◌}
use neptun.ReliableStream.Reading.{encodings, IsMessage, next_after, delivered, read_lem}
use neptun.ReliableStream.{init}

-- The messages of a packet are among those that the peer has sent, numbered from 0.
abbrev pub IsFrom : List Span → ℕ × Span → Type 0
IsFrom history (n, p) = get_elem? history n ≡ some p

take-next :
    (history : List Span) (n : ℕ) (p : Span)
    → get_elem? history n ≡ some p
    → (take n history ++ (p ∷ []) ≡ take (n + 1) history) × (n < length history)
take-next [] n p e = cc
take-next (x ∷ xs) zero p e = (cc, omega arith)
take-next (x ∷ xs) (suc n) p e =
    let (r, h) = take-next xs n p e in
    let e' : suc (n + 1) ≡ suc n + 1 = omega arith in
    (ap (◌∷◌ x) r ∙ ap (λ (i : ℕ). take i (x ∷ xs)) e', omega arith)

-- Delivery is in order and without gap or repetition. If the callback has been given the first
-- messages of the peer's history up to the number expected, then whatever part of the history a
-- packet holds, old messages, repeated ones or ones that run ahead, afterwards it has been given
-- the first messages up to the new number expected.
delivered_in_order :
    (history : List Span) (seq : ℕ) (ms : List (ℕ × Span))
    → length history < 2 ^ 32
    → All (IsFrom history) ms
    → (take seq history ++ delivered seq ms ≡ take (next_after seq ms) history)
      × (seq ≤ next_after seq ms)
delivered_in_order history seq [] h v = (append-nil (take seq history), omega arith)
delivered_in_order history seq ((n, p) ∷ ms) h v = elim (Bool-cases (n == seq)) [
  | inl hit ↦
      let e : n ≡ seq = (==_iff n seq).0 hit in
      let (new, inside) = take-next history seq p (rw e at v.0) in
      let wrap : (seq + 1) % 2 ^ 32 ≡ seq + 1 = omega arith in
      let (ih, up) = delivered_in_order history (seq + 1) ms h v.1 in
      rw (hit, wrap)
        (
          sym (append_assoc (take seq history) (p ∷ []) (delivered (seq + 1) ms))
              ∙ ap (λ (xs : List Span). xs ++ delivered (seq + 1) ms) new
              ∙ ih,
          omega arith,
        )
  | inr miss ↦ rw miss (delivered_in_order history seq ms h v.1)
]

-- Packets that reach one stream one after the other, each given by its messages and the bytes behind
-- them: all that the callback has been given, and the stream.
abbrev pub read_all :
    ReliableStream
    → List (List (ℕ × Span) × Span)
    → List Span
    → Outcome (List Span × ReliableStream)
read_all s [] out = ok (out, s)
read_all s ((ms, rest) ∷ packets) out = do
  (result, more, s') ←
      read s (Segment.encoding Segment.reliable_stream (length ms) ++ (encodings ms ++ rest))
  read_all s' packets (out ++ more)

-- A packet of messages of the history.
abbrev IsPacketOf : List Span → List (ℕ × Span) × Span → Type 0
IsPacketOf history (ms, rest) = (length ms < 2 ^ 8) × All IsMessage ms × All (IsFrom history) ms

read_all_lem :
    (history : List Span) (s : ReliableStream) (packets : List (List (ℕ × Span) × Span))
    (out : List Span)
    → length history < 2 ^ 32
    → out ≡ take s.next_expected_sequence_number history
    → All (IsPacketOf history) packets
    → (s' : ReliableStream) × (read_all s packets out
        ≡ ok (take s'.next_expected_sequence_number history, s'))
      × (s.next_expected_sequence_number ≤ s'.next_expected_sequence_number)
read_all_lem history s [] out h e v = (s, ap (λ (o : List Span). ok (o, s)) e, omega arith)
read_all_lem history s ((ms, rest) ∷ packets) out h e v =
    let seq = s.next_expected_sequence_number in
    let t : ReliableStream = record s { next_expected_sequence_number = next_after seq ms } in
    let (step, up) = delivered_in_order history seq ms h v.0.2 in
    let so_far : out ++ delivered seq ms ≡ take (next_after seq ms) history = rw e step in
    let (s', run, more) = read_all_lem history t packets (out ++ delivered seq ms) h so_far v.1 in
    (s', rw (read_lem s ms rest v.0.0 v.0.1) run, omega arith)

-- Delivery is in order, without gap or repetition. Let the peer's history have fewer than 2 ^ 32
-- messages, numbered from 0, and let packets of messages of it reach a fresh stream, in any order and
-- number, with messages that are old, repeated or run ahead. Then every `read` returns, and in the
-- end the callback has been given the first messages of the history, up to the number expected next.
pub read_in_order :
    (capacity : ℕ) (history : List Span) (packets : List (List (ℕ × Span) × Span))
    → length history < 2 ^ 32
    → All (IsPacketOf history) packets
    → (s' : ReliableStream) × (read_all (init capacity) packets []
        ≡ ok (take s'.next_expected_sequence_number history, s'))
unfolding init
read_in_order capacity history packets h v =
    let (s', run, up) = read_all_lem history (init capacity) packets [] h refl v in (s', run)
