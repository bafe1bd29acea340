-- ===== src/UnreliableStream/Segments.antt =====
-- `write` in any case: the segment of what fits, if anything does.
use neptun.Common.{
  ℕ, ◌+◌, ◌^◌, ◌<◌, ◌≡◌, refl, sym, ap, ◌∙◌, List, [], ◌∷◌, ◌++◌, append-nil, arith, length, drop,
  ok, Bool-cases, inl, inr, ◌==◌, ==_iff, length-drop, true, value,
}
use neptun.Io.{Span}
use neptun.FlipBuffer.{FlipBuffer}
use neptun.Messages.Segment
use neptun.ReliableStream.{BufferRange}
use neptun.UnreliableStream.{UnreliableStream, read, write}
use neptun.UnreliableStream.Reading.{encodings}
use neptun.UnreliableStream.Writing.{fitting, payloads, count_loop_lem}
use neptun.UnreliableStream.Packets.{
  write-fitting, read-fitting, length-payloads, segment_of, IsValid, Ranges-InBuffer,
}

payloads_nil : (f : FlipBuffer) (rs : List BufferRange) → length rs ≡ 0 → payloads f rs ≡ []
payloads_nil f [] h = refl
payloads_nil f (r ∷ rs) h = absurd (omega arith)

read-nil : read [] ≡ ok (value 0, [])
unfolding read
read-nil = refl

write_nothing :
    (s : UnreliableStream) (buffer : Span)
    → IsValid s
    → (length (fitting (length buffer) 2 s.pending_messages) == 0) ≡ true
    → write s buffer ≡ ok (buffer, 0, s)
unfolding write
write_nothing s buffer v nothing =
    let f = s.buffer in
    let inside = Ranges-InBuffer f f.begin_index f.end_index s.pending_messages v.end_le v.ranges in
    let fit = fitting (length buffer) 2 s.pending_messages in
    let count : 0 + length fit ≡ length fit = omega arith in
    rw (count_loop_lem f (length buffer) 2 0 s.pending_messages inside, count, nothing) refl

-- The segment of the payloads, if there are any.
abbrev pub segment : List Span → Span
segment [] = []
segment (p ∷ ps) =
    Segment.encoding Segment.unreliable_stream (length (p ∷ ps)) ++ encodings (p ∷ ps)

segment_lem :
    (ps : List Span) (n : ℕ)
    → length ps ≡ n
    → 0 < n
    → Segment.encoding Segment.unreliable_stream n ++ encodings ps ≡ segment ps
segment_lem [] n e h = absurd (omega (arith, e, h))
segment_lem (p ∷ ps) n e h =
    ap (λ (k : ℕ). Segment.encoding Segment.unreliable_stream k ++ encodings (p ∷ ps)) (sym e)

-- What `write` does in any case: a packet of the messages that fit, which is empty if there are none.
pub write_any :
    (s : UnreliableStream) (buffer : Span)
    → IsValid s
    → length s.buffer.bytes < 2 ^ 16
    → length (fitting (length buffer) 2 s.pending_messages) < 2 ^ 8
    → let sent = payloads s.buffer (fitting (length buffer) 2 s.pending_messages) in
      (t left : Span) × (s' : UnreliableStream) × (write s buffer ≡ ok (t ++ left, length t, s'))
      × (read t ≡ ok (value (length t), sent))
      × (length t + length left ≡ length buffer)
      × (t ≡ segment sent)
write_any s buffer v small byte =
    let f = s.buffer in
    let fit = fitting (length buffer) 2 s.pending_messages in
    let size = length (encodings (payloads f fit)) in
    elim (Bool-cases (length fit == 0)) [
      | inl nothing ↦
          let no_payloads : payloads f fit ≡ [] =
            payloads_nil f fit ((==_iff (length fit) 0).0 nothing) in
          (
            [],
            buffer,
            s,
            write_nothing s buffer v nothing,
            read-nil ∙ ap (λ (out : List Span). ok (value 0, out)) (sym no_payloads),
            omega arith,
            ap segment (sym no_payloads),
          )
      | inr something ↦
          let (s', run, room, _, _, _) =
            write-fitting s buffer v small (ground (arith, something)) byte in
          let left = drop size (drop 2 buffer) in
          let text = segment_of f fit in
          let total : 2 + size ≡ length text = omega arith in
          (
            text,
            left,
            s',
            run ∙ ap (λ (n : ℕ). ok (text ++ left, n, s')) total,
            ap read (sym (append-nil text))
                ∙ read-fitting s (length buffer) [] v small byte
                ∙ ap (λ (n : ℕ). ok (value n, payloads f fit)) total,
            omega (arith, room, length-drop size (drop 2 buffer), length-drop 2 buffer),
            segment_lem (payloads f fit) (length fit) (length-payloads f fit)
                (ground (arith, something)),
          )
    ]
