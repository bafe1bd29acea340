-- ===== src/ReliableStream/Writing.antt =====
-- `write`: which pending messages go into a packet.
use neptun.Common.{
  ℕ, suc, ◌+◌, ◌-◌, ◌%◌, ◌^◌, ◌≤◌, ◌<◌, ◌≡◌, refl, sym, ap, ap₂, ◌∙◌, List, [], ◌∷◌, ◌++◌, map,
  append-nil, append_assoc, arith, length, drop, All, ok, Bool-cases, inl, inr, ltb, leb,
  if◌then◌else◌, length-append, length-take, length-drop, drop-drop, true, Bool, check, ◌>>◌,
  Outcome,
}
use neptun.Io.{Span, subspan}
use neptun.Io.Encode.{write_after-append}
use neptun.FlipBuffer.{FlipBuffer}
use neptun.Messages.ReliableMessage
use neptun.Messages.ReliableMessage.{encoding, serialized_size}
use neptun.ReliableStream.{PendingMessage, InFlightMessage, buffer_span, count_loop, write_loop}
use neptun.ReliableStream.Invariant.{Chain, Chain-le, bytes_of, texts}
use neptun.ReliableStream.Reading.{encodings}
use native.Mathlib.Nat.{mod-eq_of_lt}

abbrev pub size_of : PendingMessage → ℕ
size_of m = serialized_size (m.range.end - m.range.begin)

-- The messages from the front that fit a packet of which `total` bytes are used, and the others.
abbrev pub fitting : ℕ → ℕ → List PendingMessage → List PendingMessage
fitting limit total [] = []
fitting limit total (m ∷ ms) =
    if ltb limit (total + size_of m) then [] else m ∷ fitting limit (total + size_of m) ms

abbrev pub waiting : ℕ → ℕ → List PendingMessage → List PendingMessage
waiting limit total [] = []
waiting limit total (m ∷ ms) =
    if ltb limit (total + size_of m) then m ∷ ms else waiting limit (total + size_of m) ms

pub fitting-append-waiting :
    (limit total : ℕ) (ms : List PendingMessage)
    → fitting limit total ms ++ waiting limit total ms ≡ ms
fitting-append-waiting limit total [] = refl
fitting-append-waiting limit total (m ∷ ms) =
    ground (arith, fitting-append-waiting limit (total + size_of m) ms)

-- Each message's range lies in the buffer and is not empty.
abbrev pub InBuffer : FlipBuffer → PendingMessage → Type 0
InBuffer f m = (m.range.begin < m.range.end) × (m.range.end ≤ length f.bytes)

pub Chain-InBuffer :
    (f : FlipBuffer) (lo hi n stop : ℕ) (ms : List PendingMessage)
    → hi ≤ length f.bytes
    → Chain lo hi n stop ms
    → All (InBuffer f) ms
Chain-InBuffer f lo hi n stop [] h c = tt
Chain-InBuffer f lo hi n stop (m ∷ ms) h c =
    let upper = Chain-le m.range.end hi ((n + 1) % 2 ^ 32) stop ms c.3 in
    ((omega arith, omega arith), Chain-InBuffer f m.range.end hi ((n + 1) % 2 ^ 32) stop ms h c.3)

pub length-bytes_of :
    (f : FlipBuffer) (m : PendingMessage)
    → InBuffer f m
    → length (bytes_of f m.range) ≡ m.range.end - m.range.begin
length-bytes_of f m h = omega (
  arith,
  length-take (m.range.end - m.range.begin) (drop m.range.begin f.bytes),
  length-drop m.range.begin f.bytes,
)

buffer_span_lem :
    (f : FlipBuffer) (m : PendingMessage)
    → InBuffer f m
    → buffer_span f m.range ≡ ok (bytes_of f m.range)
unfolding buffer_span subspan
buffer_span_lem f m h = ground arith

pub count_loop_lem :
    (f : FlipBuffer) (limit total count : ℕ) (ms : List PendingMessage)
    → All (InBuffer f) ms
    → count_loop f limit total count ms
      ≡ ok (
        total + length (encodings (texts f (fitting limit total ms))),
        count + length (fitting limit total ms),
      )
unfolding count_loop
count_loop_lem f limit total count [] h =
    ap ok (ap₂ (λ (a b : ℕ). (a, b)) (omega arith) (omega arith))
count_loop_lem f limit total count (m ∷ ms) h =
    let p = bytes_of f m.range in
    let size = length-bytes_of f m h.0 in
    elim (Bool-cases (ltb limit (total + size_of m))) [
      | inl full ↦
          rw (buffer_span_lem f m h.0, size, full)
            (ap ok (ap₂ (λ (a b : ℕ). (a, b)) (omega arith) (omega arith)))
      | inr room ↦
          let sent = texts f (fitting limit (total + size_of m) ms) in
          rw
            (
              buffer_span_lem f m h.0,
              size,
              room,
              count_loop_lem f limit (total + size_of m) (count + 1) ms h.1,
            )
            (ap ok (
              ap₂ (λ (a b : ℕ). (a, b)) (omega (arith, length-append p (encodings sent), size))
                (omega arith)))
    ]

abbrev pub flights : ℕ → List PendingMessage → List InFlightMessage
flights packet_id = map (λ m. record { packet_id = packet_id; message = m })

-- One message is written.
write_loop_step :
    (k : ℕ) (f : FlipBuffer) (packet_id idx : ℕ) (m : PendingMessage) (ms : List PendingMessage)
    (in_flight : List InFlightMessage) (pre rest : Span)
    → InBuffer f m
    → length f.bytes < 2 ^ 16
    → idx ≡ length pre
    → serialized_size (length (bytes_of f m.range)) ≤ length rest
    → let p = bytes_of f m.range in
      write_loop (suc k) f packet_id idx (m ∷ ms) in_flight (pre ++ rest)
      ≡ write_loop k f packet_id
          (idx + serialized_size (length p))
          ms
          (in_flight ++ (record { packet_id = packet_id; message = m } ∷ []))
          (pre ++ (encoding m.sequence_number p ++ drop (serialized_size (length p)) rest))
unfolding write_loop
write_loop_step k f packet_id idx m ms in_flight pre rest h b e r =
    let p = bytes_of f m.range in
    let small : length p < 2 ^ 16 = omega (arith, length-bytes_of f m h) in
    let enc = encoding m.sequence_number p in
    let size = ReliableMessage.length-encoding m.sequence_number p in
    let next : ℕ → Outcome (ℕ × List PendingMessage × List InFlightMessage × Span) = λ n.
      write_loop k f packet_id (idx + n) ms
        (in_flight ++ (record { packet_id = packet_id; message = m } ∷ []))
        (pre ++ (enc ++ drop (serialized_size (length p)) rest)) in
    let fits : leb (length enc) (length (pre ++ rest) - idx) ≡ true =
      ground (arith, size, length-append pre rest) in
    rw
      (
        buffer_span_lem f m h,
        mod-eq_of_lt small,
        write_after-append idx
            (λ (t : Span). ReliableMessage.write t m.sequence_number (length p) p) pre rest
            (enc ++ drop (serialized_size (length p)) rest) enc e
            (ReliableMessage.write_lem rest m.sequence_number p r),
      )
      (ap (λ (enough : Bool). check enough >> next (length enc)) fits ∙ ap next size)

pub state-eq :
    {i j : ℕ} {left : List PendingMessage} {fl fl' : List InFlightMessage} {b b' : Span}
    → i ≡ j
    → fl ≡ fl'
    → b ≡ b'
    → ◌≡◌ {A = Outcome (ℕ × List PendingMessage × List InFlightMessage × Span)}
        (ok (i, left, fl, b))
        (ok (j, left, fl', b'))
state-eq e e' e'' = rw (e, e', e'')

pub write_loop_lem :
    (f : FlipBuffer) (packet_id idx : ℕ) (ts left : List PendingMessage)
    (in_flight : List InFlightMessage) (pre rest : Span)
    → All (InBuffer f) ts
    → length f.bytes < 2 ^ 16
    → idx ≡ length pre
    → length (encodings (texts f ts)) ≤ length rest
    → write_loop (length ts) f packet_id idx (ts ++ left) in_flight (pre ++ rest)
      ≡ ok (
        idx + length (encodings (texts f ts)),
        left,
        in_flight ++ flights packet_id ts,
        pre ++ (encodings (texts f ts) ++ drop (length (encodings (texts f ts))) rest),
      )
unfolding write_loop
write_loop_lem f packet_id idx [] left in_flight pre rest h b e r =
    ground (arith, append-nil in_flight)
write_loop_lem f packet_id idx (m ∷ ts) left in_flight pre rest h b e r =
    let p = bytes_of f m.range in
    let enc = encoding m.sequence_number p in
    let sent = encodings (texts f ts) in
    let size = length-append p sent in
    let idx' : ℕ = idx + serialized_size (length p) in
    let after = drop (serialized_size (length p)) rest in
    let flight : InFlightMessage = record { packet_id = packet_id; message = m } in
    let left_over =
      drop-drop (length (enc ++ sent)) (serialized_size (length p)) (length sent) rest
        (omega arith) in
    write_loop_step (length ts) f packet_id idx m (ts ++ left) in_flight pre rest h.0 b e
      (omega arith)
    ∙ ap (write_loop (length ts) f packet_id idx' (ts ++ left) (in_flight ++ (flight ∷ [])))
        (sym (append_assoc pre enc after))
    ∙ write_loop_lem f packet_id idx' ts left (in_flight ++ (flight ∷ [])) (pre ++ enc) after h.1 b
        (omega (arith, length-append pre enc))
        (omega (arith, length-drop (serialized_size (length p)) rest))
    ∙ state-eq (omega arith) (append_assoc in_flight (flight ∷ []) (flights packet_id ts)) (
        append_assoc pre enc (sent ++ drop (length sent) after)
        ∙ ap (◌++◌ pre) (sym (append_assoc enc sent (drop (length sent) after)))
        ∙ ap (λ (d : Span). pre ++ ((enc ++ sent) ++ d)) left_over)
