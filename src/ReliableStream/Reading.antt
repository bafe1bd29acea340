-- ===== src/ReliableStream/Reading.antt =====
-- `read`: which messages of a packet reach the callback.
use neptun.Common.{
  ℕ, zero, suc, ◌+◌, ◌-◌, ◌%◌, ◌^◌, ◌≤◌, ◌<◌, ◌≡◌, refl, sym, ap, ◌∙◌, List, [], ◌∷◌, ◌++◌,
  append-nil, append_assoc, arith, length, take, drop, All, ok, Bool-cases, inl, inr, ltb, ◌==◌,
  if◌then◌else◌, length-append, length-drop, Returns, Expected, value, unexpected, false,
  ltb_false→le, min,
}
use neptun.Errors.{NeptunError, malformed_packet}
use neptun.Io.{Span}
use neptun.Io.Encode.{advance-append, advance-drop}
use neptun.Io.Fields.{read_unsigned_inside, read_byte_array_inside}
use neptun.Messages.Segment
use neptun.Messages.ReliableMessage
use neptun.Messages.ReliableMessage.{encoding}
use neptun.ReliableStream.{ReliableStream, accept, read_loop, read}

-- The bytes of messages, given by sequence number and payload.
abbrev pub encodings : List (ℕ × Span) → Span
encodings [] = []
encodings ((n, p) ∷ ms) = encoding n p ++ encodings ms

-- A message that fits its fields.
abbrev pub IsMessage : ℕ × Span → Type 0
IsMessage (n, p) = (n < 2 ^ 32) × (0 < length p) × (length p < 2 ^ 16)

-- The next number expected after messages, and the payloads given to the callback.
abbrev pub next_after : ℕ → List (ℕ × Span) → ℕ
next_after seq [] = seq
next_after seq ((n, p) ∷ ms) = next_after (if n == seq then (seq + 1) % 2 ^ 32 else seq) ms

abbrev pub delivered : ℕ → List (ℕ × Span) → List Span
delivered seq [] = []
delivered seq ((n, p) ∷ ms) =
    let rest = delivered (if n == seq then (seq + 1) % 2 ^ 32 else seq) ms in
    if n == seq then p ∷ rest else rest

-- One well-formed message is read.
read_loop_step :
    (k : ℕ) (pre : Span) (n : ℕ) (p tail : Span) (idx seq : ℕ) (out : List Span)
    → IsMessage (n, p)
    → idx ≡ length pre
    → read_loop (suc k) (pre ++ (encoding n p ++ tail)) idx seq out
      ≡ read_loop k
          (pre ++ (encoding n p ++ tail))
          (idx + (6 + length p))
          (if n == seq then (seq + 1) % 2 ^ 32 else seq)
          (if n == seq then out ++ (p ∷ []) else out)
unfolding read_loop
read_loop_step k pre n p tail idx seq out h e =
    rw
      (
        advance-append idx pre (encoding n p ++ tail) e,
        ReliableMessage.validate_size-encoding n p tail h.1 h.2,
        ReliableMessage.sequence_number-encoding n p tail h.0,
      )
      (elim (Bool-cases (n == seq)) [
        | inl hit ↦ rw (accept, hit, ReliableMessage.payload-encoding n p tail h.2)
        | inr miss ↦ rw (accept, miss)
      ])

read_loop_lem :
    (pre : Span) (ms : List (ℕ × Span)) (rest : Span) (idx seq : ℕ) (out : List Span)
    → All IsMessage ms
    → idx ≡ length pre
    → read_loop (length ms) (pre ++ (encodings ms ++ rest)) idx seq out
      ≡ ok (value (idx + length (encodings ms)), next_after seq ms, out ++ delivered seq ms)
read_loop_lem pre [] rest idx seq out h e = unfold read_loop in ground (arith, append-nil out)
read_loop_lem pre ((n, p) ∷ ms) rest idx seq out h e =
    let tail = encodings ms ++ rest in
    let seq' = if n == seq then (seq + 1) % 2 ^ 32 else seq in
    let out' = if n == seq then out ++ (p ∷ []) else out in
    let idx' : ℕ = idx + (6 + length p) in
    ap (λ (b : Span). read_loop (suc (length ms)) (pre ++ b) idx seq out)
      (append_assoc (encoding n p) (encodings ms) rest)
    ∙ read_loop_step (length ms) pre n p tail idx seq out h.0 e
    ∙ ap (λ (b : Span). read_loop (length ms) b idx' seq' out')
        (sym (append_assoc pre (encoding n p) tail))
    ∙ read_loop_lem (pre ++ encoding n p) ms rest idx' seq' out' h.1
        (omega (arith, length-append pre (encoding n p)))
    ∙ ground (arith, length-append p (encodings ms), append_assoc out (p ∷ []) (delivered seq' ms))

-- `read` of a packet's segment of well-formed messages: it returns, reports the bytes of the segment,
-- and gives the callback, in order, the payloads of the messages that come next in the sequence,
-- skipping the others.
pub read_lem :
    (s : ReliableStream) (ms : List (ℕ × Span)) (rest : Span)
    → length ms < 2 ^ 8
    → All IsMessage ms
    → read s (Segment.encoding Segment.reliable_stream (length ms) ++ (encodings ms ++ rest))
      ≡ ok (
        value (2 + length (encodings ms)),
        delivered s.next_expected_sequence_number ms,
        record s { next_expected_sequence_number = next_after s.next_expected_sequence_number ms },
      )
unfolding read
read_lem s ms rest h v =
    let body = encodings ms ++ rest in
    let packet = Segment.encoding 3 (length ms) ++ body in
    let long : ltb (length packet) 2 ≡ false = ground arith in
    rw (
      long,
      Segment.manager_type-encoding 3 (length ms) body (omega arith),
      Segment.message_count-encoding 3 (length ms) body h,
      read_loop_lem (Segment.encoding 3 (length ms)) ms rest 2 s.next_expected_sequence_number [] v
          refl,
    )

accept_total :
    (message : Span) (number seq : ℕ) (out : List Span)
    → Returns (ReliableMessage.payload message)
    → Returns (accept message number seq out)
unfolding accept
accept_total message number seq out (p, e) = elim (Bool-cases (number == seq)) [
  | inl hit ↦ (((seq + 1) % 2 ^ 32, out ++ (p ∷ [])), rw (hit, e))
  | inr miss ↦ ((seq, out), rw miss)
]

-- A validated message can be read.
payload_total :
    (b : Span) (n : ℕ)
    → ReliableMessage.length b ≡ ok n
    → 6 ≤ length b
    → Returns (ReliableMessage.payload b)
unfolding ReliableMessage.payload
payload_total b n e h =
    (take (min (length b - 6) n) (drop 6 b), rw (e, read_byte_array_inside 6 n b h))

number_total : (b : Span) → 6 ≤ length b → Returns (ReliableMessage.sequence_number b)
unfolding ReliableMessage.sequence_number
number_total b h = read_unsigned_inside 4 0 b (omega arith)

type_total : (b : Span) → 2 ≤ length b → Returns (Segment.manager_type b)
unfolding Segment.manager_type
type_total b h = read_unsigned_inside 1 0 b (omega arith)

count_total : (b : Span) → 2 ≤ length b → Returns (Segment.message_count b)
unfolding Segment.message_count
count_total b h = read_unsigned_inside 1 1 b (omega arith)

-- A size within the packet, or a malformed packet.
abbrev pub IsWithin : Span → Expected NeptunError ℕ → Type 0
IsWithin buffer (value n) = n ≤ length buffer
IsWithin buffer (unexpected e) = e ≡ malformed_packet

read_loop_total :
    (n : ℕ) (buffer : Span) (idx seq : ℕ) (out : List Span)
    → idx ≤ length buffer
    → (result : Expected NeptunError ℕ) × (seq' : ℕ) × (out' : List Span) × (read_loop n buffer idx
          seq out
        ≡ ok (result, seq', out'))
      × IsWithin buffer result
unfolding read_loop
read_loop_total zero buffer idx seq out h = (value idx, seq, out, refl, h)
read_loop_total (suc n) buffer idx seq out h =
    let message = drop idx buffer in
    let size = length-drop idx buffer in
    let at = advance-drop idx buffer h in
    elim (ReliableMessage.validate_size_total message) [
      | inl bad ↦ (unexpected malformed_packet, seq, out, rw (at, bad), refl)
      | inr (k, good, len, lower, upper) ↦
          let (number, e) = number_total message (omega arith) in
          let ((seq', out'), a) =
            accept_total message number seq out (payload_total message (k - 6) len (omega arith)) in
          let (result, seq'', out'', r, w) =
            read_loop_total n buffer (idx + k) seq' out' (omega arith) in
          (result, seq'', out'', rw (at, good, e, a) r, w)
    ]

-- On any bytes whatever `read` stays inside them and returns; a size that it reports lies within
-- them, and its only error is a malformed packet.
pub read_total :
    (s : ReliableStream) (buffer : Span)
    → (result : Expected NeptunError ℕ) × (out : List Span) × (s' : ReliableStream) × (read s buffer
        ≡ ok (result, out, s'))
      × IsWithin buffer result
unfolding read
read_total s buffer = elim (Bool-cases (ltb (length buffer) 2)) [
  | inl short ↦ (value 0, [], s, rw short, omega arith)
  | inr long ↦
      let big : 2 ≤ length buffer = ltb_false→le (length buffer) 2 long in
      let (t, e) = type_total buffer big in
      let (c, e') = count_total buffer big in
      let (result, seq, out, r, w) =
        read_loop_total c buffer 2 s.next_expected_sequence_number [] big in
      elim (Bool-cases (t == 3)) [
        | inl ours ↦ (
          result,
          out,
          record s { next_expected_sequence_number = seq },
          rw (long, e, ours, e', r),
          w,
        )
        | inr theirs ↦ (value 0, [], s, rw (long, e, theirs), omega arith)
      ]
]
