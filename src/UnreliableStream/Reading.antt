-- ===== src/UnreliableStream/Reading.antt =====
-- `read`: which messages of a packet reach the callback.
use neptun.Common.{
  ℕ, zero, suc, ◌+◌, ◌-◌, ◌^◌, ◌≤◌, ◌<◌, ◌≡◌, refl, sym, ap, ◌∙◌, List, [], ◌∷◌, ◌++◌, append-nil,
  append_assoc, arith, length, take, drop, All, ok, Bool-cases, inl, inr, ltb, ◌==◌, length-append,
  length-drop, Returns, Expected, value, unexpected, false, ltb_false→le, min,
}
use neptun.Errors.{NeptunError, malformed_packet}
use neptun.Io.{Span}
use neptun.Io.Encode.{advance-append, advance-drop}
use neptun.Io.Fields.{read_unsigned_inside, read_byte_array_inside}
use neptun.Messages.Segment
use neptun.Messages.UnreliableMessage
use neptun.Messages.UnreliableMessage.{encoding}
use neptun.UnreliableStream.{read_loop, read}

abbrev pub encodings : List Span → Span
encodings [] = []
encodings (p ∷ ps) = encoding p ++ encodings ps

-- A payload that fits the length field.
abbrev pub IsPayload : Span → Type 0
IsPayload p = (0 < length p) × (length p < 2 ^ 16)

-- One well-formed message is read.
read_loop_step :
    (k : ℕ) (pre p tail : Span) (idx : ℕ) (out : List Span)
    → IsPayload p
    → idx ≡ length pre
    → read_loop (suc k) (pre ++ (encoding p ++ tail)) idx out
      ≡ read_loop k (pre ++ (encoding p ++ tail)) (idx + (2 + length p)) (out ++ (p ∷ []))
unfolding read_loop
read_loop_step k pre p tail idx out h e =
    rw
      (
        advance-append idx pre (encoding p ++ tail) e,
        UnreliableMessage.validate_size-encoding p tail h.0 h.1,
        UnreliableMessage.payload-encoding p tail h.1,
      )
      refl

read_loop_lem :
    (pre : Span) (ps : List Span) (rest : Span) (idx : ℕ) (out : List Span)
    → All IsPayload ps
    → idx ≡ length pre
    → read_loop (length ps) (pre ++ (encodings ps ++ rest)) idx out
      ≡ ok (value (idx + length (encodings ps)), out ++ ps)
read_loop_lem pre [] rest idx out h e = unfold read_loop in ground (arith, append-nil out)
read_loop_lem pre (p ∷ ps) rest idx out h e =
    let tail = encodings ps ++ rest in
    let idx' : ℕ = idx + (2 + length p) in
    let out' : List Span = out ++ (p ∷ []) in
    ap (λ (b : Span). read_loop (suc (length ps)) (pre ++ b) idx out)
      (append_assoc (encoding p) (encodings ps) rest)
    ∙ read_loop_step (length ps) pre p tail idx out h.0 e
    ∙ ap (λ (b : Span). read_loop (length ps) b idx' out')
        (sym (append_assoc pre (encoding p) tail))
    ∙ read_loop_lem (pre ++ encoding p) ps rest idx' out' h.1
        (omega (arith, length-append pre (encoding p)))
    ∙ ground (arith, length-append p (encodings ps), append_assoc out (p ∷ []) ps)

-- `read` of a packet's segment of well-formed messages: it returns, reports the bytes of the segment,
-- and gives the callback every payload, in order.
pub read_segment :
    (ps : List Span) (rest : Span)
    → length ps < 2 ^ 8
    → All IsPayload ps
    → read (Segment.encoding Segment.unreliable_stream (length ps) ++ (encodings ps ++ rest))
      ≡ ok (value (2 + length (encodings ps)), ps)
unfolding read
read_segment ps rest h v =
    let body = encodings ps ++ rest in
    let packet = Segment.encoding 4 (length ps) ++ body in
    let long : ltb (length packet) 2 ≡ false = ground arith in
    rw
      (
        long,
        Segment.manager_type-encoding 4 (length ps) body (omega arith),
        Segment.message_count-encoding 4 (length ps) body h,
        read_loop_lem (Segment.encoding 4 (length ps)) ps rest 2 [] v refl,
      )
      refl

-- A validated message can be read.
payload_total :
    (b : Span) (n : ℕ)
    → UnreliableMessage.length b ≡ ok n
    → 2 ≤ length b
    → Returns (UnreliableMessage.payload b)
unfolding UnreliableMessage.payload
payload_total b n e h =
    (take (min (length b - 2) n) (drop 2 b), rw (e, read_byte_array_inside 2 n b h))

-- A size within the packet, or a malformed packet.
abbrev pub IsWithin : Span → Expected NeptunError ℕ → Type 0
IsWithin buffer (value n) = n ≤ length buffer
IsWithin buffer (unexpected e) = e ≡ malformed_packet

read_loop_total :
    (n : ℕ) (buffer : Span) (idx : ℕ) (out : List Span)
    → idx ≤ length buffer
    → (result : Expected NeptunError ℕ) × (out' : List Span) × (read_loop n buffer idx out
        ≡ ok (result, out'))
      × IsWithin buffer result
unfolding read_loop
read_loop_total zero buffer idx out h = (value idx, out, refl, h)
read_loop_total (suc n) buffer idx out h =
    let message = drop idx buffer in
    let size = length-drop idx buffer in
    let at = advance-drop idx buffer h in
    elim (UnreliableMessage.validate_size_within message) [
      | inl bad ↦ (unexpected malformed_packet, out, rw (at, bad), refl)
      | inr (k, good, len, lower, upper) ↦
          let (p, e) = payload_total message (k - 2) len (omega arith) in
          let (result, out', r, w) =
            read_loop_total n buffer (idx + k) (out ++ (p ∷ [])) (omega arith) in
          (result, out', rw (at, good, e) r, w)
    ]

type_total : (b : Span) → 2 ≤ length b → Returns (Segment.manager_type b)
unfolding Segment.manager_type
type_total b h = read_unsigned_inside 1 0 b (omega arith)

count_total : (b : Span) → 2 ≤ length b → Returns (Segment.message_count b)
unfolding Segment.message_count
count_total b h = read_unsigned_inside 1 1 b (omega arith)

-- On any bytes whatever `read` stays inside them and returns; a size that it reports lies within
-- them, and its only error is a malformed packet.
pub read_any :
    (buffer : Span)
    → (result : Expected NeptunError ℕ) × (out : List Span) × (read buffer ≡ ok (result, out))
      × IsWithin buffer result
unfolding read
read_any buffer = elim (Bool-cases (ltb (length buffer) 2)) [
  | inl short ↦ (value 0, [], rw short, omega arith)
  | inr long ↦
      let big : 2 ≤ length buffer = ltb_false→le (length buffer) 2 long in
      let (t, e) = type_total buffer big in
      let (c, e') = count_total buffer big in
      let (result, out, r, w) = read_loop_total c buffer 2 [] big in
      elim (Bool-cases (t == 4)) [
        | inl ours ↦ (result, out, rw (long, e, ours, e') r, w)
        | inr theirs ↦ (value 0, [], rw (long, e, theirs), omega arith)
      ]
]
