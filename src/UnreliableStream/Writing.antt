-- ===== src/UnreliableStream/Writing.antt =====
-- `write`: the messages that go into a packet, and what becomes of the others.
use neptun.Common.{
  ℕ, suc, ◌+◌, ◌-◌, ◌^◌, ◌≤◌, ◌<◌, ◌≡◌, refl, sym, ap, ap₂, ◌∙◌, List, [], ◌∷◌, ◌++◌, map,
  append_assoc, arith, length, drop, All, ok, Bool-cases, inl, inr, ltb, leb, check, ◌>>◌, Bool,
  if◌then◌else◌, length-append, length-take, length-drop, drop-drop, true, Outcome,
}
use neptun.Io.{Span, subspan}
use neptun.Io.Encode.{write_after-append}
use neptun.FlipBuffer.{FlipBuffer, consume}
use neptun.Messages.UnreliableMessage
use neptun.Messages.UnreliableMessage.{encoding, serialized_size}
use neptun.ReliableStream.{BufferRange, buffer_span}
use neptun.ReliableStream.Invariant.{bytes_of}
use neptun.UnreliableStream.{count_loop, write_loop}
use neptun.UnreliableStream.Reading.{encodings}
use native.Mathlib.Nat.{mod-eq_of_lt}

abbrev pub size_of : BufferRange → ℕ
size_of r = serialized_size (r.end - r.begin)

-- The messages from the front that fit a packet of which `total` bytes are used.
abbrev pub fitting : ℕ → ℕ → List BufferRange → List BufferRange
fitting limit total [] = []
fitting limit total (r ∷ rs) =
    if ltb limit (total + size_of r) then [] else r ∷ fitting limit (total + size_of r) rs

abbrev pub too_late : ℕ → ℕ → List BufferRange → List BufferRange
too_late limit total [] = []
too_late limit total (r ∷ rs) =
    if ltb limit (total + size_of r) then r ∷ rs else too_late limit (total + size_of r) rs

pub fitting-append-too_late :
    (limit total : ℕ) (rs : List BufferRange)
    → fitting limit total rs ++ too_late limit total rs ≡ rs
fitting-append-too_late limit total [] = refl
fitting-append-too_late limit total (r ∷ rs) =
    ground (arith, fitting-append-too_late limit (total + size_of r) rs)

-- A range that lies in the buffer and is not empty.
abbrev pub InBuffer : FlipBuffer → BufferRange → Type 0
InBuffer f r = (r.begin < r.end) × (r.end ≤ length f.bytes)

abbrev pub payloads : FlipBuffer → List BufferRange → List Span
payloads f = map (bytes_of f)

pub length-bytes_of :
    (f : FlipBuffer) (r : BufferRange) → InBuffer f r → length (bytes_of f r) ≡ r.end - r.begin
length-bytes_of f r h =
    omega (arith, length-take (r.end - r.begin) (drop r.begin f.bytes), length-drop r.begin f.bytes)

buffer_span_lem :
    (f : FlipBuffer) (r : BufferRange) → InBuffer f r → buffer_span f r ≡ ok (bytes_of f r)
unfolding buffer_span subspan
buffer_span_lem f r h = ground arith

pub count_loop_lem :
    (f : FlipBuffer) (limit total count : ℕ) (rs : List BufferRange)
    → All (InBuffer f) rs
    → count_loop limit total count rs ≡ (
      total + length (encodings (payloads f (fitting limit total rs))),
      count + length (fitting limit total rs),
    )
unfolding count_loop
count_loop_lem f limit total count [] h = ap₂ (λ (a b : ℕ). (a, b)) (omega arith) (omega arith)
count_loop_lem f limit total count (r ∷ rs) h = elim (Bool-cases (ltb limit (total + size_of r))) [
  | inl full ↦ rw full (ap₂ (λ (a b : ℕ). (a, b)) (omega arith) (omega arith))
  | inr room ↦
      let sent = encodings (payloads f (fitting limit (total + size_of r) rs)) in
      rw (room, count_loop_lem f limit (total + size_of r) (count + 1) rs h.1)
        (ap₂ (λ (a b : ℕ). (a, b))
          (omega (arith, length-append (bytes_of f r) sent, length-bytes_of f r h.0)) (omega arith))
]

-- The buffer once the bytes of messages were consumed.
abbrev pub consumed : FlipBuffer → List BufferRange → FlipBuffer
consumed f [] = f
consumed f (r ∷ rs) = consumed (record f { begin_index = f.begin_index + length (bytes_of f r) }) rs

-- One message is written.
write_loop_step :
    (k : ℕ) (f : FlipBuffer) (idx : ℕ) (r : BufferRange) (rs : List BufferRange) (pre rest : Span)
    → InBuffer f r
    → length f.bytes < 2 ^ 16
    → idx ≡ length pre
    → serialized_size (length (bytes_of f r)) ≤ length rest
    → let p = bytes_of f r in
      write_loop (suc k) f idx (r ∷ rs) (pre ++ rest)
      ≡ write_loop k
          (record f { begin_index = f.begin_index + length p })
          (idx + serialized_size (length p))
          rs
          (pre ++ (encoding p ++ drop (serialized_size (length p)) rest))
unfolding write_loop consume
write_loop_step k f idx r rs pre rest h b e room =
    let p = bytes_of f r in
    let small : length p < 2 ^ 16 = omega (arith, length-bytes_of f r h) in
    let enc = encoding p in
    let size = UnreliableMessage.length-encoding p in
    let after = drop (serialized_size (length p)) rest in
    let next : ℕ → Outcome (ℕ × FlipBuffer × Span) = λ n.
      write_loop k (record f { begin_index = f.begin_index + length p }) (idx + n) rs
        (pre ++ (enc ++ after)) in
    let fits : leb (length enc) (length (pre ++ rest) - idx) ≡ true =
      ground (arith, size, length-append pre rest) in
    rw
      (
        buffer_span_lem f r h,
        mod-eq_of_lt small,
        write_after-append idx (λ (t : Span). UnreliableMessage.write t (length p) p) pre rest
            (enc ++ after) enc e (UnreliableMessage.write_lem rest p room),
      )
      (ap (λ (enough : Bool). check enough >> next (length enc)) fits ∙ ap next size)

state-eq :
    {i j : ℕ} {f : FlipBuffer} {b b' : Span}
    → i ≡ j
    → b ≡ b'
    → ◌≡◌ {A = Outcome (ℕ × FlipBuffer × Span)} (ok (i, f, b)) (ok (j, f, b'))
state-eq e e' = rw (e, e')

-- The second loop writes the messages one behind the other and consumes their bytes.
pub write_loop_lem :
    (f : FlipBuffer) (idx : ℕ) (ts left : List BufferRange) (pre rest : Span)
    → All (InBuffer f) ts
    → length f.bytes < 2 ^ 16
    → idx ≡ length pre
    → length (encodings (payloads f ts)) ≤ length rest
    → write_loop (length ts) f idx (ts ++ left) (pre ++ rest)
      ≡ ok (
        idx + length (encodings (payloads f ts)),
        consumed f ts,
        pre ++ (encodings (payloads f ts) ++ drop (length (encodings (payloads f ts))) rest),
      )
unfolding write_loop
write_loop_lem f idx [] left pre rest h b e r = state-eq (omega arith) refl
write_loop_lem f idx (m ∷ ts) left pre rest h b e r =
    let p = bytes_of f m in
    let enc = encoding p in
    let g : FlipBuffer = record f { begin_index = f.begin_index + length p } in
    let sent = encodings (payloads f ts) in
    let size = length-append p sent in
    let idx' : ℕ = idx + serialized_size (length p) in
    let after = drop (serialized_size (length p)) rest in
    let left_over =
      drop-drop (length (enc ++ sent)) (serialized_size (length p)) (length sent) rest
        (omega arith) in
    write_loop_step (length ts) f idx m (ts ++ left) pre rest h.0 b e (omega arith)
    ∙ ap (write_loop (length ts) g idx' (ts ++ left)) (sym (append_assoc pre enc after))
    ∙ write_loop_lem g idx' ts left (pre ++ enc) after h.1 b (omega (arith, length-append pre enc))
        (omega (arith, length-drop (serialized_size (length p)) rest))
    ∙ state-eq (omega arith) (
        append_assoc pre enc (sent ++ drop (length sent) after)
        ∙ ap (◌++◌ pre) (sym (append_assoc enc sent (drop (length sent) after)))
        ∙ ap (λ (d : Span). pre ++ ((enc ++ sent) ++ d)) left_over)
