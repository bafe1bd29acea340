-- ===== src/UnreliableStream/Packets.antt =====
-- What `write` puts into a packet, `read` gives to the callback.
use neptun.Common.{
  ℕ, suc, ◌+◌, ◌-◌, ◌^◌, ◌≤◌, ◌<◌, ◌≡◌, ◌⊎◌, refl, sym, ap, ◌∙◌, List, [], ◌∷◌, ◌++◌, arith, length,
  drop, All, All-split, ok, Bool-cases, inl, inr, ltb, ◌==◌, ==_iff, length-append, length-drop,
  ltb_false→le, true, false, value,
}
use neptun.Io.{Span}
use neptun.FlipBuffer.{FlipBuffer}
use neptun.FlipBuffer.Laws
use neptun.Messages.Segment
use neptun.ReliableStream.{BufferRange}
use neptun.ReliableStream.Invariant.{bytes_of}
use neptun.UnreliableStream.{UnreliableStream, read, write, write_loop}
use neptun.UnreliableStream.Reading.{encodings, IsPayload, read_segment}
use neptun.UnreliableStream.Writing.{
  size_of, fitting, too_late, fitting-append-too_late, InBuffer, payloads, length-bytes_of,
  count_loop_lem, consumed, write_loop_lem,
}
use native.Mathlib.Nat.{mod-eq_of_lt}

-- The ranges follow one another between `lo` and `hi`, and none is empty.
abbrev pub Ranges : ℕ → ℕ → List BufferRange → Type 0
Ranges lo hi [] = lo ≤ hi
Ranges lo hi (r ∷ rs) = (lo ≤ r.begin) × (r.begin < r.end) × Ranges r.end hi rs

pub record IsValid (s : UnreliableStream) : Type 0 where
  pub ranges : Ranges s.buffer.begin_index s.buffer.end_index s.pending_messages
  pub end_le : s.buffer.end_index ≤ length s.buffer.bytes

pub Ranges-le : (lo hi : ℕ) (rs : List BufferRange) → Ranges lo hi rs → lo ≤ hi
Ranges-le lo hi [] v = v
Ranges-le lo hi (r ∷ rs) v = omega (arith, v.0, v.1, Ranges-le r.end hi rs v.2)

pub Ranges-InBuffer :
    (f : FlipBuffer) (lo hi : ℕ) (rs : List BufferRange)
    → hi ≤ length f.bytes
    → Ranges lo hi rs
    → All (InBuffer f) rs
Ranges-InBuffer f lo hi [] h v = tt
Ranges-InBuffer f lo hi (r ∷ rs) h v =
    ((v.1, omega (arith, h, Ranges-le r.end hi rs v.2)), Ranges-InBuffer f r.end hi rs h v.2)

Ranges-front :
    (lo hi : ℕ) (rs left : List BufferRange) → Ranges lo hi (rs ++ left) → Ranges lo hi rs
Ranges-front lo hi [] left v = Ranges-le lo hi left v
Ranges-front lo hi (r ∷ rs) left v = (v.0, v.1, Ranges-front r.end hi rs left v.2)

-- The sizes of the messages together.
abbrev pub taken : FlipBuffer → List BufferRange → ℕ
taken f [] = 0
taken f (r ∷ rs) = length (bytes_of f r) + taken f rs

consumed_lem :
    (f : FlipBuffer) (lo hi : ℕ) (rs : List BufferRange)
    → f.begin_index ≤ lo
    → Ranges lo hi rs
    → All (InBuffer f) rs
    → ((consumed f rs).begin_index ≤ hi)
      × ((consumed f rs).begin_index ≡ f.begin_index + taken f rs)
      × ((consumed f rs).end_index ≡ f.end_index)
      × ((consumed f rs).bytes ≡ f.bytes)
consumed_lem f lo hi [] h v i = (omega (arith, h, v), omega arith, refl, refl)
consumed_lem f lo hi (r ∷ rs) h v i =
    let size = length-bytes_of f r i.0 in
    let (below, sum, same_end, same) =
      consumed_lem (record f { begin_index = f.begin_index + length (bytes_of f r) }) r.end hi rs
        (omega (arith, h, v.0, v.1, size)) v.2 i.1 in
    (below, omega (arith, sum), same_end, same)

nothing_encoded :
    (f : FlipBuffer) (rs : List BufferRange)
    → length rs ≡ 0
    → length (encodings (payloads f rs)) ≡ 0
nothing_encoded f [] h = refl
nothing_encoded f (r ∷ rs) h = absurd (omega arith)

fitting_within :
    (f : FlipBuffer) (limit total : ℕ) (rs : List BufferRange)
    → All (InBuffer f) rs
    → (length (fitting limit total rs) ≡ 0)
      ⊎ (total + length (encodings (payloads f (fitting limit total rs))) ≤ limit)
fitting_within f limit total [] h = inl refl
fitting_within f limit total (r ∷ rs) h = elim (Bool-cases (ltb limit (total + size_of r))) [
  | inl full ↦ inl (rw full refl)
  | inr room ↦
      let p = bytes_of f r in
      let sent = encodings (payloads f (fitting limit (total + size_of r) rs)) in
      let next = fitting_within f limit (total + size_of r) rs h.1 in
      let size = length-bytes_of f r h.0 in
      let fits = ltb_false→le limit (total + size_of r) room in
      let enough : length sent + (total + size_of r) ≤ limit = elim next [
        | inl nothing ↦
            omega (arith, nothing_encoded f (fitting limit (total + size_of r) rs) nothing, fits)
        | inr more ↦ omega (arith, more)
      ] in
      inr (rw room (omega (arith, length-append p sent, size, enough)))
]

All-payloads :
    (f : FlipBuffer) (rs : List BufferRange)
    → length f.bytes < 2 ^ 16
    → All (InBuffer f) rs
    → All IsPayload (payloads f rs)
All-payloads f [] small h = tt
All-payloads f (r ∷ rs) small h =
    let size = length-bytes_of f r h.0 in
    ((omega (arith, size, h.0.0), omega (arith, size, h.0.1, small)), All-payloads f rs small h.1)

pub length-payloads : (f : FlipBuffer) (rs : List BufferRange) → length (payloads f rs) ≡ length rs
length-payloads f [] = refl
length-payloads f (r ∷ rs) = ap suc (length-payloads f rs)

-- The segment of messages.
abbrev pub segment_of : FlipBuffer → List BufferRange → Span
segment_of f fit =
    Segment.encoding Segment.unreliable_stream (length fit) ++ encodings (payloads f fit)

pub write-fitting :
    (s : UnreliableStream) (buffer : Span)
    → IsValid s
    → length s.buffer.bytes < 2 ^ 16
    → 0 < length (fitting (length buffer) 2 s.pending_messages)
    → length (fitting (length buffer) 2 s.pending_messages) < 2 ^ 8
    → let fit = fitting (length buffer) 2 s.pending_messages in
      let sent = payloads s.buffer fit in
      (s' : UnreliableStream) × (write s buffer
        ≡ ok (
          segment_of s.buffer fit ++ drop (length (encodings sent)) (drop 2 buffer),
          2 + length (encodings sent),
          s',
        ))
      × (2 + length (encodings sent) ≤ length buffer)
      × (s'.pending_messages ≡ [])
      × (s'.buffer.end_index + taken s.buffer fit ≡ s.buffer.end_index - s.buffer.begin_index)
      × IsValid s'
unfolding write
write-fitting s buffer v small some byte =
    let f = s.buffer in
    let fit = fitting (length buffer) 2 s.pending_messages in
    let left = too_late (length buffer) 2 s.pending_messages in
    let all = fitting-append-too_late (length buffer) 2 s.pending_messages in
    let sent = payloads f fit in
    let enc = encodings sent in
    let inside = Ranges-InBuffer f f.begin_index f.end_index s.pending_messages v.end_le v.ranges in
    let fit_inside = (All-split (InBuffer f) fit left (rw all inside)).0 in
    let fit_ranges = Ranges-front f.begin_index f.end_index fit left (rw all v.ranges) in
    let (below, sum, same_end, same) =
      consumed_lem f f.begin_index f.end_index fit (omega arith) fit_ranges fit_inside in
    let used : Laws.IsValid (consumed f fit) = record {
      begin_le = rw same_end below;
      end_le = rw (same_end, same) v.end_le;
    } in
    let (g, flips, zero_begin, new_end, kept, _) = Laws.flip_lem (consumed f fit) used in
    let room : 2 + length enc ≤ length buffer =
      elim (fitting_within f (length buffer) 2 s.pending_messages inside) [
        | inl nothing ↦ absurd (omega (arith, some, nothing))
        | inr within ↦ within
      ] in
    let count : 0 + length fit ≡ length fit = omega arith in
    let something : (length fit == 0) ≡ false = ground (arith, some) in
    let rest = drop 2 buffer in
    let header = Segment.encoding Segment.unreliable_stream (length fit) in
    let left_over = drop (length enc) rest in
    let loop : write_loop (length fit) f 2 s.pending_messages (header ++ rest)
        ≡ ok (2 + length enc, consumed f fit, header ++ (enc ++ left_over)) =
      ap (λ (rs : List BufferRange). write_loop (length fit) f 2 rs (header ++ rest)) (sym all)
      ∙ write_loop_lem f 2 fit left header rest fit_inside small refl
          (omega (arith, length-drop 2 buffer, room)) in
    let total : (2 + length enc == 2 + length enc) ≡ true =
      (==_iff (2 + length enc) (2 + length enc)).1 refl in
    (
      record { buffer = g; pending_messages = [] },
      rw
          (
            count_loop_lem f (length buffer) 2 0 s.pending_messages inside,
            count,
            something,
            mod-eq_of_lt byte,
            Segment.write_lem buffer 4 (length fit) (omega (arith, room)),
            loop,
            total,
            flips,
          )
          refl,
      room,
      refl,
      omega (arith, new_end, sum, same_end, below),
      record {
        ranges = rw zero_begin (omega arith);
        end_le = omega (arith, new_end, kept, used.end_le);
      },
    )

-- What is sent can be read.
pub fitting-IsPayload :
    (s : UnreliableStream) (limit : ℕ)
    → IsValid s
    → length s.buffer.bytes < 2 ^ 16
    → All IsPayload (payloads s.buffer (fitting limit 2 s.pending_messages))
fitting-IsPayload s limit v small =
    let f = s.buffer in
    let fit = fitting limit 2 s.pending_messages in
    let left = too_late limit 2 s.pending_messages in
    let inside = Ranges-InBuffer f f.begin_index f.end_index s.pending_messages v.end_le v.ranges in
    All-payloads f fit small
      (All-split (InBuffer f) fit left
        (rw (fitting-append-too_late limit 2 s.pending_messages) inside)).0

pub read-fitting :
    (s : UnreliableStream) (limit : ℕ) (rest : Span)
    → IsValid s
    → length s.buffer.bytes < 2 ^ 16
    → length (fitting limit 2 s.pending_messages) < 2 ^ 8
    → let fit = fitting limit 2 s.pending_messages in
      let sent = payloads s.buffer fit in
      read (segment_of s.buffer fit ++ rest) ≡ ok (value (2 + length (encodings sent)), sent)
read-fitting s limit rest v small byte =
    let f = s.buffer in
    let fit = fitting limit 2 s.pending_messages in
    let sent = payloads f fit in
    ap (λ (n : ℕ). read (Segment.encoding Segment.unreliable_stream n ++ (encodings sent ++ rest)))
      (sym (length-payloads f fit))
    ∙ read_segment sent rest (omega (arith, length-payloads f fit, byte))
        (fitting-IsPayload s limit v small)

-- What `write` puts into a packet `read` gives to the callback. If at least one of the pending messages
-- fits, and no more than a byte can count, `write` at a valid stream makes a packet of the longest run
-- from the front that fits, and `read` of it gives exactly their payloads, in order. The messages that
-- did not fit are pending no more, but their bytes stay in use.
pub read-write_segment :
    (s : UnreliableStream) (buffer : Span)
    → IsValid s
    → length s.buffer.bytes < 2 ^ 16
    → 0 < length (fitting (length buffer) 2 s.pending_messages)
    → length (fitting (length buffer) 2 s.pending_messages) < 2 ^ 8
    → let fit = fitting (length buffer) 2 s.pending_messages in
      let sent = payloads s.buffer fit in
      (b : Span) × (s' : UnreliableStream) × (write s buffer
        ≡ ok (b, 2 + length (encodings sent), s'))
      × (read b ≡ ok (value (2 + length (encodings sent)), sent))
      × (s'.pending_messages ≡ [])
      × IsValid s'
      × (s'.buffer.end_index + taken s.buffer fit ≡ s.buffer.end_index - s.buffer.begin_index)
read-write_segment s buffer v small some byte =
    let fit = fitting (length buffer) 2 s.pending_messages in
    let rest = drop (length (encodings (payloads s.buffer fit))) (drop 2 buffer) in
    let (s', run, _, empty, sum, valid) = write-fitting s buffer v small some byte in
    (
      segment_of s.buffer fit ++ rest,
      s',
      run,
      read-fitting s (length buffer) rest v small byte,
      empty,
      valid,
      sum,
    )
