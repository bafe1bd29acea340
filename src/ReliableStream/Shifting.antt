-- ===== src/ReliableStream/Shifting.antt =====
-- The ranges of messages after the bytes have moved, and their texts.
use neptun.Common.{
  ℕ, zero, suc, ◌+◌, ◌-◌, ◌%◌, ◌^◌, ◌≤◌, ◌≡◌, refl, ap, ap₂, ◌∙◌, List, [], ◌∷◌, ◌++◌, map,
  append-nil, append_assoc, arith, length, take, drop, All, ok, length-drop, drop-drop,
}
use neptun.Io.{Span}
use neptun.FlipBuffer.{FlipBuffer}
use neptun.ReliableStream.{PendingMessage, InFlightMessage, minus, shift, rotate_loop, shift_all}
use neptun.ReliableStream.Invariant.{Chain, pending_of, bytes_of, texts, Chain-le}

abbrev pub shifted : ℕ → PendingMessage → PendingMessage
shifted amount m = record m {
  range = record { begin = m.range.begin - amount; end = m.range.end - amount };
}

abbrev pub shifted_flight : ℕ → InFlightMessage → InFlightMessage
shifted_flight amount m = record m { message = shifted amount m.message }

abbrev pub IsAbove : ℕ → PendingMessage → Type 0
IsAbove amount m = (amount ≤ m.range.begin) × (amount ≤ m.range.end)

pub Chain-IsAbove :
    (amount lo hi n stop : ℕ) (ms : List PendingMessage)
    → amount ≤ lo
    → Chain lo hi n stop ms
    → All (IsAbove amount) ms
Chain-IsAbove amount lo hi n stop [] h c = tt
Chain-IsAbove amount lo hi n stop (m ∷ ms) h c = (
  (omega arith, omega arith),
  Chain-IsAbove amount m.range.end hi ((n + 1) % 2 ^ 32) stop ms (omega arith) c.3,
)

pub Chain-shifted :
    (amount lo hi n stop : ℕ) (ms : List PendingMessage)
    → amount ≤ lo
    → Chain lo hi n stop ms
    → Chain (lo - amount) (hi - amount) n stop (map (shifted amount) ms)
Chain-shifted amount lo hi n stop [] h c = (omega arith, c.1)
Chain-shifted amount lo hi n stop (m ∷ ms) h c = (
  omega arith,
  omega arith,
  c.2,
  Chain-shifted amount m.range.end hi ((n + 1) % 2 ^ 32) stop ms (omega arith) c.3,
)

shift_lem :
    (m : PendingMessage) (amount : ℕ) → IsAbove amount m → shift m amount ≡ ok (shifted amount m)
unfolding shift minus
shift_lem m amount h = ground arith

pub shift_all_lem :
    (amount : ℕ) (ms : List PendingMessage)
    → All (IsAbove amount) ms
    → shift_all amount ms ≡ ok (map (shifted amount) ms)
unfolding shift_all
shift_all_lem amount [] h = refl
shift_all_lem amount (m ∷ ms) h = rw (shift_lem m amount h.0, shift_all_lem amount ms h.1)

-- The rotation has moved the messages `done` to the end.
pub rotate_loop_lem :
    (amount : ℕ) (ms done : List InFlightMessage)
    → All (IsAbove amount) (pending_of ms)
    → rotate_loop (length ms) amount (ms ++ done) ≡ ok (done ++ map (shifted_flight amount) ms)
unfolding rotate_loop
rotate_loop_lem amount [] done h = rw append-nil
rotate_loop_lem amount (m ∷ ms) done h =
    let m' = shifted_flight amount m in
    rw (shift_lem m.message amount h.0, append_assoc ms done (m' ∷ []))
      (rotate_loop_lem amount ms (done ++ (m' ∷ [])) h.1
        ∙ ap ok (append_assoc done (m' ∷ []) (map (shifted_flight amount) ms)))

pub pending_of-shifted :
    (amount : ℕ) (ms : List InFlightMessage)
    → pending_of (map (shifted_flight amount) ms) ≡ map (shifted amount) (pending_of ms)
pending_of-shifted amount [] = refl
pending_of-shifted amount (m ∷ ms) =
    ap (◌∷◌ (shifted amount m.message)) (pending_of-shifted amount ms)

take-prefix :
    (size n : ℕ) (c rest : Span)
    → size ≤ n
    → n ≤ length c
    → take size (take n c ++ rest) ≡ take size c
take-prefix zero n c rest h k = refl
take-prefix (suc size) zero c rest h k = absurd (omega arith)
take-prefix (suc size) (suc n) [] rest h k = absurd (omega arith)
take-prefix (suc size) (suc n) (x ∷ c) rest h k =
    ap (◌∷◌ x) (take-prefix size n c rest (omega arith) (omega arith))

pub slice-prefix :
    (d size n : ℕ) (c rest : Span)
    → d + size ≤ n
    → n ≤ length c
    → take size (drop d (take n c ++ rest)) ≡ take size (drop d c)
slice-prefix zero size n c rest h k = take-prefix size n c rest (omega arith) k
slice-prefix (suc d) size zero c rest h k = absurd (omega arith)
slice-prefix (suc d) size (suc n) [] rest h k = absurd (omega arith)
slice-prefix (suc d) size (suc n) (x ∷ c) rest h k =
    slice-prefix d size n c rest (omega arith) (omega arith)

-- A range of the bytes in use, after they have moved by `a`.
slice-moved :
    (b rest : Span) (a lo n size : ℕ)
    → a ≤ lo
    → a + n ≤ length b
    → lo + size ≤ a + n
    → take size (drop (lo - a) (take n (drop a b) ++ rest)) ≡ take size (drop lo b)
slice-moved b rest a lo n size h k e =
    slice-prefix (lo - a) size n (drop a b) rest (omega arith) (omega (arith, length-drop a b))
    ∙ ap (take size) (drop-drop lo a (lo - a) b (omega arith))

-- Two buffers hold the same texts if their ranges do.
pub texts-shifted :
    (f g : FlipBuffer) (rest : Span) (lo n stop : ℕ) (ms : List PendingMessage)
    → f.begin_index ≤ lo
    → f.end_index ≤ length f.bytes
    → g.bytes ≡ take (f.end_index - f.begin_index) (drop f.begin_index f.bytes) ++ rest
    → Chain lo f.end_index n stop ms
    → texts g (map (shifted f.begin_index) ms) ≡ texts f ms
texts-shifted f g rest lo n stop [] h k e c = refl
texts-shifted f g rest lo n stop (m ∷ ms) h k e c =
    let a = f.begin_index in
    let upper = Chain-le m.range.end f.end_index ((n + 1) % 2 ^ 32) stop ms c.3 in
    let size : m.range.end - a - (m.range.begin - a) ≡ m.range.end - m.range.begin = omega arith in
    let same : bytes_of g (shifted a m).range ≡ bytes_of f m.range =
      rw (e, size)
        (slice-moved f.bytes rest a m.range.begin (f.end_index - a) (m.range.end - m.range.begin)
          (omega arith) (omega arith) (omega arith)) in
    ap₂ (λ (t : Span) (ts : List (ℕ × Span)). (m.sequence_number, t) ∷ ts) same
      (texts-shifted f g rest m.range.end ((n + 1) % 2 ^ 32) stop ms (omega arith) k e c.3)
