-- ===== src/ReliableStream/Fitting.antt =====
-- The messages that fit a packet, their size and their fields.
use neptun.Common.{
  ℕ, ◌+◌, ◌*◌, ◌%◌, ◌^◌, ◌≤◌, ◌<◌, ◌≡◌, refl, ap, ◌⊎◌, inl, inr, List, [], ◌∷◌, arith, length, All,
  Bool-cases, ltb, length-append, ltb_false→le,
}
use neptun.FlipBuffer.{FlipBuffer}
use neptun.ReliableStream.{PendingMessage}
use neptun.ReliableStream.Invariant.{Chain, bytes_of, texts}
use neptun.ReliableStream.Writing.{size_of, fitting, InBuffer, length-bytes_of}
use neptun.ReliableStream.Reading.{encodings, IsMessage}

-- The messages that go into a packet are within its room.
pub fitting-room :
    (f : FlipBuffer) (limit total : ℕ) (ms : List PendingMessage)
    → All (InBuffer f) ms
    → (fitting limit total ms ≡ [])
      ⊎ (total + length (encodings (texts f (fitting limit total ms))) ≤ limit)
fitting-room f limit total [] h = inl refl
fitting-room f limit total (m ∷ ms) h =
    let size = length-bytes_of f m h.0 in
    let sent = encodings (texts f (fitting limit (total + size_of m) ms)) in
    let sum = length-append (bytes_of f m.range) sent in
    elim (Bool-cases (ltb limit (total + size_of m))) [
      | inl full ↦ inl (rw full refl)
      | inr room ↦
          let fits : total + size_of m ≤ limit = ltb_false→le limit (total + size_of m) room in
          elim (fitting-room f limit (total + size_of m) ms h.1) [
            | inl last ↦ inr (
                let none : length sent ≡ 0 =
                  ap (λ (xs : List PendingMessage). length (encodings (texts f xs))) last in
                rw room (omega (arith, size, sum)))
            | inr more ↦ inr (rw room (omega (arith, size, sum)))
          ]
    ]

-- A message takes seven bytes or more.
pub length-encodings :
    (f : FlipBuffer) (ms : List PendingMessage)
    → All (InBuffer f) ms
    → 7 * length ms ≤ length (encodings (texts f ms))
length-encodings f [] h = omega arith
length-encodings f (m ∷ ms) h = omega (
  arith,
  length-encodings f ms h.1,
  length-bytes_of f m h.0,
  length-append (bytes_of f m.range) (encodings (texts f ms)),
)

-- The sequence number is a word of 32 bits, and the size one of 16.
abbrev pub IsText : FlipBuffer → PendingMessage → Type 0
IsText f m = IsMessage (m.sequence_number, bytes_of f m.range)

pub texts-IsMessage :
    (f : FlipBuffer) (ms : List PendingMessage) → All (IsText f) ms → All IsMessage (texts f ms)
texts-IsMessage f [] h = tt
texts-IsMessage f (m ∷ ms) h = (h.0, texts-IsMessage f ms h.1)

pub length-texts : (f : FlipBuffer) (ms : List PendingMessage) → length (texts f ms) ≡ length ms
length-texts f [] = refl
length-texts f (m ∷ ms) = omega (arith, length-texts f ms)

pub Chain-IsMessage :
    (f : FlipBuffer) (lo hi n stop : ℕ) (ms : List PendingMessage)
    → n < 2 ^ 32
    → length f.bytes < 2 ^ 16
    → Chain lo hi n stop ms
    → All (InBuffer f) ms
    → All (IsText f) ms
Chain-IsMessage f lo hi n stop [] h b c v = tt
Chain-IsMessage f lo hi n stop (m ∷ ms) h b c v =
    let size = length-bytes_of f m v.0 in
    (
      (omega arith, omega arith, omega arith),
      Chain-IsMessage f m.range.end hi ((n + 1) % 2 ^ 32) stop ms (omega arith) b c.3 v.1,
    )
