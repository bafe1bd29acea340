-- ===== src/UnreliableStream/Sending.antt =====
-- `send`: a new message at the end, the others as they were.
use neptun.Common.{
  ℕ, ◌+◌, ◌-◌, ◌≤◌, ◌<◌, ◌≡◌, refl, sym, ap₂, ◌∙◌, List, [], ◌∷◌, ◌++◌, append-nil, map-append,
  arith, length, take, drop, ok, Bool-cases, inl, inr, ◌==◌, if◌then◌else◌, length-drop,
}
use neptun.Io.{Span}
use neptun.FlipBuffer.{FlipBuffer, remaining}
use neptun.FlipBuffer
use neptun.FlipBuffer.Laws
use neptun.FlipBuffer.Laws.{remaining_lem}
use neptun.FlipBuffer.Filling.{filled, length-filled, write_payload, advance-filled, slice-filled}
use neptun.ReliableStream.{BufferRange}
use neptun.ReliableStream.Invariant.{bytes_of}
use neptun.ReliableStream.Shifting.{slice-prefix}
use neptun.UnreliableStream.{UnreliableStream, init, send}
use neptun.UnreliableStream.Writing.{payloads}
use neptun.UnreliableStream.Packets.{Ranges, Ranges-le, IsValid}

pub init-IsValid : (capacity : ℕ) → IsValid (init capacity)
unfolding init FlipBuffer.init
init-IsValid capacity = record { ranges = omega arith; end_le = omega arith }

Ranges-append :
    (lo hi size : ℕ) (rs : List BufferRange)
    → Ranges lo hi rs
    → 0 < size
    → Ranges lo (hi + size) (rs ++ (record { begin = hi; end = hi + size } ∷ []))
Ranges-append lo hi size [] v h = (v, omega (arith, h), omega arith)
Ranges-append lo hi size (r ∷ rs) v h = (v.0, v.1, Ranges-append r.end hi size rs v.2 h)

payloads-written :
    (f g : FlipBuffer) (payload rest : Span) (lo hi : ℕ) (rs : List BufferRange)
    → g.bytes ≡ take hi f.bytes ++ (payload ++ rest)
    → hi ≤ length f.bytes
    → Ranges lo hi rs
    → payloads g rs ≡ payloads f rs
payloads-written f g payload rest lo hi [] e k v = refl
payloads-written f g payload rest lo hi (r ∷ rs) e k v =
    let upper = Ranges-le r.end hi rs v.2 in
    let same : bytes_of g r ≡ bytes_of f r = rw e (
      slice-prefix r.begin (r.end - r.begin) hi f.bytes (payload ++ rest)
        (omega (arith, upper, v.1)) k) in
    ap₂ (λ (t : Span) (ts : List Span). t ∷ ts) same
      (payloads-written f g payload rest r.end hi rs e k v.2)

-- The stream after the payload is written behind the bytes in use, before and after it is queued.
abbrev written : UnreliableStream → Span → UnreliableStream
written s payload = record s { buffer = filled s.buffer payload }

abbrev queued : UnreliableStream → Span → UnreliableStream
queued s payload =
    let e : ℕ = s.buffer.end_index in
    let t = written s payload in
    record {
      buffer = record (t.buffer) { end_index = e + length payload };
      pending_messages =
          s.pending_messages ++ (record { begin = e; end = e + length payload } ∷ []);
    }

module _ (s : UnreliableStream) (v : IsValid s) (payload : Span)
    (fits : length payload ≤ length s.buffer.bytes - s.buffer.end_index) where
  payloads_kept :
      payloads (written s payload).buffer s.pending_messages ≡ payloads s.buffer s.pending_messages
  payloads_kept =
      payloads-written s.buffer (written s payload).buffer payload
        (drop (length payload) (drop s.buffer.end_index s.buffer.bytes)) s.buffer.begin_index
        s.buffer.end_index s.pending_messages refl v.end_le v.ranges

  written-IsValid : IsValid (written s payload)
  written-IsValid = record {
    ranges = v.ranges;
    end_le = rw (length-filled s.buffer v.end_le payload fits) v.end_le;
  }

  queued-IsValid : 0 < length payload → IsValid (queued s payload)
  queued-IsValid h = record {
    ranges =
        Ranges-append s.buffer.begin_index s.buffer.end_index (length payload) s.pending_messages
          v.ranges h;
    end_le = rw (length-filled s.buffer v.end_le payload fits) (omega (arith, v.end_le));
  }

  payloads-queued :
      payloads (queued s payload).buffer (queued s payload).pending_messages
      ≡ payloads s.buffer s.pending_messages ++ (payload ∷ [])
  payloads-queued =
      let e : ℕ = s.buffer.end_index in
      let new : BufferRange = record { begin = e; end = e + length payload } in
      let mine : bytes_of (queued s payload).buffer new ≡ payload =
        slice-filled s.buffer v.end_le payload fits in
      map-append (bytes_of (queued s payload).buffer) s.pending_messages (new ∷ [])
      ∙ ap₂ (λ (xs : List Span) (t : Span). xs ++ (t ∷ [])) payloads_kept mine

-- `send` at a valid stream, for any callback that writes no more than the span it is given, which is
-- all of the buffer behind the bytes in use. It returns and keeps the invariant. The stream then holds
-- the payloads it held, in order and with their bytes, and behind them the new one, if it is not empty,
-- whose bytes are taken from the free ones.
pub payloads-send :
    (s : UnreliableStream) (w : Span → Span)
    → IsValid s
    → ((free : Span) → length (w free) ≤ length free)
    → let payload = w (drop s.buffer.end_index s.buffer.bytes) in
      (s' : UnreliableStream) × (send s w ≡ ok s')
      × IsValid s'
      × (payloads s'.buffer s'.pending_messages
          ≡ payloads s.buffer s.pending_messages
            ++ (if length payload == 0 then [] else payload ∷ []))
      × (s'.buffer.begin_index ≡ s.buffer.begin_index)
      × (s'.buffer.end_index ≡ s.buffer.end_index + length payload)
      × (length s'.buffer.bytes ≡ length s.buffer.bytes)
unfolding send
payloads-send s w v h =
    let free = drop s.buffer.end_index s.buffer.bytes in
    let payload = w free in
    let fits : length payload ≤ length s.buffer.bytes - s.buffer.end_index =
      omega (arith, h free, length-drop s.buffer.end_index s.buffer.bytes) in
    let valid : Laws.IsValid s.buffer = record {
      begin_le = Ranges-le s.buffer.begin_index s.buffer.end_index s.pending_messages v.ranges;
      end_le = v.end_le;
    } in
    let same = length-filled s.buffer v.end_le payload fits in
    elim (Bool-cases (length payload == 0)) [
      | inl nothing ↦ (
        written s payload,
        rw (remaining_lem s.buffer valid, write_payload s.buffer v.end_le payload fits, nothing)
            refl,
        written-IsValid s v payload fits,
        rw nothing (
            payloads_kept s v payload fits
            ∙ sym (append-nil (payloads s.buffer s.pending_messages))),
        refl,
        ground (arith, nothing),
        same,
      )
      | inr something ↦ (
        queued s payload,
        rw
            (
              remaining_lem s.buffer valid,
              write_payload s.buffer v.end_le payload fits,
              something,
              advance-filled s.buffer v.end_le payload fits,
            )
            refl,
        queued-IsValid s v payload fits (ground (arith, something)),
        rw something (payloads-queued s v payload fits),
        refl,
        refl,
        same,
      )
    ]
