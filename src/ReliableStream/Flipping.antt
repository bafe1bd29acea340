-- ===== src/ReliableStream/Flipping.antt =====
-- `maybe_flip`: the bytes in use and the ranges move to the start.
use neptun.Common.{
  ℕ, ◌-◌, ◌≡◌, refl, sym, ap, ◌∙◌, List, [], ◌++◌, map, append-nil, map-append, arith, length, drop,
  All, ok, Bool-cases, inl, inr, ltb, All-split, true,
}
use neptun.FlipBuffer.Laws.{flip_lem}
use neptun.ReliableStream.{PendingMessage, InFlightMessage, ReliableStream, rotate_loop, maybe_flip}
use neptun.ReliableStream.Invariant.{IsValid, messages, pending_of, texts, contents, buffer-IsValid}
use neptun.ReliableStream.Shifting.{
  shifted, shifted_flight, IsAbove, Chain-IsAbove, Chain-shifted, shift_all_lem, rotate_loop_lem,
  pending_of-shifted, texts-shifted,
}

-- What `maybe_flip` keeps.
pub record Flipped (s s' : ReliableStream) (oldest : ℕ) : Type 0 where
  pub run : maybe_flip s ≡ ok s'
  pub valid : IsValid s' oldest
  pub same : contents s' ≡ contents s
  pub room : length s'.buffer.bytes ≡ length s.buffer.bytes
  pub used : s'.buffer.end_index - s'.buffer.begin_index ≡ s.buffer.end_index - s.buffer.begin_index
  pub start : s'.buffer.begin_index ≡ 0
  pub outgoing : s'.next_outgoing_sequence_number ≡ s.next_outgoing_sequence_number
  pub expected : s'.next_expected_sequence_number ≡ s.next_expected_sequence_number

rotate_every :
    (amount : ℕ) (ms : List InFlightMessage)
    → All (IsAbove amount) (pending_of ms)
    → rotate_loop (length ms) amount ms ≡ ok (map (shifted_flight amount) ms)
rotate_every amount ms h =
    ap (rotate_loop (length ms) amount) (sym (append-nil ms)) ∙ rotate_loop_lem amount ms [] h

maybe_flip_moved :
    (s : ReliableStream) (oldest : ℕ)
    → ltb 0 s.buffer.begin_index ≡ true
    → IsValid s oldest
    → (s' : ReliableStream) × Flipped s s' oldest
unfolding maybe_flip
maybe_flip_moved s oldest moved v =
    let a = s.buffer.begin_index in
    let flights = s.in_flight_messages in
    let next = s.next_outgoing_sequence_number in
    let above =
      All-split (IsAbove a) (pending_of flights) s.pending_messages
        (Chain-IsAbove a a s.buffer.end_index oldest next (messages s) (omega arith) v.chain) in
    let (g, run, start, stop, size, bytes) = flip_lem s.buffer (buffer-IsValid s oldest v) in
    let moved_messages : pending_of (map (shifted_flight a) flights)
          ++ map (shifted a) s.pending_messages
        ≡ map (shifted a) (messages s) =
      ap (λ (xs : List PendingMessage). xs ++ map (shifted a) s.pending_messages)
        (pending_of-shifted a flights)
      ∙ sym (map-append (shifted a) (pending_of flights) s.pending_messages) in
    let zeroed : a - a ≡ 0 = omega arith in
    (
      record s {
        buffer = g;
        in_flight_messages = map (shifted_flight a) flights;
        pending_messages = map (shifted a) s.pending_messages;
      },
      record {
        run = rw (
          moved,
          rotate_every a flights above.0,
          shift_all_lem a s.pending_messages above.1,
          run,
        );
        valid = record {
          chain =
              rw (start, stop, moved_messages, ← zeroed)
                (Chain-shifted a a s.buffer.end_index oldest next (messages s) (omega arith)
                  v.chain);
          end_le = omega (arith, v.end_le);
        };
        same =
            ap (texts g) moved_messages
            ∙ texts-shifted s.buffer g (drop (s.buffer.end_index - a) s.buffer.bytes) a oldest next
                (messages s) (omega arith) v.end_le bytes v.chain;
        room = size;
        used = rw (start, stop) (omega arith);
        start = start;
        outgoing = refl;
        expected = refl;
      },
    )

pub maybe_flip_lem :
    (s : ReliableStream) (oldest : ℕ)
    → IsValid s oldest
    → (s' : ReliableStream) × Flipped s s' oldest
unfolding maybe_flip
maybe_flip_lem s oldest v = elim (Bool-cases (ltb 0 s.buffer.begin_index)) [
  | inr still ↦ (
    s,
    record {
      run = rw still;
      valid = v;
      same = refl;
      room = refl;
      used = refl;
      start = ground arith;
      outgoing = refl;
      expected = refl;
    },
  )
  | inl moved ↦ maybe_flip_moved s oldest moved v
]
