-- ===== src/FlipBuffer/Filling.antt =====
-- What a client does with the span of `remaining`: it writes a payload there, and advances.
use neptun.Common.{
  ℕ, ◌+◌, ◌-◌, ◌≤◌, ◌≡◌, sym, ap, ◌∙◌, ◌++◌, arith, length, take, drop, ok, leb, length-append,
  length-take, length-drop, take-append-drop, take-append, drop-append, true,
}
use neptun.Io.{Span, write_bytes}
use neptun.Io.Encode.{write_bytes_lem}
use neptun.FlipBuffer.{FlipBuffer, advance}

-- The bytes just behind a prefix.
slice-append :
    (pre mid rest : Span) (lo n : ℕ)
    → lo ≡ length pre
    → n ≡ length mid
    → take n (drop lo (pre ++ (mid ++ rest))) ≡ mid
slice-append pre mid rest lo n e k =
    rw (drop-append lo pre (mid ++ rest) e) (take-append n mid rest k)

-- The buffer with the payload behind the bytes in use.
abbrev pub filled : FlipBuffer → Span → FlipBuffer
filled f payload = record f {
  bytes = take f.end_index f.bytes ++ (payload ++ drop (length payload) (drop f.end_index f.bytes));
}

module _ (f : FlipBuffer) (end_le : f.end_index ≤ length f.bytes) (payload : Span)
    (fits : length payload ≤ length f.bytes - f.end_index) where
  pub length-filled : length (filled f payload).bytes ≡ length f.bytes
  length-filled =
      let e = f.end_index in
      let b = f.bytes in
      let tail = drop (length payload) (drop e b) in
      omega (
        arith,
        end_le,
        length-append (take e b) (payload ++ tail),
        length-append payload tail,
        length-take e b,
        length-drop (length payload) (drop e b),
        length-drop e b,
      )

  pub write_payload : write_bytes payload f.end_index f.bytes ≡ ok (filled f payload).bytes
  write_payload =
      let e = f.end_index in
      let b = f.bytes in
      ap (write_bytes payload e) (sym (take-append-drop e b))
      ∙ write_bytes_lem payload e (take e b) (drop e b) (omega (arith, end_le, length-take e b))
          (omega (arith, length-drop e b))

  pub advance-filled :
      advance (filled f payload) (length payload)
      ≡ ok (record f { bytes = (filled f payload).bytes; end_index = f.end_index + length payload })
  unfolding advance
  advance-filled =
      let room : leb (f.end_index + length payload) (length (filled f payload).bytes) ≡ true =
        ground (arith, length-filled, end_le, fits) in
      rw room

  pub slice-filled :
      take (f.end_index + length payload - f.end_index) (drop f.end_index (filled f payload).bytes)
      ≡ payload
  slice-filled =
      slice-append (take f.end_index f.bytes) payload
        (drop (length payload) (drop f.end_index f.bytes)) f.end_index
        (f.end_index + length payload - f.end_index)
        (omega (arith, end_le, length-take f.end_index f.bytes)) (omega arith)
