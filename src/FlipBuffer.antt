-- ===== src/FlipBuffer.antt =====
-- common/flip_buffer.h, at bytes: a vector whose bytes from `begin_index` up to `end_index` are in
-- use. The capacity of the vector is its size, since it never grows.
pub mod Laws
pub mod Filling
pub mod Tests
use neptun.Common.{
  ℕ, zero, suc, ◌+◌, ◌-◌, List, replicate, length, leb, Outcome, ok, check, ◌>>=◌, ◌>>◌,
}
use neptun.Io.{Span, load, store, subspan}

pub record FlipBuffer : Type 0 where
  pub begin_index : ℕ
  pub end_index : ℕ
  pub bytes : List ℕ

unfoldable pub init : ℕ → FlipBuffer
init capacity = record { begin_index = 0; end_index = 0; bytes = replicate capacity 0 }

-- The span from `end_index` to the end of the vector.
unfoldable pub remaining : FlipBuffer → Outcome Span
remaining f = subspan f.bytes f.end_index (length f.bytes - f.end_index)

-- The loop of `flip` with `n` rounds left: byte `i` is copied from `begin + i`.
unfoldable pub flip_loop : ℕ → ℕ → ℕ → Span → Outcome Span
flip_loop zero begin i b = ok b
flip_loop (suc n) begin i b = do
  x ← load b (begin + i)
  b' ← store b i x
  flip_loop n begin (i + 1) b'

-- `m_end - m_begin` wraps when the buffer is not valid; the copy then leaves the vector.
unfoldable pub flip : FlipBuffer → Outcome FlipBuffer
unfolding flip_loop
flip f = do
  check (leb f.begin_index f.end_index)
  let new_end = f.end_index - f.begin_index
  b ← flip_loop new_end f.begin_index 0 f.bytes
  ok (record { begin_index = 0; end_index = new_end; bytes = b })

unfoldable pub consume : FlipBuffer → ℕ → FlipBuffer
consume f count = record f { begin_index = f.begin_index + count }

unfoldable pub advance : FlipBuffer → ℕ → Outcome FlipBuffer
advance f count = do
  check (leb (f.end_index + count) (length f.bytes))
  ok (record f { end_index = f.end_index + count })
