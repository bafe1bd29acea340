-- ===== src/FlipBuffer/Tests.antt =====
-- A run of FlipBuffer.
use neptun.Common.{◌≡◌, refl, [], ◌∷◌, ok}
use neptun.Io.{load, store}
use neptun.FlipBuffer.{FlipBuffer, flip}

abbrev buffer : FlipBuffer
buffer = record { begin_index = 1; end_index = 3; bytes = 1 ∷ 2 ∷ 3 ∷ 4 ∷ [] }

flipped : flip buffer ≡ ok (record { begin_index = 0; end_index = 2; bytes = 2 ∷ 3 ∷ 3 ∷ 4 ∷ [] })
unfolding flip load store
flipped = refl
