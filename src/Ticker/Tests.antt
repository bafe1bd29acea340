-- ===== src/Ticker/Tests.antt =====
-- Runs of Ticker, and its theorems at concrete times.
use neptun.Common.{ℕ, ◌≡◌, refl, List, [], ◌∷◌, true, false, none, some, arith, ok}
use neptun.Common.Int.{pos}
use neptun.Ticker.{init, tick, clear_tick_interval}
use neptun.Ticker.Phase.{at, tick_all, tick_all_lem, crossings, last_of}

-- An interval of 10 from the time 100: a call per multiple of 10 that has passed.
abbrev times : List ℕ
times = 104 ∷ 113 ∷ 119 ∷ 120 ∷ 147 ∷ 149 ∷ []

ticks : crossings 100 10 100 times ≡ false ∷ true ∷ false ∷ true ∷ true ∷ false ∷ []
ticks = refl

-- Without an interval every call is due.
always :
    tick_all (clear_tick_interval (init 100 (some (pos 10)))) (101 ∷ 102 ∷ [])
    ≡ ok (true ∷ true ∷ [], record (init 102 none) { time_since_last_tick = pos 0 })
unfolding init tick clear_tick_interval
always = refl

tick_all_example :
    tick_all (init 100 (some (pos 10))) times
    ≡ ok (crossings 100 10 100 times, at 100 10 (last_of 100 times))
tick_all_example =
    tick_all_lem 100 10 times (omega arith)
      (omega arith, (omega arith, (omega arith, (omega arith, (omega arith, (omega arith, tt))))))
