-- ===== src/Ticker.antt =====
-- common/ticker.h: whether it is time for the next tick.
-- Times are nanoseconds since the clock's epoch; the clock may go back, so a lapse of time is signed.
pub mod Phase
pub mod Tests
use neptun.Common.{
  ℕ, ◌+◌, ◌==◌, Bool, true, false, not, Option, none, some, if◌then◌else◌, Outcome, ok, check,
  ◌>>=◌, ◌>>◌,
}
use neptun.Common.Int.{ℤ, pos, negsuc, pos_part, neg_part, sub_ℕ, ◌+ℤ◌, leb_ℤ, ◌rem◌}

pub record Ticker : Type 0 where
  pub last_known_now : Option ℕ
  pub tick_interval : Option ℤ
  pub time_since_last_tick : ℤ

unfoldable pub init : ℕ → Option ℤ → Ticker
init now interval = record {
  last_known_now = some now;
  tick_interval = interval;
  time_since_last_tick = pos 0;
}

unfoldable pub calc_elapsed_time : Ticker → ℕ → Option ℤ
calc_elapsed_time t now = elim t.last_known_now [ none ↦ none | some last ↦ some (sub_ℕ now last) ]

-- The rest of `tick` on the elapsed time and the interval. A remainder by 0 is undefined.
unfoldable pub tick_by : Option ℤ → Option ℤ → Ticker → Outcome (Bool × Ticker)
tick_by none interval t = ok (true, record t { time_since_last_tick = pos 0 })
tick_by (some elapsed) none t = ok (true, record t { time_since_last_tick = pos 0 })
tick_by (some elapsed) (some interval) t =
    let since = t.time_since_last_tick +ℤ elapsed in
    if not (leb_ℤ interval since) then ok (false, record t { time_since_last_tick = since }) else do
      check (not (pos_part interval + neg_part interval == 0))
      ok (true, record t { time_since_last_tick = since rem interval })

unfoldable pub tick : Ticker → ℕ → Outcome (Bool × Ticker)
unfolding calc_elapsed_time tick_by
tick t now =
    tick_by (calc_elapsed_time t now) t.tick_interval (record t { last_known_now = some now })

unfoldable pub set_tick_interval : Ticker → ℤ → Ticker
set_tick_interval t interval = record t { tick_interval = some interval }

unfoldable pub clear_tick_interval : Ticker → Ticker
clear_tick_interval t = record t { tick_interval = none }
