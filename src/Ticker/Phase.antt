-- ===== src/Ticker/Phase.antt =====
-- When a ticker ticks: each time a multiple of the interval has passed since it was made.
use neptun.Common.{
  ℕ, ◌+◌, ◌-◌, ◌*◌, ◌/◌, ◌%◌, ◌≤◌, ◌<◌, ◌≡◌, refl, sym, ap, ◌∙◌, List, [], ◌∷◌, Bool, some, arith,
  ltb, ok, fault, Bool-cases, ltb→lt, ltb_false→le, inl, inr, Outcome, ◌>>=◌,
}
use neptun.Common.Int.{pos, sub_ℕ, ◌+ℤ◌, ◌rem◌}
use native.Mathlib.Nat.{
  mod-add-mod, div-add-mod', mul-add-div_right, mod-eq_of_lt, div-eq_of_lt, add-zero, zero-mod,
  le-div_iff_mul-le,
}
use neptun.Ticker.{Ticker, init, tick}

-- The ticker made at `start` with the interval `i`, at its last tick at `n`.
abbrev pub at : ℕ → ℕ → ℕ → Ticker
at start i n = record {
  last_known_now = some n;
  tick_interval = some (pos i);
  time_since_last_tick = pos ((n - start) % i);
}

-- A lapse of `d` after a phase `a % i` completes a round exactly if it reaches `i`.
div-add : (a d i : ℕ) → 0 < i → (a + d) / i ≡ a / i + (a % i + d) / i
div-add a d i h =
    let parts : a + d ≡ a / i * i + (a % i + d) = omega (arith, div-add-mod' a i) in
    ap (λ (t : ℕ). t / i) parts ∙ mul-add-div_right h (a / i) (a % i + d)

tick_step :
    (start i n now : ℕ)
    → 0 < i
    → start ≤ n
    → n ≤ now
    → tick (at start i n) now ≡ ok (ltb ((n - start) / i) ((now - start) / i), at start i now)
unfolding tick
tick_step start i n now h le le' =
    let a = n - start in
    let d = now - n in
    let r = a % i in
    let lapse : now - start ≡ a + d = omega arith in
    let sum : pos r +ℤ sub_ℕ now n ≡ pos (r + d) = unfold ◌+ℤ◌ in ground arith in
    let remainder : pos (r + d) rem pos i ≡ pos ((r + d) % i) =
      unfold ◌rem◌ in ground (arith, ap (λ (t : ℕ). (r + d) % t) (add-zero i), zero-mod (i + 0)) in
    let phase = mod-add-mod a i d in
    let rounds = div-add a d i h in
    rw (sum, lapse, rounds)
      (elim (Bool-cases (ltb (r + d) i)) [
        | inl less ↦
            let below = ltb→lt (r + d) i less in
            ground (arith, div-eq_of_lt below, mod-eq_of_lt below, phase)
        | inr more ↦
            let reached : 1 * i ≤ r + d = omega (arith, ltb_false→le (r + d) i more) in
            rw remainder (ground (arith, (le-div_iff_mul-le h).1 reached, phase))
      ])

-- All calls of `tick`, in order, and their results.
abbrev pub tick_all : Ticker → List ℕ → Outcome (List Bool × Ticker)
tick_all t [] = ok ([], t)
tick_all t (now ∷ times) = do
  (due, t') ← tick t now
  (rest, t'') ← tick_all t' times
  ok (due ∷ rest, t'')

-- The times do not go back.
abbrev pub InOrder : ℕ → List ℕ → Type 0
InOrder lo [] = Unit
InOrder lo (t ∷ ts) = (lo ≤ t) × InOrder t ts

-- Whether a multiple of the interval has passed since the call before.
abbrev pub crossings : ℕ → ℕ → ℕ → List ℕ → List Bool
crossings start i n [] = []
crossings start i n (now ∷ times) =
    ltb ((n - start) / i) ((now - start) / i) ∷ crossings start i now times

abbrev pub last_of : ℕ → List ℕ → ℕ
last_of n [] = n
last_of n (now ∷ times) = last_of now times

tick_all_from :
    (start i n : ℕ) (times : List ℕ)
    → 0 < i
    → start ≤ n
    → InOrder n times
    → tick_all (at start i n) times ≡ ok (crossings start i n times, at start i (last_of n times))
tick_all_from start i n [] h le o = refl
tick_all_from start i n (now ∷ times) h le o =
    rw (tick_step start i n now h le o.0, tick_all_from start i now times h (omega arith) o.1) refl

-- A ticker with a positive interval, called at times that do not go back, never faults. Each call
-- answers whether a multiple of the interval since the ticker was made has passed since the call
-- before, so late calls do not shift the rhythm.
pub tick_all_lem :
    (start i : ℕ) (times : List ℕ)
    → 0 < i
    → InOrder start times
    → tick_all (init start (some (pos i))) times
      ≡ ok (crossings start i start times, at start i (last_of start times))
unfolding init
tick_all_lem start i times h o =
    let none_yet : start - start ≡ 0 = omega arith in
    let zero_phase : (start - start) % i ≡ 0 = ap (λ (n : ℕ). n % i) none_yet ∙ zero-mod i in
    ap
      (λ (since : ℕ).
        tick_all
          (record {
            last_known_now = some start;
            tick_interval = some (pos i);
            time_since_last_tick = pos since;
          })
          times)
      (sym zero_phase)
    ∙ tick_all_from start i start times h (omega arith) o

-- With an interval of 0 every call faults, as soon as the clock has not gone back.
pub tick_zero : (start n now : ℕ) → n ≤ now → tick (at start 0 n) now ≡ fault
unfolding tick ◌+ℤ◌
tick_zero start n now le = ground arith
