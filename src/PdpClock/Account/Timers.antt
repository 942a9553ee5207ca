-- ===== src/PdpClock/Account/Timers.antt =====
-- The interval timers of a process over a run of ticks.
use native.Mathlib.Nat.{suc-mul}
use udproxy.Base.{ℕ, zero, suc, ◌+◌, ◌-◌, ◌*◌, ◌≤◌, ◌<◌, ◌≡◌, ◌∙◌, ap, refl, arith, if◌then◌else◌}
use udproxy.PdpClock.Account.{Timer, timer_tick}

-- The timer after that many ticks, and how often it has run out.
unfoldable pub run_timer : ℕ → Timer → Timer × ℕ
run_timer zero t = (t, 0)
run_timer (suc n) t =
    let (t', expired) = timer_tick t in
    let (t'', count) = run_timer n t' in (t'', (if expired then 1 else 0) + count)

abbrev timer_of : ℕ → ℕ → Timer
timer_of v i = record { it_value = v; it_interval = i }

abbrev counted : Timer × ℕ → Timer × ℕ
counted r = (r.0, suc r.1)

run_quiet : (j v v' i : ℕ) → v ≡ v' + j → 0 < v' → run_timer j (timer_of v i) ≡ (timer_of v' i, 0)
unfolding run_timer timer_tick
run_quiet zero v v' i e pos = ground arith
run_quiet (suc j) v v' i e pos = ground (arith, run_quiet j (v - 1) v' i (omega arith) pos)

run_expire :
    (m v n i : ℕ)
    → m ≡ v + n
    → run_timer (suc m) (timer_of (suc v) i) ≡ counted (run_timer n (timer_of i i))
unfolding run_timer timer_tick
run_expire m zero n i e = let same : m ≡ n = omega arith in rw same (ground arith)
run_expire zero (suc v) n i e = absurd (omega arith)
run_expire (suc m) (suc v) n i e = ground (arith, run_expire m v n i (omega arith))

suc_add : (v n : ℕ) → suc v + n ≡ suc (v + n)
suc_add v n = omega arith

next_period : (k i j : ℕ) → suc k * suc i + j ≡ suc i + (k * suc i + j)
next_period k i j = ground (arith, suc-mul k (suc i))

run_within :
    (i j : ℕ) → j ≤ i → run_timer j (timer_of (suc i) (suc i)) ≡ (timer_of (suc i - j) (suc i), 0)
run_within i j h = run_quiet j (suc i) (suc i - j) (suc i) (omega arith) (omega arith)

-- A timer with the value `suc v` and the interval `suc i` runs out at the tick `suc v` and then each
-- `suc i` ticks, not between: `j` ticks behind the last of `suc k` times, it has run out `suc k` times
-- and has the value `suc i - j`.
pub run_timer-periods :
    (k v i j : ℕ)
    → j ≤ i
    → run_timer (suc v + (k * suc i + j)) (timer_of (suc v) (suc i))
      ≡ (timer_of (suc i - j) (suc i), suc k)
run_timer-periods zero v i j h =
    rw (suc_add v (0 * suc i + j))
      (run_expire (v + (0 * suc i + j)) v j (suc i) (omega arith) ∙ ap counted (run_within i j h))
run_timer-periods (suc k) v i j h =
    rw (suc_add v (suc k * suc i + j), next_period k i j)
      (run_expire (v + (suc i + (k * suc i + j))) v (suc i + (k * suc i + j)) (suc i) refl
        ∙ ap counted (run_timer-periods k i i j h))
