-- ===== src/PdpClock/Waiters/Answers.antt =====
-- How many callers go on, and with what.
use udproxy.Base.{ℕ, zero, suc, ◌+◌, Option, none, some, List, [], ◌∷◌, if◌then◌else◌, ◌==◌}
use udproxy.PdpClock.Waiters.{Waiting, Event, interrupt, enters, signal, turn, run}

-- The interrupts of the clock among the events.
unfoldable pub interrupts_of : List Event → ℕ
interrupts_of [] = 0
interrupts_of (interrupt ∷ es) = 1 + interrupts_of es
interrupts_of (enters i ∷ es) = interrupts_of es
interrupts_of (signal i ∷ es) = interrupts_of es
interrupts_of (turn i ticks ∷ es) = ticks + interrupts_of es

-- Whether a number is there that nobody was returned.
pending : Waiting → ℕ
pending s = if s.last_seq == s.panel_seq then 0 else 1

abbrev pub many : Option ℕ → ℕ
many none = 0
many (some n) = 1

-- The rest of a run behind a step.
abbrev go_on : List Event → Waiting × Option ℕ → Waiting × List ℕ
go_on es r = ((run es r.0).0, elim r.1 [ none ↦ (run es r.0).1 | some n ↦ n ∷ (run es r.0).1 ])

-- The turns of `m` processes from the one with number `i` on, with no interrupt in between.
unfoldable pub turns : (i m : ℕ) → List Event
turns i zero = []
turns i (suc m) = turn i 0 ∷ turns (suc i) m
