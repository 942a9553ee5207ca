-- ===== src/PdpClock/Waiters.antt =====
-- The callers of `sys_wait_for_panel` of socket/arch/211BSD/kern_clock.c. They share `panel_seq` and the
-- static `last_seq`. The kernel is left by a process only where it sleeps or returns, but the clock
-- interrupts it anywhere.
pub mod Answers
use udproxy.Base.{
  ℕ, zero, suc, ◌+◌, ◌%◌, Option, none, some, List, [], ◌∷◌, ◌++◌, map, if◌then◌else◌, ◌==◌,
}

-- A process: outside of the call, in front of the test of the loop, or in `tsleep`.
pub data Phase : Type 0 where
  outside : Phase
  ready : Phase
  asleep : Phase

pub record Waiting : Type 0 where
  pub panel_seq : ℕ
  pub last_seq : ℕ
  pub callers : List Phase

-- What happens: an interrupt of the clock, a call, a signal, and a turn of a process, in which the clock
-- interrupts `ticks` times between the test and what stands behind it.
pub data Event : Type 0 where
  interrupt : Event
  enters : ℕ → Event
  signal : ℕ → Event
  turn : (i ticks : ℕ) → Event

abbrev pub woken : Phase → Phase
woken outside = outside
woken ready = ready
woken asleep = ready

abbrev called : Phase → Phase
called outside = ready
called ready = ready
called asleep = asleep

unfoldable pub phase : ℕ → List Phase → Phase
phase i [] = outside
phase zero (p ∷ ps) = p
phase (suc i) (p ∷ ps) = phase i ps

unfoldable pub put : ℕ → Phase → List Phase → List Phase
put i q [] = []
put zero q (p ∷ ps) = q ∷ ps
put (suc i) q (p ∷ ps) = p ∷ put i q ps

-- `panel_seq++` and `wakeup` of the interrupt.
abbrev pub tick : Waiting → Waiting
tick s = record s { panel_seq = (s.panel_seq + 1) % 65536; callers = map woken s.callers }

unfoldable pub ticks_on : ℕ → Waiting → Waiting
ticks_on zero s = s
ticks_on (suc n) s = ticks_on n (tick s)

-- The test of the loop by process `i`, and then the sleep or the return: the state, and the result if it
-- returns. A signal that wakes it leads back to the test, since the result of `tsleep` is dropped.
unfoldable pub sys_wait_for_panel : (i ticks : ℕ) → Waiting → Waiting × Option ℕ
unfolding ticks_on put
sys_wait_for_panel i ticks s =
    let later = ticks_on ticks s in
    if s.last_seq == s.panel_seq
    then (record later { callers = put i asleep later.callers }, none)
    else (
      record later { last_seq = later.panel_seq; callers = put i outside later.callers },
      some later.panel_seq,
    )

unfoldable pub step : Event → Waiting → Waiting × Option ℕ
unfolding phase put ticks_on
step interrupt s = (tick s, none)
step (enters i) s = (record s { callers = put i (called (phase i s.callers)) s.callers }, none)
step (signal i) s = (record s { callers = put i (woken (phase i s.callers)) s.callers }, none)
step (turn i ticks) s = elim (phase i s.callers) [
  | outside ↦ (ticks_on ticks s, none)
  | ready ↦ sys_wait_for_panel i ticks s
  | asleep ↦ (ticks_on ticks s, none)
]

-- The events in order: the state, and what the callers are returned.
unfoldable pub run : List Event → Waiting → Waiting × List ℕ
unfolding step
run [] s = (s, [])
run (e ∷ es) s =
    let (t, answer) = step e s in
    let (u, answers) = run es t in (u, elim answer [ none ↦ answers | some n ↦ n ∷ answers ])
