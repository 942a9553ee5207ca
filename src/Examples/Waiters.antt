-- ===== src/Examples/Waiters.antt =====
-- Callers of `sys_wait_for_panel`.
use udproxy.Base.{List, [], ◌∷◌}
use udproxy.PdpClock.Waiters.{outside, asleep, Waiting, Event, interrupt, enters, signal, turn}

-- Two processes that sleep, one that calls behind a turn of the first, and a signal.
abbrev two_sleepers : Waiting
two_sleepers = record {
  panel_seq = 65535;
  last_seq = 65535;
  callers = asleep ∷ asleep ∷ outside ∷ [];
}

abbrev morning : List Event
morning = interrupt ∷ turn 0 1 ∷ enters 2 ∷ turn 2 0 ∷ turn 1 0 ∷ signal 2 ∷ turn 2 0 ∷ []
