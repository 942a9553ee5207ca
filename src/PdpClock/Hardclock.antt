-- ===== src/PdpClock/Hardclock.antt =====
-- The clock interrupt, `hardclock`, and the tail of `softclock`.
pub mod Returns
use udproxy.Base.{
  ℕ, suc, ◌+◌, ◌-◌, ◌*◌, ◌/◌, ◌%◌, ◌^◌, Bool, true, false, ◌&&◌, ◌||◌, not, Option, none, some,
  List, [], ◌∷◌, ◌++◌, if◌then◌else◌, ltb, ◌==◌,
}
use udproxy.PdpClock.Callout.{Callouts, Called, Op, Soft, done, panics, starved, tick, softclock}
use udproxy.PdpClock.Address.{decode_phys_addr}
use udproxy.PdpClock.Account.{
  Machine, Signal, User, Proc, Stats, TimeOfDay, charge_mode, charge_process, gatherstats,
  advance_time, less_long, to_long,
}

-- `struct panel_state`, without the fields that the code does not set.
pub record Panel : Type 0 where
  pub ps_address : ℕ
  pub ps_data : ℕ
  pub ps_psw : ℕ

-- The globals and the user structure that the clock works on.
pub record Kernel : Type 0 where
  pub callouts : Callouts
  pub user : User
  pub proc : Proc
  pub noproc : Bool
  pub stats : Stats
  pub clock : TimeOfDay
  pub panel : Panel
  pub panel_seq : ℕ

-- What an interrupt does outside the clock's state.
pub data Event : Type 0 where
  signalled : Signal → Event
  wakeup_panel : Event
  profiled : (pc : ℕ) → Event
  setpri : Event

abbrev signals : List Signal → List Event
signals [] = []
signals (s ∷ ss) = signalled s ∷ signals ss

-- The panel's fields, the count and the wake-up.
unfoldable pub update_panel : (apr_regs : ℕ → ℕ) (pc ps r0 : ℕ) → Kernel → Kernel
update_panel apr_regs pc ps r0 k = record k {
  panel = record {
    ps_address = decode_phys_addr apr_regs pc ps;
    ps_data = r0 % 65536;
    ps_psw = ps % 65536;
  };
  panel_seq = (k.panel_seq + 1) % 65536;
}

-- `hardclock` up to the test of `needsoft`: the state, the events, and `needsoft`.
unfoldable pub hard_part :
    (m : Machine) (hz : ℕ) (apr_regs : ℕ → ℕ) (pc ps r0 : ℕ) → Kernel → Kernel × List Event × Bool
hard_part m hz apr_regs pc ps r0 k =
    let (todo, due) = tick k.callouts.todo in
    let (user, ticked, profile) = charge_mode (m.usermode ps) k.noproc k.user in
    let (user', proc, charged) = charge_process k.noproc hz user k.proc in
    (
      update_panel apr_regs pc ps r0 (record k {
        callouts = record { todo = todo; callfree = k.callouts.callfree };
        user = user';
        proc = proc;
        stats = gatherstats m k.noproc ps proc k.stats;
        clock = advance_time hz k.clock;
      }),
      signals (ticked ++ charged) ++ wakeup_panel ∷ [],
      due || profile,
    )

-- Behind the loop of `softclock`.
unfoldable pub soft_tail : (m : Machine) (hz pc ps : ℕ) → Kernel → Kernel × List Event
soft_tail m hz pc ps k =
    if m.usermode ps
    then (let p = k.proc in
        let profiles = if k.user.pr_scale == 0 then [] else profiled pc ∷ [] in
        if not (p.p_uid == 0)
          && (p.p_nice == m.nzero)
          && less_long (600 * to_long hz % 2 ^ 32) k.user.ru_utime
        then (
          record k { proc = record p { p_nice = (m.nzero + 4) % 65536 } },
          profiles ++ setpri ∷ [],
        )
        else (k, profiles))
    else (k, [])

-- How the interrupt ends: it returns, with the functions that it called, it panics, or the fuel is out.
pub data Hard : Type 0 where
  returns : Kernel → List Event → List Called → Hard
  halts : List Called → Hard
  unfinished : Hard

abbrev after_soft : (m : Machine) (hz pc ps : ℕ) → Kernel → List Event → Soft → Hard
after_soft m hz pc ps k es (done c ks) =
    let (k', es') = soft_tail m hz pc ps (record k { callouts = c }) in returns k' (es ++ es') ks
after_soft m hz pc ps k es (panics ks) = halts ks
after_soft m hz pc ps k es starved = unfinished

unfoldable pub hardclock :
    (m : Machine) (hz : ℕ) (apr_regs : ℕ → ℕ) (body : Called → List Op) (fuel : ℕ) (pc ps r0 : ℕ)
    → Kernel
    → Hard
hardclock m hz apr_regs body fuel pc ps r0 k =
    let (k', es, needsoft) = hard_part m hz apr_regs pc ps r0 k in
    if needsoft && m.basepri ps
    then after_soft m hz pc ps k' es (softclock body fuel k'.callouts)
    else returns k' es []
