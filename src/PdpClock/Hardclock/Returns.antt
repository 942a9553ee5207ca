-- ===== src/PdpClock/Hardclock/Returns.antt =====
-- What a whole clock interrupt does.
use udproxy.Base.{
  ℕ, suc, ◌+◌, ◌%◌, ◌<◌, ◌≤◌, ◌≡◌, ◌∙◌, ap, refl, arith, ◌&&◌, List, [], ◌∷◌, ◌++◌, length,
  Bool-cases, inl, inr,
}
use udproxy.PdpClock.Callout.{Callout, Called, Op, Soft, done, panics, starved, tick, softclock}
use udproxy.PdpClock.Callout.View.{view, IsQueue, IsFresh, tick-view}
use udproxy.PdpClock.Callout.Pool.{entries}
use udproxy.PdpClock.Callout.Softclock.{due_count, arms_of, Serves, softclock-Serves}
use udproxy.PdpClock.Address.{decode_phys_addr}
use udproxy.PdpClock.Account.{Machine, Signal, charge_mode, charge_process}
use udproxy.PdpClock.Hardclock.{
  Kernel, Event, signalled, wakeup_panel, profiled, setpri, signals, hard_part, soft_tail, Hard,
  returns, halts, unfinished, after_soft, hardclock, update_panel,
}

-- How often the panel's sleepers are woken.
unfoldable pub wakeups : List Event → ℕ
wakeups [] = 0
wakeups (signalled s ∷ es) = wakeups es
wakeups (wakeup_panel ∷ es) = suc (wakeups es)
wakeups (profiled pc ∷ es) = wakeups es
wakeups (setpri ∷ es) = wakeups es

wakeups-append : (es fs : List Event) → wakeups (es ++ fs) ≡ wakeups es + wakeups fs
unfolding wakeups
wakeups-append [] fs = omega arith
wakeups-append (signalled s ∷ es) fs = wakeups-append es fs
wakeups-append (wakeup_panel ∷ es) fs = omega (arith, wakeups-append es fs)
wakeups-append (profiled pc ∷ es) fs = wakeups-append es fs
wakeups-append (setpri ∷ es) fs = wakeups-append es fs

wakeups-signals : (ss : List Signal) → wakeups (signals ss) ≡ 0
unfolding wakeups
wakeups-signals [] = refl
wakeups-signals (s ∷ ss) = wakeups-signals ss

length-tick : (ps : List Callout) → length (tick ps).0 ≡ length ps
unfolding tick
length-tick [] = refl
length-tick (p ∷ ps) = ground (arith, length-tick ps)

-- The panel shows the interrupted program and has a new number.
pub record Shows (apr_regs : ℕ → ℕ) (pc ps r0 : ℕ) (k k' : Kernel) : Type 0 where
  address : k'.panel.ps_address ≡ decode_phys_addr apr_regs pc ps
  data_word : k'.panel.ps_data ≡ r0 % 65536
  status : k'.panel.ps_psw ≡ ps % 65536
  number : k'.panel_seq ≡ (k.panel_seq + 1) % 65536

-- The tail of `softclock` leaves the panel and the queue as they are, and wakes nobody.
abbrev Quiet : Kernel → Kernel × List Event → Type 0
Quiet k r =
    (r.0.panel ≡ k.panel)
    × (r.0.panel_seq ≡ k.panel_seq)
    × (r.0.callouts ≡ k.callouts)
    × (wakeups r.1 ≡ 0)

soft_tail-Quiet : (m : Machine) (hz pc ps : ℕ) (k : Kernel) → Quiet k (soft_tail m hz pc ps k)
unfolding soft_tail wakeups
soft_tail-Quiet m hz pc ps k = ground arith

hard_part-Shows :
    (m : Machine) (hz : ℕ) (apr_regs : ℕ → ℕ) (pc ps r0 : ℕ) (k : Kernel)
    → Shows apr_regs pc ps r0 k (hard_part m hz apr_regs pc ps r0 k).0
unfolding hard_part update_panel
hard_part-Shows m hz apr_regs pc ps r0 k = record {
  address = refl;
  data_word = refl;
  status = refl;
  number = refl;
}

hard_part-wakeups :
    (m : Machine) (hz : ℕ) (apr_regs : ℕ → ℕ) (pc ps r0 : ℕ) (k : Kernel)
    → wakeups (hard_part m hz apr_regs pc ps r0 k).1 ≡ 1
unfolding hard_part wakeups
hard_part-wakeups m hz apr_regs pc ps r0 k =
    let (user, ticked, profile) = charge_mode (m.usermode ps) k.noproc k.user in
    let (user', proc, charged) = charge_process k.noproc hz user k.proc in
    let ss = ticked ++ charged in
    wakeups-append (signals ss) (wakeup_panel ∷ []) ∙ ap (λ n. n + 1) (wakeups-signals ss)

hard_part-callouts :
    (m : Machine) (hz : ℕ) (apr_regs : ℕ → ℕ) (pc ps r0 : ℕ) (k : Kernel)
    → let c = (hard_part m hz apr_regs pc ps r0 k).0.callouts in
      (entries c ≡ entries k.callouts) × (c.todo ≡ (tick k.callouts.todo).0)
unfolding hard_part update_panel entries
hard_part-callouts m hz apr_regs pc ps r0 k =
    (ap (λ n. n + length k.callouts.callfree) (length-tick k.callouts.todo), refl)

-- How the interrupt ends: it returns, with the panel of the interrupted program, one wake-up, a valid
-- queue and no entry lost.
abbrev pub Ends : (apr_regs : ℕ → ℕ) (pc ps r0 : ℕ) → Kernel → Hard → Type 0
Ends apr_regs pc ps r0 k (returns k' es ks) =
    Shows apr_regs pc ps r0 k k'
    × (wakeups es ≡ 1)
    × IsQueue 0 k'.callouts.todo
    × (entries k'.callouts ≡ entries k.callouts)
Ends apr_regs pc ps r0 k (halts ks) = ⊥
Ends apr_regs pc ps r0 k unfinished = ⊥

after_soft-Ends :
    (m : Machine) (hz : ℕ) (apr_regs : ℕ → ℕ) (pc ps r0 : ℕ) (k k' : Kernel) (es : List Event)
    (r : Soft)
    → Shows apr_regs pc ps r0 k k'
    → wakeups es ≡ 1
    → entries k'.callouts ≡ entries k.callouts
    → Serves k'.callouts r
    → Ends apr_regs pc ps r0 k (after_soft m hz pc ps k' es r)
after_soft-Ends m hz apr_regs pc ps r0 k k' es (done c ks) shows one same (q, idle, kept, few) =
    let k'' = record k' { callouts = c } in
    let (panel, number, callouts, none_woken) = soft_tail-Quiet m hz pc ps k'' in
    (
      record {
        address = ap (λ p. p.ps_address) panel ∙ shows.address;
        data_word = ap (λ p. p.ps_data) panel ∙ shows.data_word;
        status = ap (λ p. p.ps_psw) panel ∙ shows.status;
        number = number ∙ shows.number;
      },
      omega (arith, wakeups-append es (soft_tail m hz pc ps k'').1),
      rw callouts q,
      ap entries callouts ∙ kept ∙ same,
    )
after_soft-Ends m hz apr_regs pc ps r0 k k' es (panics ks) shows one same p = p
after_soft-Ends m hz apr_regs pc ps r0 k k' es starved shows one same p = p

-- With a valid queue in which no entry has been due for 32768 ticks, with functions that arm one timeout
-- each at most, and with fuel for more rounds than are due: the interrupt returns, without a panic. The
-- panel then has the decoded address of the program counter, the register r0 and the processor status,
-- and the next number; its sleepers are woken once; the queue is valid and has lost no entry.
pub hardclock-Ends :
    (m : Machine) (hz : ℕ) (apr_regs : ℕ → ℕ) (body : Called → List Op) (fuel : ℕ) (pc ps r0 : ℕ)
    (k : Kernel)
    → IsQueue 0 k.callouts.todo
    → IsFresh k.callouts.todo
    → ((c : Called) → arms_of (body c) ≤ 1)
    → due_count (view 0 (tick k.callouts.todo).0) < fuel
    → Ends apr_regs pc ps r0 k (hardclock m hz apr_regs body fuel pc ps r0 k)
unfolding hardclock
hardclock-Ends m hz apr_regs body fuel pc ps r0 k q fresh modest enough =
    let k' = (hard_part m hz apr_regs pc ps r0 k).0 in
    let es = (hard_part m hz apr_regs pc ps r0 k).1 in
    let shows = hard_part-Shows m hz apr_regs pc ps r0 k in
    let one = hard_part-wakeups m hz apr_regs pc ps r0 k in
    let (same, todo) = hard_part-callouts m hz apr_regs pc ps r0 k in
    let (nearer, valid, soft) = tick-view k.callouts.todo q fresh in
    let valid' : IsQueue 0 k'.callouts.todo = rw todo valid in
    elim (Bool-cases ((hard_part m hz apr_regs pc ps r0 k).2 && m.basepri ps)) [
      | inl e ↦ rw e (
          after_soft-Ends m hz apr_regs pc ps r0 k k' es (softclock body fuel k'.callouts) shows one
            same (softclock-Serves body fuel k'.callouts modest valid' (rw todo enough)))
      | inr e ↦ rw e (shows, one, valid', same)
    ]
