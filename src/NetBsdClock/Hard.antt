-- ===== src/NetBsdClock/Hard.antt =====
-- The real-time clock, `hardclock`, with the notices that the VAX's sends to the panel's client.
pub mod Notify
pub mod Primary
pub mod Run
use udproxy.Base.{
  ℕ, ◌+◌, ◌-◌, ◌*◌, ◌/◌, ◌%◌, ◌^◌, Bool, true, false, ◌&&◌, ◌||◌, not, Option, none, some, List, [],
  ◌∷◌, ◌++◌, if◌then◌else◌, ltb, ◌==◌,
}
use udproxy.NetBsdClock.{increment, decrement, positive, Frame, clockrnd_sample}
use udproxy.NetBsdClock.Stat.{Spc, Proc, Rates, Charged, statclock}
use udproxy.NetBsdClock.Hard.Notify.{Process, Notification, Sent, panel_update_tick}

-- A processor: whether it is the first of its package, and the primary one.
pub record Cpu : Type 0 where
  pub package1st : Bool
  pub primary : Bool
  pub spc_schedticks : ℕ
  pub spc_ticks : ℕ
  pub spc : Spc

-- The state of the clocks. `panel` is `panel.ps_frame`.
pub record Clocks : Type 0 where
  pub needed : ℕ
  pub stat_needed : ℕ
  pub schedhz : ℕ
  pub hardscheddiv : ℕ
  pub hardclock_ticks : ℕ
  pub panel : Option ℕ
  pub rates : Rates

-- What the interrupt calls.
pub data Call : Type 0 where
  rnd_add : Call
  ptimer_tick : (usermode : Bool) → Call
  sched_schedclock : Call
  sched_tick : Call
  tc_ticktock : Call
  callout_hardclock : Call

-- `schedclock` of the idle thread does nothing.
unfoldable pub schedclock : (p : Option Proc) → List Call
schedclock none = []
schedclock (some p) = sched_schedclock ∷ []

abbrev when : Bool → List Call → List Call
when b cs = if b then cs else []

-- The countdown to `schedclock`, where no clock of its own calls it.
unfoldable pub sched_part : Clocks → Option Proc → Cpu → Cpu × List Call
sched_part k p c =
    let left = decrement c.spc_schedticks in
    if not (k.schedhz == 0)
    then (c, [])
    else if positive left
    then (record c { spc_schedticks = left }, [])
    else (record c { spc_schedticks = k.hardscheddiv }, schedclock p)

-- What the primary processor does besides.
unfoldable pub primary_part : Cpu → Clocks → Clocks × List Call
primary_part c k =
    if c.primary
    then (record k { hardclock_ticks = increment k.hardclock_ticks }, tc_ticktock ∷ [])
    else (k, [])

-- Up to the statistics: the sample, the timer's call and the panel's copy of the frame.
unfoldable pub first_part : Frame → Cpu → Clocks → Clocks × List Call
first_part frame c k =
    let (needed, sampled) = clockrnd_sample c.package1st c.primary k.needed in
    (
      record k { needed = needed; panel = (if c.primary then some frame.content else k.panel) },
      when sampled (rnd_add ∷ []) ++ ptimer_tick frame.usermode ∷ [],
    )

-- `statclock` where no statistics clock calls it: what it leaves of the processor and asks for.
unfoldable pub stat_part : Frame → Option Proc → Cpu → Clocks → Option (Spc × Option Proc × ℕ)
stat_part frame p c k =
    if k.rates.stathz == 0
    then (elim (statclock c.package1st c.primary k.rates frame k.stat_needed c.spc p) [
      | none ↦ none
      | some r ↦ some (r.0.0, r.0.1, r.1)
    ])
    else some (c.spc, p, k.stat_needed)

-- Behind the statistics.
unfoldable pub last_part : Option Proc → Cpu → Clocks → Clocks × Cpu × List Call
last_part p c k =
    let (c2, sched) = sched_part k p c in
    let ticks = decrement c2.spc_ticks in
    let (k2, ticked) = primary_part c k in
    (
      k2,
      record c2 { spc_ticks = ticks },
      sched ++ when (not (positive ticks)) (sched_tick ∷ []) ++ ticked ++ callout_hardclock ∷ [],
    )

-- The interrupt on one processor with its thread's process; `none` where `statclock` fails.
unfoldable pub hardclock :
    Frame → Option Proc → Clocks × Cpu → Option (Clocks × Cpu × Option Proc × List Call)
hardclock frame p (k, c) =
    let (k1, before) = first_part frame c k in
    elim (stat_part frame p c k1) [
      | none ↦ none
      | some r ↦
          let (k2, c2, behind) =
            last_part p (record c { spc = r.0 }) (record k1 { stat_needed = r.2 }) in
          some (k2, c2, r.1, before ++ behind)
    ]

-- Of the VAX: the same, with the client's notice on the primary processor.
unfoldable pub hardclock_vax :
    Frame
    → Option Proc
    → List Process
    → Clocks × Cpu
    → Notification
    → Option ((Clocks × Cpu × Option Proc × List Call) × Notification × Sent)
hardclock_vax frame p allproc s n =
    let (n', sent) =
      if◌then◌else◌ {A = Notification × Sent} s.1.primary (panel_update_tick allproc n) (n, none) in
    elim (hardclock frame p s) [ none ↦ none | some r ↦ some (r, n', sent) ]
