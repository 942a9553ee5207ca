-- ===== src/NetBsdClock/Stat.antt =====
-- `statclock` and `schedclock`: what an interrupt of the statistics clock charges, on one processor.
pub mod Period
use udproxy.Base.{
  ℕ, suc, ◌+◌, ◌-◌, ◌%◌, ◌^◌, Bool, true, false, ◌&&◌, ◌||◌, not, Option, none, some, List, [], ◌∷◌,
  ◌++◌, if◌then◌else◌, ltb, ◌==◌,
}
use udproxy.NetBsdClock.{increment, decrement, positive, Frame, clockrnd_sample}

abbrev pub increment_64 : ℕ → ℕ
increment_64 n = (n + 1) % 2 ^ 64

-- `spc_cp_time`.
pub record CpTime : Type 0 where
  pub cp_user : ℕ
  pub cp_nice : ℕ
  pub cp_sys : ℕ
  pub cp_intr : ℕ
  pub cp_idle : ℕ

-- What `statclock` uses of `struct schedstate_percpu`.
pub record Spc : Type 0 where
  pub spc_psdiv : ℕ
  pub spc_pscnt : ℕ
  pub cp_time : CpTime

-- What it uses of a process, and of its thread. `profil` is the flag PST_PROFIL, `nice` is p_nice > NZERO.
pub record Proc : Type 0 where
  pub profil : Bool
  pub nice : Bool
  pub p_uticks : ℕ
  pub p_sticks : ℕ
  pub p_iticks : ℕ
  pub l_cpticks : ℕ

pub data Event : Type 0 where
  setstatclockrate : ℕ → Event
  addupc_intr : (pc : ℕ) → Event

-- The globals it reads; `prof_clock` is `profsrc == PROFSRC_CLOCK`.
pub record Rates : Type 0 where
  pub stathz : ℕ
  pub profhz : ℕ
  pub psdiv : ℕ
  pub prof_clock : Bool

-- The change of the divider.
unfoldable pub notice : Rates → Spc → Spc × List Event
notice g s = if s.spc_psdiv == g.psdiv then (s, []) else (
  record s { spc_psdiv = g.psdiv; spc_pscnt = g.psdiv },
  setstatclockrate (if g.psdiv == 1 then g.stathz else g.profhz) ∷ [],
)

unfoldable pub charge_user : Proc → CpTime → Proc × CpTime
charge_user p c =
    let p' = record p { p_uticks = increment_64 p.p_uticks } in
    if p.nice
    then (p', record c { cp_nice = increment_64 c.cp_nice })
    else (p', record c { cp_user = increment_64 c.cp_user })

-- `none` is the idle thread, which has no process here.
unfoldable pub charge_kernel : (intr : Bool) → Option Proc → CpTime → Option Proc × CpTime
charge_kernel true none c = (none, record c { cp_intr = increment_64 c.cp_intr })
charge_kernel true (some p) c = (
  some (record p { p_iticks = increment_64 p.p_iticks }),
  record c { cp_intr = increment_64 c.cp_intr },
)
charge_kernel false (some p) c = (
  some (record p { p_sticks = increment_64 p.p_sticks }),
  record c { cp_sys = increment_64 c.cp_sys },
)
charge_kernel false none c = (none, record c { cp_idle = increment_64 c.cp_idle })

-- `++l->l_cpticks` for the process that is charged.
abbrev cpticked : Option Proc → Option Proc
cpticked none = none
cpticked (some p) = some (record p { l_cpticks = increment p.l_cpticks })

-- The state behind an interrupt: the processor's, the process's, and the events.
abbrev pub Charged : Type 0
Charged = Spc × Option Proc × List Event

-- Behind `notice`, in user mode.
unfoldable pub stat_user : Rates → Frame → Spc → Proc → Charged
stat_user g frame s p =
    let es = if p.profil && g.prof_clock then addupc_intr frame.pc ∷ [] else [] in
    let left = decrement s.spc_pscnt in
    let (p', c) = charge_user p s.cp_time in
    if positive left
    then (record s { spc_pscnt = left }, some p, es)
    else (record s { spc_pscnt = g.psdiv; cp_time = c }, cpticked (some p'), es)

unfoldable pub stat_kernel : Rates → Frame → Spc → Option Proc → Charged
stat_kernel g frame s p =
    let left = decrement s.spc_pscnt in
    let (p', c) = charge_kernel frame.intr p s.cp_time in
    if positive left
    then (record s { spc_pscnt = left }, p, [])
    else (record s { spc_pscnt = g.psdiv; cp_time = c }, cpticked p', [])

-- `statclock` behind its sample; `none` where the idle thread is said to be in user mode.
unfoldable pub stat_body : Rates → Frame → Spc → Option Proc → Option Charged
stat_body g frame s p =
    let (s', es) = notice g s in
    if frame.usermode
    then (elim p [
      | none ↦ none
      | some q ↦ let (s'', p', es') = stat_user g frame s' q in some (s'', p', es ++ es')
    ])
    else (let (s'', p', es') = stat_kernel g frame s' p in some (s'', p', es ++ es'))

-- With the samples that are still asked for, and whether one was entered.
unfoldable pub statclock :
    (package1st primary : Bool)
    → Rates
    → Frame
    → (needed : ℕ) → Spc
    → Option Proc
    → Option (Charged × ℕ × Bool)
statclock package1st primary g frame needed s p =
    let (needed', sampled) =
      if◌then◌else◌ {A = ℕ × Bool} (g.stathz == 0) (needed, false)
        (clockrnd_sample package1st primary needed) in
    elim (stat_body g frame s p) [ none ↦ none | some r ↦ some (r, needed', sampled) ]
