-- ===== src/NetBsdClock/Stat/Period.antt =====
-- How often the statistics clock charges.
use native.Mathlib.Nat.{mul-suc}
use udproxy.Base.{
  ℕ, suc, ◌+◌, ◌*◌, ◌-◌, ◌^◌, ◌≤◌, ◌<◌, ◌≡◌, ◌∙◌, ap, refl, arith, Bool, true, false, not, Option,
  none, some, List, All, [], ◌∷◌, length, Bool-cases, inl, inr,
}
use udproxy.NetBsdClock.{decrement, positive, Frame}
use udproxy.NetBsdClock.Stat.{
  CpTime, Spc, Proc, Rates, notice, charge_user, charge_kernel, stat_user, stat_kernel, stat_body,
  Charged,
}

-- All the charges.
unfoldable pub total : CpTime → ℕ
total c = c.cp_user + c.cp_nice + c.cp_sys + c.cp_intr + c.cp_idle

user-total :
    (p : Proc) (c : CpTime) → total c + 1 < 2 ^ 64 → total (charge_user p c).1 ≡ suc (total c)
unfolding charge_user total
user-total p c h = elim (Bool-cases p.nice) [
  | inl e ↦ rw e (omega arith)
  | inr e ↦ rw e (omega arith)
]

kernel-total :
    (intr : Bool) (p : Option Proc) (c : CpTime)
    → total c + 1 < 2 ^ 64
    → total (charge_kernel intr p c).1 ≡ suc (total c)
unfolding charge_kernel total
kernel-total true none c h = omega arith
kernel-total true (some p) c h = omega arith
kernel-total false none c h = omega arith
kernel-total false (some p) c h = omega arith

-- The processor knows the divider `d`, and counts down from it.
abbrev pub IsReady : (d : ℕ) → Spc → Type 0
IsReady d s = (s.spc_psdiv ≡ d) × (0 < s.spc_pscnt) × (s.spc_pscnt ≤ d)

-- The interrupts so far: `d` for each charge, and those behind the last.
unfoldable pub progress : (d : ℕ) → Spc → ℕ
progress d s = d * total s.cp_time + (d - s.spc_pscnt)

-- One interrupt further.
abbrev Further : (d : ℕ) → Spc → Spc → Type 0
Further d s s' =
    IsReady d s' × (progress d s' ≡ suc (progress d s)) × (total s'.cp_time ≤ suc (total s.cp_time))

down-Further :
    (d : ℕ) (s : Spc)
    → d < 2 ^ 31
    → IsReady d s
    → positive (decrement s.spc_pscnt) ≡ true
    → Further d s (record s { spc_pscnt = decrement s.spc_pscnt })
unfolding progress
down-Further d s small (e, pos, le) q = ground arith

charge-Further :
    (d : ℕ) (s : Spc) (c : CpTime)
    → d < 2 ^ 31
    → IsReady d s
    → positive (decrement s.spc_pscnt) ≡ false
    → total c ≡ suc (total s.cp_time)
    → Further d s (record s { spc_pscnt = d; cp_time = c })
unfolding progress
charge-Further d s c small (e, pos, le) q one =
    ground (arith, ap (λ t. d * t) one ∙ mul-suc d (total s.cp_time))

stat_user-Further :
    (g : Rates) (frame : Frame) (s : Spc) (p : Proc)
    → g.psdiv < 2 ^ 31
    → IsReady g.psdiv s
    → total s.cp_time + 1 < 2 ^ 64
    → Further g.psdiv s (stat_user g frame s p).0
unfolding stat_user
stat_user-Further g frame s p small ready room =
    elim (Bool-cases (positive (decrement s.spc_pscnt))) [
      | inl q ↦ rw q (down-Further g.psdiv s small ready q)
      | inr q ↦ rw q (
          charge-Further g.psdiv s (charge_user p s.cp_time).1 small ready q
            (user-total p s.cp_time room))
    ]

stat_kernel-Further :
    (g : Rates) (frame : Frame) (s : Spc) (p : Option Proc)
    → g.psdiv < 2 ^ 31
    → IsReady g.psdiv s
    → total s.cp_time + 1 < 2 ^ 64
    → Further g.psdiv s (stat_kernel g frame s p).0
unfolding stat_kernel
stat_kernel-Further g frame s p small ready room =
    elim (Bool-cases (positive (decrement s.spc_pscnt))) [
      | inl q ↦ rw q (down-Further g.psdiv s small ready q)
      | inr q ↦ rw q (
          charge-Further g.psdiv s (charge_kernel frame.intr p s.cp_time).1 small ready q
            (kernel-total frame.intr p s.cp_time room))
    ]

-- The idle thread is never in user mode.
unfoldable pub is_possible : Frame × Option Proc → Bool
is_possible (frame, none) = not frame.usermode
is_possible (frame, some p) = true

pub stat_body-returns :
    (g : Rates) (frame : Frame) (s : Spc) (p : Option Proc)
    → is_possible (frame, p) ≡ true
    → (r : Charged) × (stat_body g frame s p ≡ some r)
unfolding stat_body is_possible
stat_body-returns g frame s none possible =
    let kernel : frame.usermode ≡ false = ground arith in rw kernel (_, refl)
stat_body-returns g frame s (some p) possible = elim (Bool-cases frame.usermode) [
  | inl e ↦ rw e (_, refl)
  | inr e ↦ rw e (_, refl)
]

-- A run of interrupts, each with its frame and its process.
unfoldable pub run_stat : Rates → List (Frame × Option Proc) → Spc → Option Spc
run_stat g [] s = some s
run_stat g (c ∷ cs) s = elim (stat_body g c.0 s c.1) [ none ↦ none | some r ↦ run_stat g cs r.0 ]

notice_same : (g : Rates) (s : Spc) → s.spc_psdiv ≡ g.psdiv → notice g s ≡ (s, [])
unfolding notice
notice_same g s e = ground arith

stat_body-Further :
    (g : Rates) (frame : Frame) (s : Spc) (p : Option Proc)
    → g.psdiv < 2 ^ 31
    → IsReady g.psdiv s
    → total s.cp_time + 1 < 2 ^ 64
    → is_possible (frame, p) ≡ true
    → (r : Charged) × (stat_body g frame s p ≡ some r) × Further g.psdiv s r.0
unfolding stat_body is_possible stat_kernel stat_user
stat_body-Further g frame s none small ready room possible =
    let kernel : frame.usermode ≡ false = ground arith in
    rw (kernel, notice_same g s ready.0)
      (stat_kernel g frame s none, refl, stat_kernel-Further g frame s none small ready room)
stat_body-Further g frame s (some p) small ready room possible = elim (Bool-cases frame.usermode) [
  | inl e ↦
      rw (e, notice_same g s ready.0)
        (stat_user g frame s p, refl, stat_user-Further g frame s p small ready room)
  | inr e ↦
      rw (e, notice_same g s ready.0)
        (
          stat_kernel g frame s (some p),
          refl,
          stat_kernel-Further g frame s (some p) small ready room,
        )
]

-- On a processor that knows the divider `d` and counts down from it, `d` below 2 ^ 31, with no counter
-- about to wrap and the idle thread never in user mode, over any run of interrupts: none fails, the
-- countdown stays between 1 and `d`, and `d` for each charge, with the interrupts behind the last
-- charge, is as many more as there were interrupts.
pub run_stat-progress :
    (g : Rates) (cs : List (Frame × Option Proc)) (s : Spc)
    → g.psdiv < 2 ^ 31
    → IsReady g.psdiv s
    → total s.cp_time + length cs < 2 ^ 64
    → All (λ c. is_possible c ≡ true) cs
    → (s' : Spc) × (run_stat g cs s ≡ some s')
      × IsReady g.psdiv s'
      × (progress g.psdiv s' ≡ progress g.psdiv s + length cs)
unfolding run_stat
run_stat-progress g [] s small ready room possible = (s, refl, ready, omega arith)
run_stat-progress g ((frame, p) ∷ cs) s small ready room (possible, rest) =
    let (r, e, f) = stat_body-Further g frame s p small ready (omega arith) possible in
    let (ready', more, one) = f in
    let (s', e', ready'', more') = run_stat-progress g cs r.0 small ready' (omega arith) rest in
    rw (e, run_stat) (s', e', ready'', omega arith)
