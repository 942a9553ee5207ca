-- ===== src/NetBsdClock/Init.antt =====
-- `initclocks` and `kern.clockrate`: the rates of the clocks.
use native.Mathlib.Nat.{div-mul-le_self, le-div_iff_mul-le}
use udproxy.Base.{
  ℕ, ◌*◌, ◌/◌, ◌≤◌, ◌<◌, ◌≡◌, ◌↔◌, refl, arith, true, false, ◌||◌, leb, ◌⊎◌, not, Option, none,
  some, if◌then◌else◌, ◌==◌, Bool-cases, inl, inr,
}
use udproxy.NetBsdClock.Profile.{divider}

-- The globals that `initclocks` sets.
pub record Setup : Type 0 where
  pub tick : ℕ
  pub tickadj : ℕ
  pub psdiv : ℕ
  pub profhz : ℕ
  pub psratio : ℕ
  pub hardscheddiv : ℕ

-- The rate that the statistics are taken at.
unfoldable pub stat_rate : (hz stathz : ℕ) → ℕ
stat_rate hz stathz = if stathz == 0 then hz else stathz

-- `old_hz` is `hz` before the machine's own start, `cpu_initclocks`; `hz`, `stathz`, `schedhz` and what
-- `s` holds are as that leaves them. `none` is the panic "hardscheddiv".
unfoldable pub initclocks : (old_hz hz stathz schedhz : ℕ) → Setup → Option Setup
initclocks old_hz hz stathz schedhz s =
    let i = stat_rate hz stathz in
    let adj = 240000 / (60 * hz) in
    let profhz = if s.profhz == 0 then i else s.profhz in
    let s1 = record s {
      tick = (if old_hz == hz then s.tick else 1000000 / hz);
      tickadj = (if old_hz == hz then s.tickadj else if adj == 0 then 1 else adj);
      psdiv = 1;
      profhz = profhz;
      psratio = profhz / i;
    } in
    if not (schedhz == 0)
    then some s1
    else if hz / 16 == 0
    then none
    else some (record s1 { hardscheddiv = hz / 16 })

-- `struct clockinfo`.
pub record ClockInfo : Type 0 where
  pub tick : ℕ
  pub tickadj : ℕ
  pub hz : ℕ
  pub profhz : ℕ
  pub stathz : ℕ

unfoldable pub sysctl_kern_clockrate : (hz stathz : ℕ) → Setup → ClockInfo
sysctl_kern_clockrate hz stathz s = record {
  tick = s.tick;
  tickadj = s.tickadj;
  hz = hz;
  profhz = s.profhz;
  stathz = stat_rate hz stathz;
}

-- What the rates are good for: the statistics clock is divided by one at least and runs as often as is
-- reported, and the divider is the one that fits no profiled process.
pub record Works (hz stathz : ℕ) (s : Setup) : Type 0 where
  positive_ratio : 0 < s.psratio
  no_faster :
      s.psratio * (sysctl_kern_clockrate hz stathz s).stathz
      ≤ (sysctl_kern_clockrate hz stathz s).profhz
  fits : s.psdiv ≡ divider stathz s.psratio 0

rate_pos : (hz stathz : ℕ) → 0 < hz → 0 < stat_rate hz stathz
unfolding stat_rate
rate_pos hz stathz pos = ground arith

le_div : (x k y : ℕ) → 0 < k → (x ≤ y / k) ↔ (x * k ≤ y)
le_div x k y pos = le-div_iff_mul-le pos

-- The rate that profiling is set to.
abbrev profiles_at : (i profhz : ℕ) → ℕ
profiles_at i profhz = if profhz == 0 then i else profhz

ratio_pos :
    (i profhz : ℕ) → 0 < i → ((profhz == 0) || leb i profhz) ≡ true → 0 < profiles_at i profhz / i
ratio_pos i profhz pos h = ground (arith, le_div 1 i (profiles_at i profhz) pos)

-- With a positive `hz`, a profiling rate that is 0 or not below the statistics' rate, and a scheduling
-- clock of its own or an `hz` from 16 on, `initclocks` does not panic: the ratio is positive, the
-- profiling rate that is reported is at least that often the statistics' rate, the divider fits, and
-- without a scheduling clock the interrupt counts down from a positive number.
pub initclocks-Works :
    (old_hz hz stathz schedhz : ℕ) (s : Setup)
    → 0 < hz
    → ((s.profhz == 0) || leb (stat_rate hz stathz) s.profhz) ≡ true
    → (not (schedhz == 0) || leb 16 hz) ≡ true
    → (s' : Setup) × (initclocks old_hz hz stathz schedhz s ≡ some s')
      × Works hz stathz s'
      × (((schedhz == 0) ≡ false) ⊎ (0 < s'.hardscheddiv))
unfolding initclocks sysctl_kern_clockrate divider
initclocks-Works old_hz hz stathz schedhz s pos prof sched =
    let i = stat_rate hz stathz in
    let ratio = ratio_pos i s.profhz (rate_pos hz stathz pos) prof in
    let bound = div-mul-le_self (profiles_at i s.profhz) i in
    elim (Bool-cases (schedhz == 0)) [
      | inr q ↦
          rw q
            (_, refl, record { positive_ratio = ratio; no_faster = bound; fits = refl }, inl refl)
      | inl q ↦
          let enough : (hz / 16 == 0) ≡ false = ground arith in
          rw (q, enough)
            (
              _,
              refl,
              record { positive_ratio = ratio; no_faster = bound; fits = refl },
              inr (ground arith),
            )
    ]
