-- ===== src/PdpClock/Account.antt =====
-- What a clock tick charges: `hardclock`'s accounting, `gatherstats`, the time of day, `profil` and `hzto`.
-- A `long` is its two's complement, a number below 2 ^ 32.
pub mod Timers
pub mod Clock
pub mod Hzto
use udproxy.Base.{
  ℕ, suc, ◌+◌, ◌-◌, ◌*◌, ◌/◌, ◌%◌, ◌^◌, Bool, true, false, ◌&&◌, ◌||◌, not, List, [], ◌∷◌, ◌++◌,
  if◌then◌else◌, ltb, leb, ◌==◌,
}
use udproxy.PdpClock.{positive, less, minus, plus}

-- Signed order on a `long`.
abbrev pub less_long : ℕ → ℕ → Bool
less_long a b = ltb ((a + 2 ^ 31) % 2 ^ 32) ((b + 2 ^ 31) % 2 ^ 32)

abbrev pub plus_long : ℕ → ℕ → ℕ
plus_long a b = (a + b) % 2 ^ 32

-- An `int` as a `long`.
abbrev pub to_long : ℕ → ℕ
to_long n = if ltb n 32768 then n else n + (2 ^ 32 - 65536)

-- What the machine's headers define: the tests of the processor status, and NZERO.
pub record Machine : Type 0 where
  pub usermode : ℕ → Bool
  pub basepri : ℕ → Bool
  pub nzero : ℕ

pub data Signal : Type 0 where
  sigvtalrm : Signal
  sigxcpu : Signal
  sigprof : Signal

pub record Timer : Type 0 where
  pub it_value : ℕ
  pub it_interval : ℕ

-- Of `struct user`: the profile, the times and the limits.
pub record User : Type 0 where
  pub pr_base : ℕ
  pub pr_size : ℕ
  pub pr_off : ℕ
  pub pr_scale : ℕ
  pub ru_utime : ℕ
  pub ru_stime : ℕ
  pub timer_virtual : Timer
  pub timer_prof : Timer
  pub rlim_cur : ℕ
  pub rlim_max : ℕ

-- Of `struct proc`.
pub record Proc : Type 0 where
  pub p_cpu : ℕ
  pub p_nice : ℕ
  pub p_uid : ℕ

-- The timer after a tick, and whether it has run out.
unfoldable pub timer_tick : Timer → Timer × Bool
timer_tick t =
    let left = t.it_value - 1 in
    if t.it_value == 0
    then (t, false)
    else if left == 0
    then (record t { it_value = t.it_interval }, true)
    else (record t { it_value = left }, false)

abbrev signal_if : Bool → Signal → List Signal
signal_if b s = if b then s ∷ [] else []

-- The charge by the mode: the user, the signals sent, and `needsoft`.
unfoldable pub charge_mode : (usermode noproc : Bool) → User → User × List Signal × Bool
charge_mode true noproc u =
    let (timer, expired) = timer_tick u.timer_virtual in
    (
      record u { ru_utime = plus_long u.ru_utime 1; timer_virtual = timer },
      signal_if expired sigvtalrm,
      not (u.pr_scale == 0),
    )
charge_mode false true u = (u, [], false)
charge_mode false false u = (record u { ru_stime = plus_long u.ru_stime 1 }, [], false)

unfoldable pub over_limit : User → Bool
over_limit u = less_long u.rlim_cur (plus_long (plus_long u.ru_utime u.ru_stime) 1)

unfoldable pub raise_limit : (hz : ℕ) → User → User
raise_limit hz u =
    if less_long u.rlim_cur u.rlim_max
    then (record u { rlim_cur = plus_long u.rlim_cur (to_long (5 * hz % 65536)) })
    else u

-- The charge of the scheduled process, where there is one.
unfoldable pub charge_process : (noproc : Bool) (hz : ℕ) → User → Proc → User × Proc × List Signal
charge_process true hz u p = (u, p, [])
charge_process false hz u p =
    let cpu = (p.p_cpu + 1) % 256 in
    let over = over_limit u in
    let (timer, expired) = timer_tick u.timer_prof in
    let limited = if over then raise_limit hz u else u in
    (
      record limited { timer_prof = timer },
      record p { p_cpu = (if cpu == 0 then 255 else cpu) },
      signal_if over sigxcpu ++ signal_if expired sigprof,
    )

pub record CpTime : Type 0 where
  pub cp_user : ℕ
  pub cp_nice : ℕ
  pub cp_sys : ℕ
  pub cp_idle : ℕ

pub record Stats : Type 0 where
  pub cp_time : CpTime
  pub dk_busy : ℕ
  pub dk_time : List ℕ

-- The drives from the one numbered `s` on.
unfoldable pub charge_drives : (dk_busy s : ℕ) → List ℕ → List ℕ
charge_drives dk_busy s [] = []
charge_drives dk_busy s (t ∷ ts) =
    (if dk_busy / 2 ^ s % 2 == 1 then plus_long t 1 else t) ∷ charge_drives dk_busy (suc s) ts

-- The state of the processor is charged: nice, user, idle or system.
unfoldable pub charge_state : (m : Machine) (noproc : Bool) (ps : ℕ) → Proc → CpTime → CpTime
charge_state m noproc ps p c =
    if m.usermode ps
    then (if less m.nzero p.p_nice
        then (record c { cp_nice = plus_long c.cp_nice 1 })
        else (record c { cp_user = plus_long c.cp_user 1 }))
    else if noproc && m.basepri ps
    then (record c { cp_idle = plus_long c.cp_idle 1 })
    else (record c { cp_sys = plus_long c.cp_sys 1 })

unfoldable pub gatherstats : (m : Machine) (noproc : Bool) (ps : ℕ) → Proc → Stats → Stats
gatherstats m noproc ps p s = record s {
  cp_time = charge_state m noproc ps p s.cp_time;
  dk_time = charge_drives s.dk_busy 0 s.dk_time;
}

-- `adjdelta`, `lbolt` and `time.tv_sec`.
pub record TimeOfDay : Type 0 where
  pub adjdelta : ℕ
  pub lbolt : ℕ
  pub tv_sec : ℕ

-- A step of the adjustment.
unfoldable pub adjust : TimeOfDay → TimeOfDay
adjust t =
    if t.adjdelta == 0
    then t
    else if positive t.adjdelta
    then (record t { lbolt = plus t.lbolt 1; adjdelta = minus t.adjdelta 1 })
    else (record t { lbolt = minus t.lbolt 1; adjdelta = plus t.adjdelta 1 })

unfoldable pub count_tick : (hz : ℕ) → TimeOfDay → TimeOfDay
count_tick hz t =
    let lbolt' = plus t.lbolt 1 in
    if less lbolt' hz
    then (record t { lbolt = lbolt' })
    else (record t { lbolt = minus lbolt' hz; tv_sec = plus_long t.tv_sec 1 })

unfoldable pub advance_time : (hz : ℕ) → TimeOfDay → TimeOfDay
advance_time hz t = count_tick hz (adjust t)

-- The system call's arguments are the profile.
unfoldable pub profil : (bufbase bufsize pcoffset pcscale : ℕ) → User → User
profil bufbase bufsize pcoffset pcscale u = record u {
  pr_base = bufbase;
  pr_size = bufsize;
  pr_off = pcoffset;
  pr_scale = pcscale;
}

-- C's division of a `long` by a positive number: towards zero.
abbrev pub quotient_long : ℕ → ℕ → ℕ
quotient_long a d = if ltb a (2 ^ 31) then a / d else (2 ^ 32 - (2 ^ 32 - a) / d) % 2 ^ 32

abbrev pub minus_long : ℕ → ℕ → ℕ
minus_long a b = (a + 2 ^ 32 - b) % 2 ^ 32

-- `ticks`, by the size of the seconds left.
unfoldable pub hzto_ticks : (hz sec usec : ℕ) → ℕ
hzto_ticks hz sec usec =
    if not (less_long 2146483 sec)
    then quotient_long (plus_long (sec * 1000 % 2 ^ 32) (quotient_long usec 1000)) (1000 / hz)
    else if not (less_long (2147483647 / hz) sec)
    then sec * hz % 2 ^ 32
    else 2147483647

-- `hzto` of the given time, now being the other, as built for the PDP-11.
unfoldable pub hzto : (hz tv_sec tv_usec now_sec now_usec : ℕ) → ℕ
unfolding hzto_ticks
hzto hz tv_sec tv_usec now_sec now_usec =
    let ticks = hzto_ticks hz (minus_long tv_sec now_sec) (minus_long tv_usec now_usec) in
    if less_long 32767 ticks then 32767 else ticks % 65536
