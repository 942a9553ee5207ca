-- ===== src/Examples/Kernel.antt =====
-- The kernels' clocks at concrete inputs, through the theorems about them.
use Prim.Native.Nat.{min}
use udproxy.Base.{
  ℕ, ◌+◌, ◌/◌, ◌%◌, ◌^◌, ◌≤◌, ◌<◌, ◌≡◌, refl, arith, true, false, Option, none, some, List, [], ◌∷◌,
  ◌++◌, length, map, All, leb, ◌==◌, ◌||◌, if◌then◌else◌,
}
use udproxy.PdpClock.Callout.{
  Callout, Callouts, Called, Op, arm, tick, softclock, timeout, untimeout,
}
use udproxy.PdpClock.Callout.View.{view, IsQueue, IsFresh, remove_due}
use udproxy.PdpClock.Callout.Later.{ticks, later, lasts, IsLasting, ticks-view}
use udproxy.PdpClock.Callout.Pool.{entries, Arms, timeout-Arms, untimeout-view}
use udproxy.PdpClock.Callout.Softclock.{due_count, arms_of, Serves, softclock-Serves}
use udproxy.PdpClock.Address.{apr_index, decode_phys_addr}
use udproxy.PdpClock.Address.Mmu.{relocate, decode-relocate}
use udproxy.PdpClock.Account.{Machine, Timer, User, TimeOfDay, advance_time, hzto}
use udproxy.PdpClock.Account.Timers.{run_timer, run_timer-periods}
use udproxy.PdpClock.Account.Clock.{ticks_of, step_of, advance_time-ticks}
use udproxy.PdpClock.Account.Hzto.{hzto-min}
use udproxy.PdpClock.Hardclock as Pdp
use udproxy.PdpClock.Hardclock.{Kernel}
use udproxy.PdpClock.Hardclock.Returns.{Ends, hardclock-Ends}
use udproxy.NetBsdClock.{Frame}
use udproxy.NetBsdClock.Profile.{
  Profiling, Call, start, stop, calls, profiled, divider, Fits, calls-Fits,
}
use udproxy.NetBsdClock.Stat as Stat
use udproxy.NetBsdClock.Stat.{Rates, Spc}
use udproxy.NetBsdClock.Stat.Period.{
  IsReady, progress, is_possible, total, run_stat, run_stat-progress,
}
use udproxy.NetBsdClock.Hard.{Cpu, Clocks}
use udproxy.NetBsdClock.Hard.Run.{Interrupt, run_vax, Ran, run_vax-Ran}
use udproxy.NetBsdClock.Hard.Notify.{Process, Notification, Sent}
use udproxy.NetBsdClock.Hard.Notify.Life.{alive, run_ticks, run_ticks-life}
use udproxy.NetBsdClock.Init.{Setup, stat_rate}

-- One entry is due at the next tick, and one a tick behind it.
abbrev queue : List Callout
queue = record { time = 1; arg = 5; func = 10 } ∷ record { time = 1; arg = 6; func = 11 } ∷ []

abbrev callouts : Callouts
callouts = record { todo = queue; callfree = record { time = 0; arg = 0; func = 0 } ∷ [] }

-- Each function arms itself again.
abbrev again : Called → List Op
again k = arm k.func k.arg 3 ∷ []

queue-IsQueue : IsQueue 0 queue
unfolding IsQueue
queue-IsQueue = ground arith

queue-IsFresh : IsFresh queue
queue-IsFresh = ground arith

again-one : (k : Called) → arms_of (again k) ≤ 1
unfolding arms_of
again-one k = omega arith

queue-IsLasting : IsLasting 9 queue
unfolding lasts
queue-IsLasting = ground arith

ticks-view_example :
    (view 0 (ticks 9 queue) ≡ map (later 9) (view 0 queue)) × IsQueue 0 (ticks 9 queue)
ticks-view_example = ticks-view 9 queue (ground arith) queue-IsQueue queue-IsLasting

timeout-Arms_example : Arms 12 7 2 callouts (timeout 12 7 2 callouts)
timeout-Arms_example = timeout-Arms 12 7 2 callouts queue-IsQueue

few_due : due_count (view 0 queue) < 3
unfolding due_count view
few_due = ground arith

softclock-Serves_example : Serves callouts (softclock again 3 callouts)
softclock-Serves_example = softclock-Serves again 3 callouts again-one queue-IsQueue few_due

untimeout-view_example :
    (view 0 (untimeout 11 6 callouts).todo ≡ remove_due 11 6 (view 0 queue))
    × IsQueue 0 (untimeout 11 6 callouts).todo
    × (entries (untimeout 11 6 callouts) ≡ entries callouts)
    × (length callouts.callfree ≤ length (untimeout 11 6 callouts).callfree)
untimeout-view_example = untimeout-view 11 6 callouts queue-IsQueue

abbrev machine : Machine
machine = record {
  usermode = λ ps. leb 49152 (ps % 65536);
  basepri = λ ps. ps / 32 % 8 == 0;
  nzero = 0;
}

abbrev idle_timer : Timer
idle_timer = record { it_value = 0; it_interval = 0 }

abbrev user : User
user = record {
  pr_base = 0;
  pr_size = 0;
  pr_off = 0;
  pr_scale = 0;
  ru_utime = 7;
  ru_stime = 2;
  timer_virtual = record { it_value = 1; it_interval = 5 };
  timer_prof = idle_timer;
  rlim_cur = 2147483647;
  rlim_max = 2147483647;
}

abbrev clock : TimeOfDay
clock = record { adjdelta = 65533; lbolt = 59; tv_sec = 1000 }

abbrev kernel : Kernel
kernel = record {
  callouts = callouts;
  user = user;
  proc = record { p_cpu = 255; p_nice = 0; p_uid = 12 };
  noproc = false;
  stats = record {
    cp_time = record { cp_user = 0; cp_nice = 0; cp_sys = 0; cp_idle = 0 };
    dk_busy = 2;
    dk_time = 0 ∷ 0 ∷ [];
  };
  clock = clock;
  panel = record { ps_address = 0; ps_data = 0; ps_psw = 0 };
  panel_seq = 65535;
}

abbrev registers : ℕ → ℕ
registers i = if i == 9 then 1024 else 0

few_now : due_count (view 0 (tick queue).0) < 3
unfolding due_count view tick
few_now = ground arith

hardclock-Ends_example :
    Ends registers 8196 49152 77 kernel
      (Pdp.hardclock machine 60 registers again 3 8196 49152 77 kernel)
hardclock-Ends_example =
    hardclock-Ends machine 60 registers again 3 8196 49152 77 kernel queue-IsQueue queue-IsFresh
      again-one few_now

user_segment : apr_index 8196 49152 ≡ some 9
unfolding apr_index
user_segment = refl

segment_fits : relocate (registers 9 % 2 ^ 15) 8196 < 2 ^ 21
unfolding relocate
segment_fits = ground arith

decode-relocate_example : decode_phys_addr registers 8196 49152 ≡ relocate 1024 8196
decode-relocate_example =
    decode-relocate registers 8196 49152 9 user_segment refl (ground arith) segment_fits

run_timer-periods_example :
    run_timer 15 (record { it_value = 3; it_interval = 5 })
    ≡ (record { it_value = 3; it_interval = 5 }, 3)
run_timer-periods_example = run_timer-periods 2 2 4 2 (ground arith)

advance_time-ticks_example :
    ((advance_time 60 clock).lbolt < 60)
    × (ticks_of 60 (advance_time 60 clock) ≡ ticks_of 60 clock + step_of clock)
advance_time-ticks_example =
    advance_time-ticks 60 clock (ground arith) (ground arith) (ground arith) (ground arith)

hzto-min_example : hzto 60 1002 500000 1000 300000 ≡ min 32767 (2200 / 16)
hzto-min_example =
    hzto-min 60 1002 500000 1000 300000 (ground arith) (ground arith) (ground arith) (ground arith)
      (ground arith) (ground arith)

abbrev none_profiled : Profiling
none_profiled = record { profprocs = 0; psdiv = 1 }

abbrev some_calls : List Call
some_calls = start 1 ∷ start 0 ∷ start 1 ∷ stop 1 ∷ []

two_fit :
    (0 ≡ 0 + profiled (false ∷ false ∷ []))
    × (1 ≡ divider 128 8 (0 + profiled (false ∷ false ∷ [])))
unfolding profiled divider
two_fit = (refl, refl)

calls-Fits_example :
    Fits 128 8 0
      (calls 128 8 some_calls (false ∷ false ∷ [], none_profiled)).0
      (calls 128 8 some_calls (false ∷ false ∷ [], none_profiled)).1
calls-Fits_example =
    calls-Fits 128 8 some_calls (false ∷ false ∷ []) none_profiled (ground arith) two_fit

abbrev rates : Rates
rates = record { stathz = 128; profhz = 256; psdiv = 2; prof_clock = true }

abbrev processor : Spc
processor = record {
  spc_psdiv = 2;
  spc_pscnt = 2;
  cp_time = record { cp_user = 0; cp_nice = 0; cp_sys = 0; cp_intr = 0; cp_idle = 0 };
}

abbrev process : Stat.Proc
process = record {
  profil = true;
  nice = false;
  p_uticks = 0;
  p_sticks = 0;
  p_iticks = 0;
  l_cpticks = 0;
}

abbrev user_frame : Frame
user_frame = record { content = 11; usermode = true; intr = false; pc = 4096 }

abbrev idle_frame : Frame
idle_frame = record { content = 12; usermode = false; intr = false; pc = 0 }

abbrev interrupts : List (Frame × Option Stat.Proc)
interrupts = (user_frame, some process) ∷ (idle_frame, none) ∷ (user_frame, some process) ∷ []

no_charges : total processor.cp_time + length interrupts < 2 ^ 64
unfolding total
no_charges = ground arith

possible_interrupts : All (λ c. is_possible c ≡ true) interrupts
unfolding is_possible
possible_interrupts = ground arith

run_stat-progress_example :
    (s' : Spc) × (run_stat rates interrupts processor ≡ some s')
    × IsReady 2 s'
    × (progress 2 s' ≡ progress 2 processor + 3)
run_stat-progress_example =
    run_stat-progress rates interrupts processor (ground arith) (refl, ground arith, ground arith)
      no_charges possible_interrupts

abbrev clocks : Clocks
clocks = record {
  needed = 0;
  stat_needed = 0;
  schedhz = 0;
  hardscheddiv = 6;
  hardclock_ticks = 40;
  panel = none;
  rates = rates;
}

abbrev cpu : Cpu
cpu = record {
  package1st = true;
  primary = true;
  spc_schedticks = 1;
  spc_ticks = 3;
  spc = processor;
}

abbrev registered : Notification
registered = record { enabled = 1; client_pid = 31 }

abbrev living : List Process
living = record { p_pid = 1; dead = false } ∷ record { p_pid = 31; dead = false } ∷ []

abbrev exited : List Process
exited = record { p_pid = 1; dead = false } ∷ record { p_pid = 31; dead = true } ∷ []

abbrev interrupt : Interrupt
interrupt = record { frame = user_frame; proc = some process; allproc = living; cpu = cpu }

abbrev secondary : Interrupt
secondary = record {
  frame = idle_frame;
  proc = none;
  allproc = living;
  cpu = record cpu { primary = false };
}

vax_possible :
    All
      (λ i. is_possible (i.frame, i.proc) ≡ true)
      (interrupt ∷ secondary ∷ record interrupt { allproc = exited } ∷ [])
unfolding is_possible
vax_possible = ground arith

run_vax-Ran_example :
    (r : Clocks × Notification × List Sent) × (run_vax
        (interrupt ∷ secondary ∷ record interrupt { allproc = exited } ∷ [])
        clocks
        registered
      ≡ some r)
    × Ran (interrupt ∷ secondary ∷ record interrupt { allproc = exited } ∷ []) clocks registered r
run_vax-Ran_example =
    run_vax-Ran (interrupt ∷ secondary ∷ record interrupt { allproc = exited } ∷ []) clocks
      registered (ground arith) vax_possible

lives_twice : All (λ procs. alive 31 procs ≡ true) (living ∷ living ∷ [])
unfolding alive
lives_twice = ground arith

gone_now : alive 31 exited ≡ false
unfolding alive
gone_now = refl

run_ticks-life_example :
    run_ticks ((living ∷ living ∷ []) ++ exited ∷ living ∷ []) registered
    ≡ (record registered { client_pid = 0 }, some 31 ∷ some 31 ∷ none ∷ none ∷ [])
run_ticks-life_example =
    run_ticks-life (living ∷ living ∷ []) exited (living ∷ []) registered (refl, refl) lives_twice
      gone_now

abbrev setup : Setup
setup = record {
  tick = 10000;
  tickadj = 40;
  psdiv = 0;
  profhz = 1024;
  psratio = 0;
  hardscheddiv = 0;
}

not_slower : ((setup.profhz == 0) || leb (stat_rate 64 128) setup.profhz) ≡ true
unfolding stat_rate
not_slower = refl
