-- ===== src/NetBsdClock/Profile.antt =====
-- `startprofclock` and `stopprofclock`: the profiled processes and the divider of the profiling clock.
use mathlib.Core.Path.{transport}
use udproxy.Base.{
  ℕ, zero, suc, ◌+◌, ◌^◌, ◌≤◌, ◌<◌, ◌≡◌, ap, sym, refl, arith, Bool, true, false, ◌&&◌, ◌||◌, not,
  List, [], ◌∷◌, length, if◌then◌else◌, ◌==◌,
}
use udproxy.NetBsdClock.{increment, decrement}

-- `profprocs` and `psdiv`.
pub record Profiling : Type 0 where
  pub profprocs : ℕ
  pub psdiv : ℕ

-- The process's flag PST_PROFIL, and the globals.
unfoldable pub startprofclock : (stathz psratio : ℕ) → Bool → Profiling → Bool × Profiling
startprofclock stathz psratio true g = (true, g)
startprofclock stathz psratio false g =
    let profprocs = increment g.profprocs in
    let psdiv = if (profprocs == 1) && not (stathz == 0) then psratio else g.psdiv in
    (true, record { profprocs = profprocs; psdiv = psdiv })

unfoldable pub stopprofclock : (stathz : ℕ) → Bool → Profiling → Bool × Profiling
stopprofclock stathz false g = (false, g)
stopprofclock stathz true g =
    let profprocs = decrement g.profprocs in
    let psdiv = if (profprocs == 0) && not (stathz == 0) then 1 else g.psdiv in
    (false, record { profprocs = profprocs; psdiv = psdiv })

-- A call for the process of that number.
pub data Call : Type 0 where
  start : ℕ → Call
  stop : ℕ → Call

-- The flags of all processes, and the globals.
abbrev pub Processes : Type 0
Processes = List Bool × Profiling

unfoldable pub start_at : (stathz psratio n : ℕ) → Processes → Processes
start_at stathz psratio n ([], g) = ([], g)
start_at stathz psratio zero (f ∷ fs, g) =
    let (f', g') = startprofclock stathz psratio f g in (f' ∷ fs, g')
start_at stathz psratio (suc n) (f ∷ fs, g) =
    let (fs', g') = start_at stathz psratio n (fs, g) in (f ∷ fs', g')

unfoldable pub stop_at : (stathz n : ℕ) → Processes → Processes
stop_at stathz n ([], g) = ([], g)
stop_at stathz zero (f ∷ fs, g) = let (f', g') = stopprofclock stathz f g in (f' ∷ fs, g')
stop_at stathz (suc n) (f ∷ fs, g) = let (fs', g') = stop_at stathz n (fs, g) in (f ∷ fs', g')

unfoldable pub calls : (stathz psratio : ℕ) → List Call → Processes → Processes
calls stathz psratio [] s = s
calls stathz psratio (start n ∷ cs) s = calls stathz psratio cs (start_at stathz psratio n s)
calls stathz psratio (stop n ∷ cs) s = calls stathz psratio cs (stop_at stathz n s)

unfoldable pub profiled : List Bool → ℕ
profiled [] = 0
profiled (f ∷ fs) = (if f then 1 else 0) + profiled fs

-- The divider that fits a number of profiled processes.
unfoldable pub divider : (stathz psratio n : ℕ) → ℕ
divider stathz psratio n = if (n == 0) || (stathz == 0) then 1 else psratio

profiled-bound : (fs : List Bool) → profiled fs ≤ length fs
unfolding profiled
profiled-bound [] = omega arith
profiled-bound (f ∷ fs) = ground (arith, profiled-bound fs)

-- The count and the divider fit the listed processes and `base` others.
abbrev pub Fits : (stathz psratio base : ℕ) (fs : List Bool) → Profiling → Type 0
Fits stathz psratio base fs g =
    (g.profprocs ≡ base + profiled fs) × (g.psdiv ≡ divider stathz psratio (base + profiled fs))

-- The same in front of a process that the call passes by.
Fits-cons :
    (stathz psratio base : ℕ) (f : Bool) (fs : List Bool) (g : Profiling)
    → Fits stathz psratio base (f ∷ fs) g ≡ Fits stathz psratio (base + (if f then 1 else 0)) fs g
unfolding profiled
Fits-cons stathz psratio base f fs g =
    let same : base + ((if f then 1 else 0) + profiled fs)
        ≡ base + (if f then 1 else 0) + profiled fs =
      omega arith in
    ap (λ n. (g.profprocs ≡ n) × (g.psdiv ≡ divider stathz psratio n)) same

start_at-Fits :
    (stathz psratio n base : ℕ) (fs : List Bool) (g : Profiling)
    → base + length fs < 2 ^ 32
    → Fits stathz psratio base fs g
    → Fits stathz psratio base
        (start_at stathz psratio n (fs, g)).0
        (start_at stathz psratio n (fs, g)).1
      × (length (start_at stathz psratio n (fs, g)).0 ≡ length fs)
unfolding start_at startprofclock profiled divider
start_at-Fits stathz psratio n base [] g few (c, d) = ((c, d), refl)
start_at-Fits stathz psratio zero base (true ∷ fs) g few (c, d) = ((c, d), refl)
start_at-Fits stathz psratio zero base (false ∷ fs) g few (c, d) = ground (arith, profiled-bound fs)
start_at-Fits stathz psratio (suc n) base (f ∷ fs) g few (c, d) =
    let (fits, same) =
      start_at-Fits stathz psratio n (base + (if f then 1 else 0)) fs g (ground arith)
        (transport (Fits-cons stathz psratio base f fs g) (c, d)) in
    (
      transport
          (sym (
            Fits-cons stathz psratio base f (start_at stathz psratio n (fs, g)).0
              (start_at stathz psratio n (fs, g)).1))
          fits,
      ap suc same,
    )

stop_at-Fits :
    (stathz psratio n base : ℕ) (fs : List Bool) (g : Profiling)
    → base + length fs < 2 ^ 32
    → Fits stathz psratio base fs g
    → Fits stathz psratio base (stop_at stathz n (fs, g)).0 (stop_at stathz n (fs, g)).1
      × (length (stop_at stathz n (fs, g)).0 ≡ length fs)
unfolding stop_at stopprofclock profiled divider
stop_at-Fits stathz psratio n base [] g few (c, d) = ((c, d), refl)
stop_at-Fits stathz psratio zero base (false ∷ fs) g few (c, d) = ((c, d), refl)
stop_at-Fits stathz psratio zero base (true ∷ fs) g few (c, d) = ground (arith, profiled-bound fs)
stop_at-Fits stathz psratio (suc n) base (f ∷ fs) g few (c, d) =
    let (fits, same) =
      stop_at-Fits stathz psratio n (base + (if f then 1 else 0)) fs g (ground arith)
        (transport (Fits-cons stathz psratio base f fs g) (c, d)) in
    (
      transport
          (sym (
            Fits-cons stathz psratio base f (stop_at stathz n (fs, g)).0
              (stop_at stathz n (fs, g)).1))
          fits,
      ap suc same,
    )

-- From a state in which they do, with fewer than 2 ^ 32 processes and whatever the calls: the count is
-- that of the profiled processes, and the divider is `psratio` while there is one and the statistics
-- clock is its own, otherwise 1.
pub calls-Fits :
    (stathz psratio : ℕ) (cs : List Call) (fs : List Bool) (g : Profiling)
    → length fs < 2 ^ 32
    → Fits stathz psratio 0 fs g
    → Fits stathz psratio 0 (calls stathz psratio cs (fs, g)).0 (calls stathz psratio cs (fs, g)).1
unfolding calls
calls-Fits stathz psratio [] fs g few c = c
calls-Fits stathz psratio (start n ∷ cs) fs g few c =
    let (fits, same) = start_at-Fits stathz psratio n 0 fs g (omega arith) c in
    calls-Fits stathz psratio cs (start_at stathz psratio n (fs, g)).0
      (start_at stathz psratio n (fs, g)).1 (omega arith) fits
calls-Fits stathz psratio (stop n ∷ cs) fs g few c =
    let (fits, same) = stop_at-Fits stathz psratio n 0 fs g (omega arith) c in
    calls-Fits stathz psratio cs (stop_at stathz n (fs, g)).0 (stop_at stathz n (fs, g)).1
      (omega arith) fits
