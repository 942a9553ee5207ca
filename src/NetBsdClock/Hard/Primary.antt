-- ===== src/NetBsdClock/Hard/Primary.antt =====
-- What the real-time clock does on the primary processor and on the others.
use udproxy.Base.{
  ℕ, ◌≡◌, refl, true, Option, none, some, List, if◌then◌else◌, ◌==◌, Bool-cases, inl, inr,
}
use udproxy.NetBsdClock.{increment, Frame}
use udproxy.NetBsdClock.Stat.{Proc, Spc, statclock}
use udproxy.NetBsdClock.Stat.Period.{is_possible, stat_body-returns}
use udproxy.NetBsdClock.Hard.{
  Cpu, Clocks, Call, first_part, stat_part, last_part, primary_part, hardclock, hardclock_vax,
}
use udproxy.NetBsdClock.Hard.Notify.{Process, Notification, Sent, panel_update_tick}

last_part-primary :
    (p : Option Proc) (c : Cpu) (k : Clocks)
    → ((last_part p c k).0.panel ≡ k.panel)
      × ((last_part p c k).0.hardclock_ticks
          ≡ (if c.primary then increment k.hardclock_ticks else k.hardclock_ticks))
unfolding last_part primary_part
last_part-primary p c k = elim (Bool-cases c.primary) [
  | inl e ↦ rw e (refl, refl)
  | inr e ↦ rw e (refl, refl)
]

-- How an interrupt on a VAX processor ends: on the primary one, the panel has its frame, the ticks have
-- gone on by one and the client has been noticed; on another, these are as they were.
abbrev pub Follows :
    (frame : Frame) (allproc : List Process) (k : Clocks) (c : Cpu) (n : Notification)
    → (Clocks × Cpu × Option Proc × List Call) × Notification × Sent
    → Type 0
Follows frame allproc k c n r =
    (r.0.0.panel ≡ (if c.primary then some frame.content else k.panel))
    × (r.0.0.hardclock_ticks
        ≡ (if c.primary then increment k.hardclock_ticks else k.hardclock_ticks))
    × ((r.1, r.2) ≡ (
        if◌then◌else◌ {A = Notification × Sent} c.primary (panel_update_tick allproc n) (n, none)))

stat_part-returns :
    (frame : Frame) (p : Option Proc) (c : Cpu) (k : Clocks)
    → is_possible (frame, p) ≡ true
    → (r : Spc × Option Proc × ℕ) × (stat_part frame p c k ≡ some r)
unfolding stat_part statclock
stat_part-returns frame p c k possible =
    let (r, e) = stat_body-returns k.rates frame c.spc p possible in
    elim (Bool-cases (k.rates.stathz == 0)) [ inl q ↦ rw (q, e) (_, refl) | inr q ↦ rw q (_, refl) ]

-- With the idle thread not in user mode, the VAX's interrupt returns. On the primary processor the
-- panel has then the frame of the interrupt, the ticks have gone on by one and the client's notice is
-- that of one tick; on another the panel, the ticks and the registration are as they were and no
-- notice is sent.
pub hardclock_vax-Follows :
    (frame : Frame) (p : Option Proc) (allproc : List Process) (k : Clocks) (c : Cpu)
    (n : Notification)
    → is_possible (frame, p) ≡ true
    → (r : (Clocks × Cpu × Option Proc × List Call) × Notification × Sent) × (hardclock_vax frame p
          allproc
          (k, c)
          n
        ≡ some r)
      × Follows frame allproc k c n r
unfolding hardclock hardclock_vax first_part
hardclock_vax-Follows frame p allproc k c n possible =
    let (r, e) = stat_part-returns frame p c (first_part frame c k).0 possible in
    let (panel, ticks) =
      last_part-primary p (record c { spc = r.0 })
        (record (first_part frame c k).0 { stat_needed = r.2 }) in
    rw (hardclock_vax, hardclock, e) (_, refl, (panel, ticks, refl))
