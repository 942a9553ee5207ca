-- ===== src/NetBsdClock/Hard/Run.antt =====
-- A run of interrupts of the VAX's real-time clock, on whichever processors.
use udproxy.Base.{
  ℕ, ◌+◌, ◌%◌, ◌^◌, ◌<◌, ◌≡◌, ◌∙◌, ap, sym, refl, arith, true, false, Option, none, some, List, All,
  [], ◌∷◌, length, map, if◌then◌else◌, Bool-cases, inl, inr,
}
use udproxy.NetBsdClock.{increment, Frame}
use udproxy.NetBsdClock.Stat.{Proc}
use udproxy.NetBsdClock.Stat.Period.{is_possible}
use udproxy.NetBsdClock.Hard.{Cpu, Clocks, Call, hardclock_vax}
use udproxy.NetBsdClock.Hard.Primary.{Follows, hardclock_vax-Follows}
use udproxy.NetBsdClock.Hard.Notify.{Process, Notification, Sent, panel_update_tick}
use udproxy.NetBsdClock.Hard.Notify.Life.{run_ticks, run-next}

-- One interrupt: what it finds, and its processor.
pub record Interrupt : Type 0 where
  pub frame : Frame
  pub proc : Option Proc
  pub allproc : List Process
  pub cpu : Cpu

-- The clocks, the registration, and what the ticks of the primary processor sent.
unfoldable pub run_vax :
    List Interrupt → Clocks → Notification → Option (Clocks × Notification × List Sent)
run_vax [] k n = some (k, n, [])
run_vax (i ∷ is) k n = elim (hardclock_vax i.frame i.proc i.allproc (k, i.cpu) n) [
  | none ↦ none
  | some r ↦ elim (run_vax is r.0.0 r.1) [
    | none ↦ none
    | some q ↦ some (q.0, q.1, (if i.cpu.primary then r.2 ∷ q.2 else q.2))
  ]
]

-- The interrupts of the primary processor.
unfoldable pub primaries : List Interrupt → List Interrupt
primaries [] = []
primaries (i ∷ is) = let rest = primaries is in if i.cpu.primary then i ∷ rest else rest

-- The frame of the last, if there is one.
unfoldable pub last_frame : Option ℕ → List Interrupt → Option ℕ
last_frame shown [] = shown
last_frame shown (i ∷ is) = last_frame (some i.frame.content) is

abbrev pub Ran : List Interrupt → Clocks → Notification → Clocks × Notification × List Sent → Type 0
Ran is k n r =
    (r.0.panel ≡ last_frame k.panel (primaries is))
    × (r.0.hardclock_ticks ≡ (k.hardclock_ticks + length (primaries is)) % 2 ^ 32)
    × ((r.1, r.2) ≡ run_ticks (map (λ i. i.allproc) (primaries is)) n)

none-Ran : (k : Clocks) (n : Notification) → k.hardclock_ticks < 2 ^ 32 → Ran [] k n (k, n, [])
unfolding primaries last_frame run_ticks
none-Ran k n fits = (refl, omega arith, refl)

-- What one interrupt leaves: the clocks, the registration and the notice.
abbrev Step : Type 0
Step = (Clocks × Cpu × Option Proc × List Call) × Notification × Sent

primary-Ran :
    (i : Interrupt) (is : List Interrupt) (k : Clocks) (n : Notification) (r : Step)
    (q : Clocks × Notification × List Sent)
    → i.cpu.primary ≡ true
    → Follows i.frame i.allproc k i.cpu n r
    → k.hardclock_ticks < 2 ^ 32
    → Ran is r.0.0 r.1 q
    → Ran (i ∷ is) k n (q.0, q.1, r.2 ∷ q.2)
unfolding primaries last_frame
primary-Ran i is k n r q primary (panel, ticks, sent) fits (panel', ticks', sent') =
    let now = panel ∙ ap (λ b. if b then some i.frame.content else k.panel) primary in
    let tick =
      ticks ∙ ap (λ b. if b then increment k.hardclock_ticks else k.hardclock_ticks) primary in
    let notice =
      sent
      ∙ ap
          (λ b. if◌then◌else◌ {A = Notification × Sent} b (panel_update_tick i.allproc n) (n, none))
          primary in
    rw primary (
      panel' ∙ ap (λ p. last_frame p (primaries is)) now,
      ground arith,
      sym (
          run-next i.allproc (map (λ i'. i'.allproc) (primaries is)) n r.1 q.1 r.2 q.2 (sym notice)
            (sym sent')),
    )

other-Ran :
    (i : Interrupt) (is : List Interrupt) (k : Clocks) (n : Notification) (r : Step)
    (q : Clocks × Notification × List Sent)
    → i.cpu.primary ≡ false
    → Follows i.frame i.allproc k i.cpu n r
    → Ran is r.0.0 r.1 q
    → Ran (i ∷ is) k n q
unfolding primaries last_frame
other-Ran i is k n r q other (panel, ticks, sent) (panel', ticks', sent') =
    let now = panel ∙ ap (λ b. if b then some i.frame.content else k.panel) other in
    let tick =
      ticks ∙ ap (λ b. if b then increment k.hardclock_ticks else k.hardclock_ticks) other in
    let notice =
      sent
      ∙ ap
          (λ b. if◌then◌else◌ {A = Notification × Sent} b (panel_update_tick i.allproc n) (n, none))
          other in
    rw other (
      panel' ∙ ap (λ p. last_frame p (primaries is)) now,
      ticks' ∙ ap (λ t. (t + length (primaries is)) % 2 ^ 32) tick,
      sent' ∙ ap (λ m. run_ticks (map (λ i'. i'.allproc) (primaries is)) m) (ap (λ s. s.0) notice),
    )

ticks_fit :
    (i : Interrupt) (k : Clocks) (n : Notification) (r : Step)
    → k.hardclock_ticks < 2 ^ 32
    → Follows i.frame i.allproc k i.cpu n r
    → r.0.0.hardclock_ticks < 2 ^ 32
ticks_fit i k n r fits (panel, ticks, sent) = elim (Bool-cases i.cpu.primary) [
  | inl e ↦ ground arith
  | inr e ↦ ground arith
]

run_more :
    (i : Interrupt) (is : List Interrupt) (k : Clocks) (n : Notification) (r : Step)
    (q : Clocks × Notification × List Sent)
    → hardclock_vax i.frame i.proc i.allproc (k, i.cpu) n ≡ some r
    → run_vax is r.0.0 r.1 ≡ some q
    → run_vax (i ∷ is) k n ≡ some (q.0, q.1, (if i.cpu.primary then r.2 ∷ q.2 else q.2))
unfolding run_vax
run_more i is k n r q e e' = rw (run_vax, e, e') refl

-- With the idle thread never in user mode and fewer than 2 ^ 32 ticks counted, any run of interrupts
-- returns: the panel has the frame of the last one on the primary processor, or what it had if there is
-- none; the ticks have gone on by the number of those, from 2 ^ 32 on from 0 again; and the notices are
-- those of their ticks, in order.
pub run_vax-Ran :
    (is : List Interrupt) (k : Clocks) (n : Notification)
    → k.hardclock_ticks < 2 ^ 32
    → All (λ i. is_possible (i.frame, i.proc) ≡ true) is
    → (r : Clocks × Notification × List Sent) × (run_vax is k n ≡ some r) × Ran is k n r
run_vax-Ran [] k n fits possible = ((k, n, []), unfold run_vax in refl, none-Ran k n fits)
run_vax-Ran (i ∷ is) k n fits (possible, rest) =
    let (r, e, f) = hardclock_vax-Follows i.frame i.proc i.allproc k i.cpu n possible in
    let (q, e', f') = run_vax-Ran is r.0.0 r.1 (ticks_fit i k n r fits f) rest in
    let all = run_more i is k n r q e e' in
    elim (Bool-cases i.cpu.primary) [
      | inl b ↦ (
        (q.0, q.1, r.2 ∷ q.2),
        all ∙ ap (λ p. some (q.0, q.1, (if p then r.2 ∷ q.2 else q.2))) b,
        primary-Ran i is k n r q b f fits f',
      )
      | inr b ↦ (
        q,
        all ∙ ap (λ p. some (q.0, q.1, (if p then r.2 ∷ q.2 else q.2))) b,
        other-Ran i is k n r q b f f',
      )
    ]
