-- ===== src/NetBsdClock/Hard/Notify/Life.antt =====
-- The notices over the life of the panel's client.
use udproxy.Base.{
  ℕ, suc, ◌≡◌, ◌∙◌, refl, arith, Bool, true, false, not, none, some, List, All, [], ◌∷◌, ◌++◌,
  length, replicate, if◌then◌else◌, ◌==◌,
}
use udproxy.NetBsdClock.{positive}
use udproxy.NetBsdClock.Hard.Notify.{
  Process, Notification, Sent, scan, panel_notify_userspace, panel_update_tick,
}

-- The first process of that number is there and not dead.
unfoldable pub alive : (pid : ℕ) → List Process → Bool
alive pid [] = false
alive pid (p ∷ ps) = let rest = alive pid ps in if p.p_pid == pid then not p.dead else rest

-- The ticks of the primary processor, each with the processes at that time.
unfoldable pub run_ticks : List (List Process) → Notification → Notification × List Sent
run_ticks [] n = (n, [])
run_ticks (procs ∷ rest) n =
    let (n', sent) = panel_update_tick procs n in
    let (n'', sents) = run_ticks rest n' in (n'', sent ∷ sents)

scan-alive :
    (procs : List Process) (n : Notification)
    → alive n.client_pid procs ≡ true
    → scan procs n ≡ (n, some n.client_pid)
unfolding scan alive
scan-alive [] n h = ground arith
scan-alive (p ∷ ps) n h = ground (arith, scan-alive ps n)

scan-gone :
    (procs : List Process) (n : Notification)
    → alive n.client_pid procs ≡ false
    → scan procs n ≡ (record n { client_pid = 0 }, none)
unfolding scan alive
scan-gone [] n h = refl
scan-gone (p ∷ ps) n h = ground (arith, scan-gone ps n)

-- Notices are on, for a process number.
abbrev pub IsOn : Notification → Type 0
IsOn n = ((n.enabled == 0) ≡ false) × (positive n.client_pid ≡ true)

tick-on :
    (procs : List Process) (n : Notification) → IsOn n → panel_update_tick procs n ≡ scan procs n
unfolding panel_update_tick panel_notify_userspace
tick-on procs n (on, pid) = ground arith

pub run-next :
    (procs : List Process) (rest : List (List Process)) (n m m' : Notification) (s : Sent)
    (ss : List Sent)
    → panel_update_tick procs n ≡ (m, s)
    → run_ticks rest m ≡ (m', ss)
    → run_ticks (procs ∷ rest) n ≡ (m', s ∷ ss)
unfolding run_ticks
run-next procs rest n m m' s ss e e' = rw (e, e') refl

tick-off :
    (procs : List Process) (n : Notification)
    → n.client_pid ≡ 0
    → panel_update_tick procs n ≡ (n, none)
unfolding panel_update_tick panel_notify_userspace
tick-off procs n off = ground arith

run-off :
    (snapshots : List (List Process)) (n : Notification)
    → n.client_pid ≡ 0
    → run_ticks snapshots n ≡ (n, replicate (length snapshots) none)
run-off [] n off = unfold run_ticks in refl
run-off (procs ∷ rest) n off =
    run-next procs rest n n n none (replicate (length rest) none) (tick-off procs n off)
      (run-off rest n off)

-- While notices are on and the registered process lives, each tick sends it one SIGUSR1. At the first
-- tick at which it is gone or dead none is sent and the registration is cleared; no later tick sends
-- one, whichever processes there are then.
pub run_ticks-life :
    (before : List (List Process)) (gone : List Process) (after : List (List Process))
    (n : Notification)
    → IsOn n
    → All (λ procs. alive n.client_pid procs ≡ true) before
    → alive n.client_pid gone ≡ false
    → run_ticks (before ++ gone ∷ after) n ≡ (
      record n { client_pid = 0 },
      replicate (length before) (some n.client_pid) ++ replicate (suc (length after)) none,
    )
run_ticks-life [] gone after n on lives dead =
    let cleared : Notification = record n { client_pid = 0 } in
    run-next gone after n cleared cleared none (replicate (length after) none)
      (tick-on gone n on ∙ scan-gone gone n dead) (run-off after cleared refl)
run_ticks-life (procs ∷ before) gone after n on (lives, rest) dead =
    run-next procs (before ++ gone ∷ after) n n (record n { client_pid = 0 }) (some n.client_pid)
      (replicate (length before) (some n.client_pid) ++ replicate (suc (length after)) none)
      (tick-on procs n on ∙ scan-alive procs n lives)
      (run_ticks-life before gone after n on rest dead)
