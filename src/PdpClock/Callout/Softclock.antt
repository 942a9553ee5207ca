-- ===== src/PdpClock/Callout/Softclock.antt =====
-- What `softclock` does to the queue, whatever the functions do that it calls.
use udproxy.Base.{
  ℕ, zero, suc, ◌+◌, ◌≤◌, ◌<◌, ◌≡◌, ◌∙◌, ap, refl, arith, true, false, Option, none, some, List, [],
  ◌∷◌, length, if◌then◌else◌, ◌==◌, Bool-cases, inl, inr,
}
use udproxy.PdpClock.{positive}
use udproxy.PdpClock.Callout.{
  Callout, Callouts, timeout, untimeout, Op, arm, disarm, perform, Called, Soft, done, panics,
  starved, after_call, softclock,
}
use udproxy.PdpClock.Callout.View.{Due, view, IsQueue, insert_due, remove_due, is_due}
use udproxy.PdpClock.Callout.Pool.{entries, asked, Arms, timeout-Arms, untimeout-view}

-- How many entries are due.
unfoldable pub due_count : List Due → ℕ
due_count [] = 0
due_count (e ∷ es) = (if e.remaining == 0 then 1 else 0) + due_count es

count-insert :
    (d : Due) (es : List Due) → 0 < d.remaining → due_count (insert_due d es) ≡ due_count es
unfolding due_count insert_due
count-insert d [] pos = ground arith
count-insert d (e ∷ es) pos = ground (arith, count-insert d es pos)

count-remove : (func arg : ℕ) (es : List Due) → due_count (remove_due func arg es) ≤ due_count es
unfolding due_count remove_due
count-remove func arg [] = omega arith
count-remove func arg (e ∷ es) = ground (arith, count-remove func arg es)

-- The timeouts that a function arms.
unfoldable pub arms_of : List Op → ℕ
arms_of [] = 0
arms_of (arm func arg t ∷ os) = suc (arms_of os)
arms_of (disarm func arg ∷ os) = arms_of os

-- A valid queue with the same entries, and no more due than before.
record Follows (c c' : Callouts) : Type 0 where
  valid : IsQueue 0 c'.todo
  kept : entries c' ≡ entries c
  few : due_count (view 0 c'.todo) ≤ due_count (view 0 c.todo)

abbrev Performs : Callouts → Option Callouts → Type 0
Performs c none = ⊥
Performs c (some c') = Follows c c'

Performs-weaken :
    (c c' : Callouts) (o : Option Callouts)
    → entries c' ≡ entries c
    → due_count (view 0 c'.todo) ≤ due_count (view 0 c.todo)
    → Performs c' o
    → Performs c o
Performs-weaken c c' none e h p = p
Performs-weaken c c' (some d) e h p =
    let kept = p.kept in
    let few = p.few in record { valid = p.valid; kept = kept ∙ e; few = omega arith }

arm-Performs :
    (func arg t : ℕ) (os : List Op) (c : Callouts) (o : Option Callouts)
    → Arms func arg t c o
    → suc (arms_of os) ≤ length c.callfree
    → ((c' : Callouts)
        → IsQueue 0 c'.todo
        → arms_of os ≤ length c'.callfree
        → Performs c' (perform os c'))
    → Performs c (elim o [ none ↦ none | some c' ↦ perform os c' ])
arm-Performs func arg t os c none e room rest = absurd (omega (arith, ap length e))
arm-Performs func arg t os c (some c') (v, q, e, used) room rest =
    Performs-weaken c c' (perform os c') e
      (rw v (
        omega (
          arith,
          count-insert (record { remaining = asked t; func = func; arg = arg }) (view 0 c.todo)
              (ground arith),
        )))
      (rest c' q (omega arith))

perform-Performs :
    (os : List Op) (c : Callouts)
    → IsQueue 0 c.todo
    → arms_of os ≤ length c.callfree
    → Performs c (perform os c)
unfolding perform arms_of
perform-Performs [] c q room = record { valid = q; kept = refl; few = omega arith }
perform-Performs (arm func arg t ∷ os) c q room =
    arm-Performs func arg t os c (timeout func arg t c) (timeout-Arms func arg t c q) room
      (λ c'. perform-Performs os c')
perform-Performs (disarm func arg ∷ os) c q room =
    let (v, q', e, more) = untimeout-view func arg c q in
    Performs-weaken c (untimeout func arg c) (perform os (untimeout func arg c)) e
      (rw v (count-remove func arg (view 0 c.todo)))
      (perform-Performs os (untimeout func arg c) q' (omega arith))

-- How `softclock` ends: not by a panic and not for want of fuel; the queue is valid and has no due
-- entry in front, no entry is lost, and no more functions ran than entries were due.
abbrev pub Serves : Callouts → Soft → Type 0
Serves c (done c' ks) =
    IsQueue 0 c'.todo
    × (is_due (view 0 c'.todo) ≡ false)
    × (entries c' ≡ entries c)
    × (length ks ≤ due_count (view 0 c.todo))
Serves c (panics ks) = ⊥
Serves c starved = ⊥

-- One call behind another.
after_call-Serves :
    (c c' : Callouts) (k : Called) (r : Soft)
    → entries c' ≡ entries c
    → due_count (view 0 c'.todo) < due_count (view 0 c.todo)
    → Serves c' r
    → Serves c (after_call k r)
after_call-Serves c c' k (done d ks) e h (q, idle, kept, few) = (q, idle, kept ∙ e, omega arith)
after_call-Serves c c' k (panics ks) e h p = p
after_call-Serves c c' k starved e h p = p

not_due :
    (p : Callout) (ps : List Callout)
    → IsQueue 0 (p ∷ ps)
    → positive p.time ≡ true
    → is_due (view 0 (p ∷ ps)) ≡ false
unfolding is_due view IsQueue
not_due p ps q h = ground arith

-- The queue behind an entry that is due.
popped :
    (p : Callout) (ps : List Callout)
    → IsQueue 0 (p ∷ ps)
    → positive p.time ≡ false
    → IsQueue 0 ps × (due_count (view 0 (p ∷ ps)) ≡ suc (due_count (view 0 ps)))
unfolding due_count view IsQueue
popped p ps q h = ground arith

call-Serves :
    (body : Called → List Op) (fuel : ℕ) (c c1 : Callouts) (k : Called) (o : Option Callouts)
    → Performs c1 o
    → entries c1 ≡ entries c
    → due_count (view 0 c.todo) ≡ suc (due_count (view 0 c1.todo))
    → due_count (view 0 c.todo) < suc fuel
    → ((c' : Callouts)
        → IsQueue 0 c'.todo
        → due_count (view 0 c'.todo) < fuel
        → Serves c' (softclock body fuel c'))
    → Serves c (elim o [ none ↦ panics (k ∷ []) | some c' ↦ after_call k (softclock body fuel c') ])
call-Serves body fuel c c1 k none p e one enough rest = absurd p
call-Serves body fuel c c1 k (some c') p e one enough rest =
    let few = p.few in
    let kept = p.kept in
    after_call-Serves c c' k (softclock body fuel c') (kept ∙ e) (omega arith)
      (rest c' p.valid (omega arith))

softclock-queue :
    (body : Called → List Op) (fuel : ℕ) (todo callfree : List Callout)
    → ((k : Called) → arms_of (body k) ≤ 1)
    → IsQueue 0 todo
    → due_count (view 0 todo) < fuel
    → let c : Callouts = record { todo = todo; callfree = callfree } in
      Serves c (softclock body fuel c)
unfolding softclock
softclock-queue body zero todo callfree modest q enough = absurd (omega arith)
softclock-queue body (suc fuel) [] callfree modest q enough =
    unfold is_due view in (q, refl, refl, omega arith)
softclock-queue body (suc fuel) (p ∷ ps) callfree modest q enough =
    let c : Callouts = record { todo = p ∷ ps; callfree = callfree } in
    let c1 : Callouts = record { todo = ps; callfree = p ∷ callfree } in
    let k : Called = record { func = p.func; arg = p.arg; time = p.time } in
    elim (Bool-cases (positive p.time)) [
      | inl e ↦ rw e (q, not_due p ps q e, refl, omega arith)
      | inr e ↦
          let (q1, one) = popped p ps q e in
          rw e (
            call-Serves body fuel c c1 k (perform (body k) c1)
              (perform-Performs (body k) c1 q1 (omega (arith, modest k)))
              (unfold entries in omega arith) one enough
              (λ c' q' enough'. softclock-queue body fuel c'.todo c'.callfree modest q' enough'))
    ]

-- On a valid queue, with functions that may disarm what they like and arm one timeout each, and with
-- fuel for more rounds than entries are due: `softclock` leaves its loop without a panic, with a valid
-- queue that has no due entry in front and has lost no entry, after no more calls than entries were due.
pub softclock-Serves :
    (body : Called → List Op) (fuel : ℕ) (c : Callouts)
    → ((k : Called) → arms_of (body k) ≤ 1)
    → IsQueue 0 c.todo
    → due_count (view 0 c.todo) < fuel
    → Serves c (softclock body fuel c)
softclock-Serves body fuel c modest q enough =
    softclock-queue body fuel c.todo c.callfree modest q enough
