-- ===== src/PdpClock/Account/Clock.antt =====
-- The time of day over ticks, with an adjustment in progress or without.
use native.Mathlib.Nat.{suc-mul}
use udproxy.Base.{
  ℕ, suc, ◌+◌, ◌*◌, ◌^◌, ◌<◌, ◌≡◌, refl, arith, inl, inr, Bool-cases, if◌then◌else◌, ◌==◌,
}
use udproxy.PdpClock.{positive, less, minus, plus}
use udproxy.PdpClock.Account.{TimeOfDay, adjust, count_tick, advance_time, plus_long}

-- Ticks since the epoch.
unfoldable pub ticks_of : (hz : ℕ) → TimeOfDay → ℕ
ticks_of hz t = t.tv_sec * hz + t.lbolt

-- What the adjustment adds to the tick: one more, one less, or nothing.
unfoldable pub step_of : TimeOfDay → ℕ
step_of t = if t.adjdelta == 0 then 1 else if positive t.adjdelta then 2 else 0

count :
    (hz adjdelta lbolt l tv_sec : ℕ)
    → hz < 32767
    → plus lbolt 1 ≡ l
    → l < hz + hz
    → l < 32768
    → tv_sec + 1 < 2 ^ 32
    → let t : TimeOfDay = record { adjdelta = adjdelta; lbolt = lbolt; tv_sec = tv_sec } in
      ((count_tick hz t).lbolt < hz) × (ticks_of hz (count_tick hz t) ≡ tv_sec * hz + l)
unfolding ticks_of count_tick
count hz adjdelta lbolt l tv_sec small e h fits sec =
    let s : plus_long tv_sec 1 ≡ suc tv_sec = omega arith in
    elim (Bool-cases (less (plus lbolt 1) hz)) [
      | inl q ↦ rw (q, e) (ground arith, refl)
      | inr q ↦ rw (q, e, s) (ground arith, ground (arith, suc-mul tv_sec hz))
    ]

advance :
    (hz adjdelta lbolt tv_sec : ℕ)
    → 1 < hz
    → hz < 32767
    → lbolt < hz
    → tv_sec + 1 < 2 ^ 32
    → let t : TimeOfDay = record { adjdelta = adjdelta; lbolt = lbolt; tv_sec = tv_sec } in
      ((advance_time hz t).lbolt < hz)
      × (ticks_of hz (advance_time hz t) ≡ ticks_of hz t + step_of t)
unfolding advance_time ticks_of step_of adjust
advance hz adjdelta lbolt tv_sec two small h sec = ground (
  arith,
  count hz (minus adjdelta 1) (plus lbolt 1) (lbolt + 2) tv_sec,
  count hz (plus adjdelta 1) (minus lbolt 1) lbolt tv_sec,
  count hz adjdelta lbolt (lbolt + 1) tv_sec,
)

-- With an `hz` between 2 and 32766, the tick of the clock's second below it and seconds below 2 ^ 32 - 1:
-- a tick leaves the tick of the second below `hz`, and the time in ticks goes on by one; by two while
-- the adjustment is positive; not at all while it is negative.
pub advance_time-ticks :
    (hz : ℕ) (t : TimeOfDay)
    → 1 < hz
    → hz < 32767
    → t.lbolt < hz
    → t.tv_sec + 1 < 2 ^ 32
    → ((advance_time hz t).lbolt < hz)
      × (ticks_of hz (advance_time hz t) ≡ ticks_of hz t + step_of t)
advance_time-ticks hz t two small h sec = advance hz t.adjdelta t.lbolt t.tv_sec two small h sec
