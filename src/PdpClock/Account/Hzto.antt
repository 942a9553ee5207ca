-- ===== src/PdpClock/Account/Hzto.antt =====
-- The ticks until a time that is still to come.
use Prim.Native.Nat.{min}
use native.Mathlib.Nat.{div-le_self, le-div_iff_mul-le, mul-suc}
use udproxy.Base.{
  ℕ, zero, suc, ◌+◌, ◌-◌, ◌*◌, ◌/◌, ◌^◌, ◌≤◌, ◌<◌, ◌≡◌, ◌↔◌, arith, leb, inl, inr, Bool-cases,
}
use udproxy.PdpClock.Account.{minus_long, hzto_ticks, hzto}

-- The milliseconds between.
abbrev between : (sec usec : ℕ) → ℕ
between sec usec = sec * 1000 + usec / 1000

ticks-near :
    (hz sec usec : ℕ)
    → sec ≤ 2146483
    → usec < 1000000
    → (hzto_ticks hz sec usec ≡ between sec usec / (1000 / hz))
      × (between sec usec / (1000 / hz) ≤ between sec usec)
unfolding hzto_ticks
ticks-near hz sec usec near h = (ground arith, div-le_self (between sec usec) (1000 / hz))

le_div : (x y k : ℕ) → 0 < k → (x ≤ y / k) ↔ (x * k ≤ y)
le_div x y k pos = le-div_iff_mul-le pos

le-mul : (n m : ℕ) → 0 < m → n ≤ n * m
le-mul n zero pos = absurd (omega arith)
le-mul n (suc m) pos = omega (arith, mul-suc n m)

ticks-far :
    (hz sec usec : ℕ)
    → 0 < hz
    → hz ≤ 1000
    → 2146483 < sec
    → sec < 2 ^ 31
    → (32767 < hzto_ticks hz sec usec)
      × (hzto_ticks hz sec usec < 2 ^ 31)
      × (32767 < between sec usec / (1000 / hz))
unfolding hzto_ticks
ticks-far hz sec usec pos le far h =
    let d = 1000 / hz in
    let most : d ≤ 1000 = div-le_self 1000 hz in
    let some_d : 0 < d = ground (arith, le_div 1 1000 hz pos) in
    let all : 2147483647 / hz ≤ 2147483647 = div-le_self 2147483647 hz in
    let bound = le_div sec 2147483647 hz pos in
    let grows = le-mul sec hz pos in
    (ground arith, ground arith, ground (arith, le_div 32768 (between sec usec) d some_d))

-- With an `hz` from 1 to 1000, for a time below 2 ^ 31 seconds whose seconds and microseconds are both
-- not below those of now, and the microseconds below a million: `hzto` is the time left in milliseconds,
-- divided by the milliseconds of a tick, and 32767 where that is more.
pub hzto-min :
    (hz tv_sec tv_usec now_sec now_usec : ℕ)
    → 0 < hz
    → hz ≤ 1000
    → now_sec ≤ tv_sec
    → now_usec ≤ tv_usec
    → tv_sec < 2 ^ 31
    → tv_usec < 1000000
    → hzto hz tv_sec tv_usec now_sec now_usec
      ≡ min 32767 (between (tv_sec - now_sec) (tv_usec - now_usec) / (1000 / hz))
unfolding hzto
hzto-min hz tv_sec tv_usec now_sec now_usec pos le s us h hu =
    let sec : minus_long tv_sec now_sec ≡ tv_sec - now_sec = omega arith in
    let usec : minus_long tv_usec now_usec ≡ tv_usec - now_usec = omega arith in
    let n = tv_sec - now_sec in
    let u = tv_usec - now_usec in
    rw (sec, usec)
      (elim (Bool-cases (leb n 2146483)) [
        | inl near ↦ ground (arith, ticks-near hz n u)
        | inr far ↦ ground (arith, ticks-far hz n u)
      ])
