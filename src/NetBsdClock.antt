-- ===== src/NetBsdClock.antt =====
-- The clocks of the NetBSD kernels, socket/arch/NetBSDx64/kern_clock.c and, but for the notices to the
-- panel's client, socket/arch/NetBSDVAX/kern_clock.c. An `int` is its two's complement, a number below
-- 2 ^ 32. What the machine reports of an interrupt is a `Frame`; a failed assertion or a missing process
-- is `none`.
pub mod Profile
pub mod Init
pub mod Registration
pub mod Stat
pub mod Hard
use udproxy.Base.{
  ℕ, ◌+◌, ◌-◌, ◌*◌, ◌%◌, ◌^◌, Bool, true, false, ◌&&◌, not, if◌then◌else◌, ltb, ◌==◌,
}

abbrev pub increment : ℕ → ℕ
increment n = (n + 1) % 2 ^ 32

abbrev pub decrement : ℕ → ℕ
decrement n = (n + 2 ^ 32 - 1) % 2 ^ 32

-- The `int` is above zero.
abbrev pub positive : ℕ → Bool
positive n = ltb 0 n && ltb n (2 ^ 31)

-- `struct clockframe`: its content as one number, and the machine's tests of it. `intr` is CLKF_INTR or
-- the flag LP_INTR of the current thread.
pub record Frame : Type 0 where
  pub content : ℕ
  pub usermode : Bool
  pub intr : Bool
  pub pc : ℕ

-- `clockrnd_get`: the samples asked for.
unfoldable pub clockrnd_get : (needed : ℕ) → ℕ
clockrnd_get needed = 16 * needed % 2 ^ 32

-- `clockrnd_sample`: what is still asked for, and whether a sample was entered.
unfoldable pub clockrnd_sample : (package1st primary : Bool) (needed : ℕ) → ℕ × Bool
clockrnd_sample package1st primary needed =
    if needed == 0
    then (needed, false)
    else if not package1st
    then (needed, false)
    else (if primary then decrement needed else needed, true)
