-- ===== src/PdpClock.antt =====
-- The clock of the 2.11BSD kernel, socket/arch/211BSD/kern_clock.c, which fills the panel. An `int` of
-- the PDP-11 has 16 bits; here it is its two's complement, a number below 65536.
pub mod Callout
pub mod Hardclock
pub mod Waiters
pub mod Account
pub mod Address
use udproxy.Base.{ℕ, ◌+◌, ◌-◌, ◌%◌, Bool, ◌&&◌, if◌then◌else◌, ltb}

-- The value is positive.
abbrev pub positive : ℕ → Bool
positive t = ltb 0 t && ltb t 32768

-- Signed order.
abbrev pub less : ℕ → ℕ → Bool
less a b = ltb ((a + 32768) % 65536) ((b + 32768) % 65536)

abbrev pub minus : ℕ → ℕ → ℕ
minus a b = (a + 65536 - b) % 65536

abbrev pub plus : ℕ → ℕ → ℕ
plus a b = (a + b) % 65536
