-- ===== src/Macos/Stats.antt =====
-- The percentages of the macOS client.
use native.Mathlib.Nat.{mod-eq_of_lt, div-le_of_le-mul}
use udproxy.Base.{ℕ, ◌+◌, ◌*◌, ◌/◌, ◌%◌, ◌^◌, ◌≤◌, ◌<◌, ◌≡◌, arith, some, lt→ltb}
use udproxy.Macos.{Ticks, minus32, usage_of, cpu_usage}

-- While the ticks between two calls stay below 2 ^ 32 / 100, nothing wraps.
usage_of-percent :
    (old user system idle nice : ℕ)
    → 0 < user + system + idle + nice
    → user + system + idle + nice < 42949672
    → usage_of old user system idle nice ≡ 100 * (user + system) / (user + system + idle + nice)
unfolding usage_of
usage_of-percent old user system idle nice some_ticks few = rw (
  mod-eq_of_lt {n = user + system + idle + nice} {m = 4294967296} (omega arith),
  mod-eq_of_lt {n = user + system} {m = 4294967296} (omega arith),
  mod-eq_of_lt {n = 100 * (user + system)} {m = 4294967296} (omega arith),
  lt→ltb 0 (user + system + idle + nice) some_ticks,
)

minus_later : (a d : ℕ) → a < 2 ^ 32 → d < 2 ^ 32 → minus32 ((a + d) % 2 ^ 32) a ≡ d
unfolding minus32
minus_later a d h h' = omega arith

-- The ticks after `d` more ticks, on counters of 32 bits.
unfoldable pub later : Ticks → Ticks → Ticks
later prev d = record {
  user = (prev.user + d.user) % 2 ^ 32;
  system = (prev.system + d.system) % 2 ^ 32;
  idle = (prev.idle + d.idle) % 2 ^ 32;
  nice = (prev.nice + d.nice) % 2 ^ 32;
}

-- Behind a first call, with counters of 32 bits that may have wrapped since, and between 1 and
-- 42949671 ticks in between: the usage is the percentage of the user's and the system's ticks among
-- them, at most 100.
pub cpu_usage-percent :
    (old : ℕ) (prev d : Ticks)
    → (prev.user < 2 ^ 32) × (prev.system < 2 ^ 32) × (prev.idle < 2 ^ 32) × (prev.nice < 2 ^ 32)
    → 0 < d.user + d.system + d.idle + d.nice
    → d.user + d.system + d.idle + d.nice < 42949672
    → (cpu_usage old (some prev) (later prev d)
        ≡ 100 * (d.user + d.system) / (d.user + d.system + d.idle + d.nice))
      × (cpu_usage old (some prev) (later prev d) ≤ 100)
unfolding cpu_usage later
cpu_usage-percent old prev d (u, s, i, n) some_ticks few =
    let e : cpu_usage old (some prev) (later prev d)
        ≡ 100 * (d.user + d.system) / (d.user + d.system + d.idle + d.nice) =
      rw
        (
          minus_later prev.user d.user u (omega arith),
          minus_later prev.system d.system s (omega arith),
          minus_later prev.idle d.idle i (omega arith),
          minus_later prev.nice d.nice n (omega arith),
        )
        (usage_of-percent old d.user d.system d.idle d.nice some_ticks few) in
    (e, rw e (div-le_of_le-mul (d.user + d.system + d.idle + d.nice) (omega arith)))
