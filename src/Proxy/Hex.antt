-- ===== src/Proxy/Hex.antt =====
-- `to_hex` of proxy/proxybase.hpp: a number as upper-case hexadecimal digits of a fixed count.
pub mod RoundTrip
use udproxy.Base.{
  ℕ, zero, suc, ◌+◌, ◌-◌, ◌/◌, ◌%◌, ◌^◌, Bool, List, [], ◌∷◌, ◌++◌, length, take, drop, replicate,
  if◌then◌else◌, ltb, leb, ◌==◌,
}

-- The character of a digit.
unfoldable pub digit : ℕ → ℕ
digit d = if ltb d 10 then 48 + d else 55 + d

-- The result of the loop: the text, a write outside of it, or no end within the fuel.
pub data Hex : Type 0 where
  digits : List ℕ → Hex
  overruns : Hex
  unfinished : Hex

-- `result[i] = c` inside the bounds.
unfoldable pub set : List ℕ → ℕ → ℕ → List ℕ
set [] i c = []
set (r ∷ rs) zero c = c ∷ rs
set (r ∷ rs) (suc i) c = r ∷ set rs i c

-- The index is a `size_t`, so that `i >= 0` always holds, and 0 is followed by 2 ^ 64 - 1.
unfoldable pub hex_loop : ℕ → (i value : ℕ) → List ℕ → Hex
unfolding set digit
hex_loop zero i value result = unfinished
hex_loop (suc fuel) i value result =
    let rest =
      hex_loop fuel ((i + 2 ^ 64 - 1) % 2 ^ 64) (value / 16) (set result i (digit (value % 16))) in
    if value == 0 then digits result else if leb (length result) i then overruns else rest

-- `n` digits. Fuel for one round more than there are digits.
unfoldable pub to_hex : (n value : ℕ) → Hex
unfolding hex_loop
to_hex n value = hex_loop (n + 1) (n - 1) value (replicate n 48)
