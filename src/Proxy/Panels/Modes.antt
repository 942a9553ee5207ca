-- ===== src/Proxy/Panels/Modes.antt =====
-- The lamps of the PDP-11 panel that exclude each other.
use Prim.Native.String.{String, compare}
use Prim.Native.Nat.{Ordering}
use udproxy.Base.{
  ℕ, ◌+◌, ◌/◌, ◌%◌, ◌^◌, ◌<◌, ◌≤◌, ◌≡◌, ◌↔◌, refl, arith, Bool, true, false, ◌&&◌, ◌||◌, not,
  Option, none, some, [], ◌∷◌, ◌==◌,
}
use udproxy.PanelState.{PdpPanelState}
use udproxy.Proxy.{Value, number, truth, Object}
use udproxy.Proxy.Panels.{pdp_json}

-- The value of a field.
unfoldable pub value_of : String → Object → Option Value
value_of name [] = none
value_of name ((n, v) ∷ o) =
    let rest = value_of name o in elim (compare name n) [ Ordering.eq ↦ some v | _ ↦ rest ]

-- 1 for a lamp that is lit.
abbrev pub lit : Option Value → ℕ
lit (some (truth true)) = 1
lit _ = 0

addressing :
    (a18 a22 : Bool)
    → lit (some (truth (not (a18 && not a22 || a22))))
        + (lit (some (truth (a18 && not a22))) + lit (some (truth a22)))
      ≡ 1
addressing true true = refl
addressing true false = refl
addressing false true = refl
addressing false false = refl

-- For any panel of the PDP-11: exactly one of the lamps for 16, 18 and 22 bits of address is lit, at
-- most one of those for the user, supervisor and kernel mode is, and none of them exactly for the
-- mode 2 that the machine does not have; and the address has 22 bits.
pub pdp_json-lamps :
    (p : PdpPanelState)
    → let o = pdp_json p in
      let modes =
        lit (value_of "user_mode" o)
        + (lit (value_of "super_mode" o) + lit (value_of "kernel_mode" o)) in
      (lit (value_of "addr16" o) + (lit (value_of "addr18" o) + lit (value_of "addr22" o)) ≡ 1)
      × (modes ≤ 1)
      × ((modes ≡ 0) ↔ (p.ps_psw / 2 ^ 14 % 4 ≡ 2))
      × ((address : ℕ) × (value_of "address" o ≡ some (number address)) × (address < 2 ^ 22))
unfolding pdp_json value_of
pdp_json-lamps p = (
  addressing (not (p.ps_mmr0 % 2 == 0)) (not (p.ps_mmr3 / 2 ^ 4 % 2 == 0)),
  ground arith,
  (λ e. ground arith, λ e. ground arith),
  (p.ps_address % 2 ^ 22, refl, omega arith),
)
