-- ===== src/Layout/Laws.antt =====
-- Storing a number and loading it again.
use udproxy.Base.{
  ℕ, ◌^◌, ◌<◌, ◌≡◌, refl, arith, length, ◌==◌, inl, inr, Bool-cases, Bool, true, false, ◌&&◌,
  ==_iff,
}
use udproxy.Base.Bytes.{length-le_bytes, from_le-le_bytes}
use udproxy.Layout.{Abi, to_bytes, from_bytes}

and_right : (a b : Bool) → (a && b) ≡ true → b ≡ true
and_right true b h = h
and_right false b h = cc

and_left : (a b : Bool) → (a && b) ≡ true → a ≡ true
and_left true b h = refl
and_left false b h = cc

pub length-to_bytes : (a : Abi) (w v : ℕ) → length (to_bytes a w v) ≡ w
unfolding to_bytes
length-to_bytes a w v = elim (Bool-cases (a.high_word_first && w == 4)) [
  | inl e ↦ rw e (omega (arith, (==_iff w 4).0 (and_right a.high_word_first (w == 4) e)))
  | inr e ↦ rw e (length-le_bytes w v)
]

-- A number that fits its bytes is loaded as it was stored, in either word order.
pub from_bytes-to_bytes : (a : Abi) (w v : ℕ) → v < 256 ^ w → from_bytes a (to_bytes a w v) ≡ v
unfolding to_bytes from_bytes
from_bytes-to_bytes a w v h = elim (Bool-cases (a.high_word_first && w == 4)) [
  | inl e ↦
      let w4 : w ≡ 4 = (==_iff w 4).0 (and_right a.high_word_first (w == 4) e) in
      let small : v < 256 ^ 4 = rw w4 at h in
      rw (e, and_left a.high_word_first (w == 4) e) (omega arith)
  | inr e ↦ rw (e, length-le_bytes w v, e) (from_le-le_bytes w v h)
]
