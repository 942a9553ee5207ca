-- ===== src/Proxy/Hex/RoundTrip.antt =====
-- The digits are those of the number, and the loop that writes them stays in its text and ends.
use native.Mathlib.Nat.{pow-suc}
use udproxy.Base.{
  ℕ, zero, suc, ◌+◌, ◌-◌, ◌*◌, ◌/◌, ◌%◌, ◌^◌, ◌<◌, ◌≡◌, ◌∙◌, ap, sym, refl, arith, Bool, true,
  false, ◌&&◌, ◌||◌, List, All, [], ◌∷◌, ◌++◌, append-nil, length, length-append, length-replicate,
  replicate, if◌then◌else◌, ltb, leb, ◌==◌, Bool-cases, inl, inr,
}
use udproxy.Proxy.Hex.{digit, digits, set, hex_loop, to_hex}

-- The `n` digits of a number, in front of others.
unfoldable pub hex_onto : ℕ → ℕ → List ℕ → List ℕ
hex_onto zero v ds = ds
hex_onto (suc n) v ds = hex_onto n (v / 16) (digit (v % 16) ∷ ds)

-- 0 to 9, and A to F.
unfoldable pub is_digit : ℕ → Bool
is_digit c = (leb 48 c && leb c 57) || (leb 65 c && leb c 70)

unfoldable pub digit_value : ℕ → ℕ
digit_value c = if ltb c 58 then c - 48 else c - 55

-- The number that a text of hexadecimal digits stands for.
unfoldable pub from_hex : ℕ → List ℕ → ℕ
from_hex v [] = v
from_hex v (c ∷ cs) = from_hex (v * 16 + digit_value c) cs

digit-is_digit : (d : ℕ) → d < 16 → is_digit (digit d) ≡ true
unfolding digit is_digit
digit-is_digit d h = ground arith

digit_value-digit : (d : ℕ) → d < 16 → digit_value (digit d) ≡ d
unfolding digit digit_value
digit_value-digit d h = ground arith

from_hex-onto : (n v : ℕ) (ds : List ℕ) → v < 16 ^ n → from_hex 0 (hex_onto n v ds) ≡ from_hex v ds
unfolding hex_onto from_hex
from_hex-onto zero v ds h = ap (λ w. from_hex w ds) (omega arith)
from_hex-onto (suc n) v ds h =
    from_hex-onto n (v / 16) (digit (v % 16) ∷ ds) (omega (arith, pow-suc 16 n))
    ∙ ap (λ w. from_hex w ds) (omega (arith, digit_value-digit (v % 16)))

length-onto : (n v : ℕ) (ds : List ℕ) → length (hex_onto n v ds) ≡ n + length ds
unfolding hex_onto
length-onto zero v ds = omega arith
length-onto (suc n) v ds = omega (arith, length-onto n (v / 16) (digit (v % 16) ∷ ds))

onto-All :
    (n v : ℕ) (ds : List ℕ)
    → All (λ c. is_digit c ≡ true) ds
    → All (λ c. is_digit c ≡ true) (hex_onto n v ds)
unfolding hex_onto
onto-All zero v ds h = h
onto-All (suc n) v ds h =
    onto-All n (v / 16) (digit (v % 16) ∷ ds) (digit-is_digit (v % 16) (omega arith), h)

replicate_shift : (n c : ℕ) (ds : List ℕ) → replicate n c ++ c ∷ ds ≡ c ∷ (replicate n c ++ ds)
replicate_shift zero c ds = refl
replicate_shift (suc n) c ds = ap (λ t. c ∷ t) (replicate_shift n c ds)

onto_zero : (n : ℕ) (ds : List ℕ) → hex_onto n 0 ds ≡ replicate n 48 ++ ds
unfolding hex_onto digit
onto_zero zero ds = refl
onto_zero (suc n) ds = onto_zero n (48 ∷ ds) ∙ replicate_shift n 48 ds

set_last : (n c : ℕ) (ds : List ℕ) → set (replicate (suc n) 48 ++ ds) n c ≡ replicate n 48 ++ c ∷ ds
unfolding set
set_last zero c ds = refl
set_last (suc n) c ds = ap (λ t. 48 ∷ t) (set_last n c ds)

ended : (fuel i v : ℕ) (r : List ℕ) → (v == 0) ≡ true → hex_loop (suc fuel) i v r ≡ digits r
unfolding hex_loop
ended fuel i v r e = rw e refl

again :
    (fuel i v : ℕ) (r : List ℕ)
    → (v == 0) ≡ false
    → i < length r
    → hex_loop (suc fuel) i v r
      ≡ hex_loop fuel ((i + 2 ^ 64 - 1) % 2 ^ 64) (v / 16) (set r i (digit (v % 16)))
unfolding hex_loop
again fuel i v r e inside =
    let within : leb (length r) i ≡ false = ground arith in rw (e, within) refl

-- A number that is used up leaves the zeros in front.
leading :
    (i v : ℕ) (ds : List ℕ) → (v == 0) ≡ true → replicate (suc i) 48 ++ ds ≡ hex_onto (suc i) v ds
leading i v ds e = let none_left : v ≡ 0 = ground arith in rw none_left (sym (onto_zero (suc i) ds))

leading_none : (v : ℕ) (ds : List ℕ) → digit (v % 16) ∷ ds ≡ hex_onto 1 v ds
unfolding hex_onto
leading_none v ds = refl

onto_suc :
    (n v : ℕ) (ds : List ℕ) → hex_onto n (v / 16) (digit (v % 16) ∷ ds) ≡ hex_onto (suc n) v ds
unfolding hex_onto
onto_suc n v ds = refl

nothing_behind : (v : ℕ) → from_hex v [] ≡ v
unfolding from_hex
nothing_behind v = refl

-- A round writes one digit.
moves :
    (fuel i v : ℕ) (ds : List ℕ)
    → (v == 0) ≡ false
    → hex_loop (suc fuel) i v (replicate (suc i) 48 ++ ds)
      ≡ hex_loop fuel ((i + 2 ^ 64 - 1) % 2 ^ 64) (v / 16) (replicate i 48 ++ digit (v % 16) ∷ ds)
moves fuel i v ds e =
    again fuel i v (replicate (suc i) 48 ++ ds) e
      (omega (arith, length-append (replicate (suc i) 48) ds, length-replicate {A = ℕ} (suc i) 48))
    ∙ ap (hex_loop fuel ((i + 2 ^ 64 - 1) % 2 ^ 64) (v / 16)) (set_last i (digit (v % 16)) ds)

-- The loop at index `i`, with the digits behind it written.
hex_loop-onto :
    (fuel i v : ℕ) (ds : List ℕ)
    → suc i < fuel
    → i < 2 ^ 64
    → v < 16 ^ suc i
    → hex_loop fuel i v (replicate (suc i) 48 ++ ds) ≡ digits (hex_onto (suc i) v ds)
hex_loop-onto zero i v ds h fits small = absurd (omega arith)
hex_loop-onto (suc zero) i v ds h fits small = absurd (omega arith)
hex_loop-onto (suc (suc fuel)) zero v ds h fits small = elim (Bool-cases (v == 0)) [
  | inl e ↦ ended (suc fuel) 0 v (48 ∷ ds) e ∙ ap digits (leading 0 v ds e)
  | inr e ↦
      let used_up : (v / 16 == 0) ≡ true = ground arith in
      moves (suc fuel) 0 v ds e
      ∙ ended fuel (2 ^ 64 - 1) (v / 16) (digit (v % 16) ∷ ds) used_up
      ∙ ap digits (leading_none v ds)
]
hex_loop-onto (suc fuel) (suc i) v ds h fits small = elim (Bool-cases (v == 0)) [
  | inl e ↦
      ended fuel (suc i) v (replicate (suc (suc i)) 48 ++ ds) e ∙ ap digits (leading (suc i) v ds e)
  | inr e ↦
      let back : (suc i + 2 ^ 64 - 1) % 2 ^ 64 ≡ i = omega arith in
      moves fuel (suc i) v ds e
      ∙ ap (λ j. hex_loop fuel j (v / 16) (replicate (suc i) 48 ++ digit (v % 16) ∷ ds)) back
      ∙ hex_loop-onto fuel i (v / 16) (digit (v % 16) ∷ ds) (omega arith) (omega arith)
          (omega (arith, pow-suc 16 (suc i)))
      ∙ ap digits (onto_suc (suc i) v ds)
]

pub written :
    (n v : ℕ) → suc n < 2 ^ 64 → v < 16 ^ suc n → to_hex (suc n) v ≡ digits (hex_onto (suc n) v [])
unfolding to_hex
written n v fits small =
    let last : suc n - 1 ≡ n = omega arith in
    rw last (
      ap (λ r. hex_loop (suc n + 1) n v r) (sym (append-nil (replicate (suc n) 48)))
      ∙ hex_loop-onto (suc n + 1) n v [] (omega arith) (omega arith) small)

-- For a number of at most `n` hexadecimal digits, `n` from 1 to below 2 ^ 64: the loop ends without a
-- write outside of its text, and leaves `n` digits, 0 to 9 and A to F, that stand for the number.
pub to_hex-digits :
    (n v : ℕ)
    → 0 < n
    → n < 2 ^ 64
    → v < 16 ^ n
    → (ds : List ℕ) × (to_hex n v ≡ digits ds)
      × (length ds ≡ n)
      × All (λ c. is_digit c ≡ true) ds
      × (from_hex 0 ds ≡ v)
to_hex-digits zero v pos fits small = absurd (omega arith)
to_hex-digits (suc n) v pos fits small = (
  hex_onto (suc n) v [],
  written n v fits small,
  omega (arith, length-onto (suc n) v []),
  onto-All (suc n) v [] tt,
  from_hex-onto (suc n) v [] small ∙ nothing_behind v,
)
