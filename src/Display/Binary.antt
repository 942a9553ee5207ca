-- ===== src/Display/Binary.antt =====
-- What the two formatters write.
use mathlib.Core.Path.{ap₂}
use native.Mathlib.Nat.{
  div-add-mod, mod-lt, one-le-pow, pow-suc, mul-add-mod_self_left, mod-eq_of_lt,
}
use udproxy.Base.{
  ℕ, zero, suc, ◌+◌, ◌-◌, ◌*◌, ◌/◌, ◌%◌, ◌^◌, ◌≤◌, ◌<◌, ◌≡◌, ◌≢◌, ◌∙◌, sym, ap, refl, arith, List,
  [], ◌∷◌, ◌++◌, length, set, false, take, drop, if◌then◌else◌, ◌==◌, ==_iff, ==_refl, ne→==,
  append_assoc, take-append-drop, length-set, Bool-cases, inl, inr,
}
use udproxy.Base.Text.{c_string}
use udproxy.Display.{format_loop, format_binary, format_binary64}

-- The number that a text of marks and dots stands for, the first character being the highest bit.
unfoldable pub read_marks : ℕ → ℕ → List ℕ → ℕ
read_marks mark acc [] = acc
read_marks mark acc (c ∷ cs) = read_marks mark (acc * 2 + (if c == mark then 1 else 0)) cs

-- The characters of bits k - 1 to 0.
bit_char : ℕ → ℕ → ℕ → ℕ
bit_char mark value i = if value / 2 ^ i % 2 == 1 then mark else b'.'

marks : ℕ → ℕ → ℕ → List ℕ
marks mark value zero = []
marks mark value (suc i) = bit_char mark value i ∷ marks mark value i

length-marks : (mark value k : ℕ) → length (marks mark value k) ≡ k
unfolding marks
length-marks mark value zero = refl
length-marks mark value (suc k) = ap suc (length-marks mark value k)

take-set {ℓ} :
    {A : Type ℓ} (xs : List A) (i : ℕ) (v : A)
    → i < length xs
    → take (suc i) (set xs i v) ≡ take i xs ++ (v ∷ [])
take-set [] i v h = absurd (omega arith)
take-set (x ∷ xs) zero v h = refl
take-set (x ∷ xs) (suc i) v h = ap (λ t. x ∷ t) (take-set xs i v (omega arith))

drop-set {ℓ} :
    {A : Type ℓ} (xs : List A) (i n : ℕ) (v : A) → i < n → drop n (set xs i v) ≡ drop n xs
drop-set [] i n v h = refl
drop-set (x ∷ xs) i zero v h = absurd (omega arith)
drop-set (x ∷ xs) zero (suc n) v h = refl
drop-set (x ∷ xs) (suc i) (suc n) v h = drop-set xs i n v (omega arith)

length-set' {ℓ} : {A : Type ℓ} (xs : List A) (i : ℕ) (v : A) → length (set xs i v) ≡ length xs
length-set' [] i v = refl
length-set' (x ∷ xs) zero v = refl
length-set' (x ∷ xs) (suc i) v = ap suc (length-set' xs i v)

-- With k rounds left the first bits - k characters stand, and the loop adds the others.
format_loop-marks :
    (mark value bits k : ℕ) (buffer : List ℕ)
    → k ≤ bits
    → bits ≤ length buffer
    → format_loop mark value bits k buffer
      ≡ take (bits - k) buffer ++ (marks mark value k ++ drop bits buffer)
unfolding format_loop marks bit_char
format_loop-marks mark value bits zero buffer h room = sym (
    ap (λ n. take n buffer ++ drop bits buffer) {x = bits - 0} {y = bits} (omega arith)
    ∙ take-append-drop bits buffer)
format_loop-marks mark value bits (suc k) buffer h room =
    let c = bit_char mark value k in
    let at : ℕ = bits - 1 - k in
    let inside : at < length buffer = omega arith in
    format_loop-marks mark value bits k (set buffer at c) (omega arith)
      (omega (arith, length-set buffer at c))
    ∙ ap₂ (λ front back. front ++ (marks mark value k ++ back))
        (ap (λ n. take n (set buffer at c)) {x = bits - k} {y = suc at} (omega arith)
          ∙ take-set buffer at c inside)
        (drop-set buffer at bits c (omega arith))
    ∙ append_assoc (take at buffer) (c ∷ []) (marks mark value k ++ drop bits buffer)
    ∙ ap (λ n. take n buffer ++ c ∷ (marks mark value k ++ drop bits buffer)) {x = at}
        {y = bits - suc k} (omega arith)

mod-double : (v p : ℕ) → 0 < p → v % (2 * p) ≡ v / p % 2 * p + v % p
mod-double v p h =
    let whole : v ≡ 2 * p * (v / p / 2) + (v / p % 2 * p + v % p) =
      omega (arith, div-add-mod v p, ap (λ (t : ℕ). p * t) (div-add-mod (v / p) 2)) in
    let small : v / p % 2 * p ≤ 1 * p = grind (arith, mod-lt (v / p) {m = 2} (omega arith)) in
    ap (λ (t : ℕ). t % (2 * p)) whole
    ∙ mul-add-mod_self_left (2 * p) (v / p / 2) (v / p % 2 * p + v % p)
    ∙ mod-eq_of_lt (omega (arith, mod-lt v h))

bit_split : (v k : ℕ) → v % 2 ^ suc k ≡ v / 2 ^ k % 2 * 2 ^ k + v % 2 ^ k
bit_split v k =
    ap (λ (t : ℕ). v % t) {x = 2 ^ suc k} {y = 2 * 2 ^ k} (omega (arith, pow-suc 2 k))
    ∙ mod-double v (2 ^ k) (one-le-pow k 2 (omega arith))

read_step :
    (v acc k d : ℕ)
    → v / 2 ^ k % 2 ≡ d
    → (acc * 2 + d) * 2 ^ k + v % 2 ^ k ≡ acc * 2 ^ suc k + v % 2 ^ suc k
read_step v acc k d e =
    omega (arith, bit_split v k, ap (λ (t : ℕ). t * 2 ^ k) e, ap (λ (t : ℕ). acc * t) (pow-suc 2 k))

bit-ne-one : (v k : ℕ) → (v / 2 ^ k % 2 == 1) ≡ false → v / 2 ^ k % 2 ≡ 0
bit-ne-one v k e = ground arith

read_marks-marks :
    (mark value acc k : ℕ)
    → mark ≢ b'.'
    → read_marks mark acc (marks mark value k) ≡ acc * 2 ^ k + value % 2 ^ k
unfolding read_marks marks bit_char
read_marks-marks mark value acc zero h = omega arith
read_marks-marks mark value acc (suc k) h = elim (Bool-cases (value / 2 ^ k % 2 == 1)) [
  | inl e ↦
      rw (e, ==_refl mark)
        (read_marks-marks mark value (acc * 2 + 1) k h ∙ read_step value acc k 1 ((==_iff _ 1).0 e))
  | inr e ↦
      rw (e, ne→== b'.' mark (λ p. h (sym p)))
        (read_marks-marks mark value (acc * 2 + 0) k h
          ∙ read_step value acc k 0 (bit-ne-one value k e))
]

c_string-marks :
    (mark value k : ℕ) (rest : List ℕ)
    → mark ≢ 0
    → c_string (marks mark value k ++ 0 ∷ rest) ≡ marks mark value k
unfolding c_string marks bit_char
c_string-marks mark value zero rest h = refl
c_string-marks mark value (suc k) rest h = elim (Bool-cases (value / 2 ^ k % 2 == 1)) [
  | inl e ↦ rw (e, ne→== mark 0 h) (ap (λ t. mark ∷ t) (c_string-marks mark value k rest h))
  | inr e ↦ rw e (ap (λ t. b'.' ∷ t) (c_string-marks mark value k rest h))
]

set-append {ℓ} :
    {A : Type ℓ} (xs ys : List A) (i : ℕ) (y v : A)
    → i ≡ length xs
    → set (xs ++ y ∷ ys) i v ≡ xs ++ v ∷ ys
set-append [] ys zero y v h = refl
set-append [] ys (suc i) y v h = absurd (omega arith)
set-append (x ∷ xs) ys zero y v h = absurd (omega arith)
set-append (x ∷ xs) ys (suc i) y v h = ap (λ t. x ∷ t) (set-append xs ys i y v (omega arith))

drop-last : (n : ℕ) (xs : List ℕ) → length xs ≡ suc n → (y : ℕ) × (drop n xs ≡ y ∷ [])
drop-last n [] h = absurd (omega arith)
drop-last zero (x ∷ []) h = (x, refl)
drop-last zero (x ∷ y ∷ xs) h = absurd (omega arith)
drop-last (suc n) (x ∷ xs) h = drop-last n xs (omega arith)

-- The loop fills the whole array from index 0, and the terminator takes the last place.
formatted :
    (mark value bits : ℕ) (buffer : List ℕ)
    → length buffer ≡ bits + 1
    → set (format_loop mark value bits bits buffer) bits 0 ≡ marks mark value bits ++ 0 ∷ []
formatted mark value bits buffer h =
    let (y, rest) = drop-last bits buffer (omega arith) in
    let none_left : bits - bits ≡ 0 = omega arith in
    ap (λ t. set t bits 0)
      (format_loop-marks mark value bits bits buffer (omega arith) (omega arith)
        ∙ ap₂ (λ n back. take n buffer ++ (marks mark value bits ++ back)) none_left rest)
    ∙ set-append (marks mark value bits) [] bits y 0 (omega (arith, length-marks mark value bits))

-- The text that an array of `bits` + 1 characters holds after formatting.
abbrev pub Formats : ℕ → ℕ → ℕ → List ℕ → Type 0
Formats mark value bits text = (length text ≡ bits) × (read_marks mark 0 text ≡ value % 2 ^ bits)

formats :
    (mark value bits : ℕ) (buffer : List ℕ)
    → mark ≢ 0
    → mark ≢ b'.'
    → length buffer ≡ bits + 1
    → Formats mark value bits (c_string (set (format_loop mark value bits bits buffer) bits 0))
formats mark value bits buffer h h' room =
    rw (formatted mark value bits buffer room, c_string-marks mark value bits [] h)
      (length-marks mark value bits, omega (arith, read_marks-marks mark value 0 bits h'))

-- In an array of `bits` + 1 characters, whatever it held, `format_binary` leaves a text of `bits`
-- characters that reads back, with `O` for one, as the value modulo 2 ^ bits.
pub format_binary-Formats :
    (value bits : ℕ) (buffer : List ℕ)
    → length buffer ≡ bits + 1
    → Formats b'O' value bits (c_string (format_binary value bits buffer))
unfolding format_binary
format_binary-Formats value bits buffer room =
    formats b'O' value bits buffer (omega arith) (omega arith) room

-- `format_binary64` does the same with `*` for one.
pub format_binary64-Formats :
    (value bits : ℕ) (buffer : List ℕ)
    → length buffer ≡ bits + 1
    → Formats b'*' value bits (c_string (format_binary64 value bits buffer))
unfolding format_binary64
format_binary64-Formats value bits buffer room =
    formats b'*' value bits buffer (omega arith) (omega arith) room
