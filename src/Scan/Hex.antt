-- ===== src/Scan/Hex.antt =====
-- `%lx` reads what `%lx` printed.
use native.Mathlib.Nat.{pow-suc}
use udproxy.Base.{
  ℕ, zero, suc, ◌+◌, ◌*◌, ◌/◌, ◌%◌, ◌^◌, ◌≤◌, ◌<◌, ◌≡◌, ◌∙◌, ap, refl, ◌||◌, arith, Bool, true,
  false, none, some, List, [], ◌∷◌, ◌++◌, Bool-cases, inl, inr, ==_iff, ◌==◌,
}
use udproxy.Scan.{
  is_space, skip_space, digit_value, is_digit, scan_digits, starts_with_digit, skip_prefix,
  scan_magnitude, scan_ulong, hex_char, print_hex_loop, print_hex,
}

-- A text that does not go on with a hexadecimal digit or an x.
unfoldable pub stops : List ℕ → Bool
stops [] = true
stops (c ∷ cs) = c == 32 || c == 10

hex_char_digit :
    (d : ℕ) → d < 16 → (digit_value (hex_char d) ≡ d) × (is_digit 16 (hex_char d) ≡ true)
unfolding digit_value is_digit hex_char
hex_char_digit d h = ground arith

not_zero : (m : ℕ) → (m == 0) ≡ false → 0 < m
not_zero m e = ground arith

still : (left v : ℕ) → v < 16 ^ suc left → 0 < v / 16 → 0 < left
still zero v h more = absurd (omega arith)
still (suc left) v h more = omega arith

hex_char_zero : (d : ℕ) → d < 16 → hex_char d ≡ b'0' → d ≡ 0
unfolding hex_char
hex_char_zero d h e = ground arith

pub hex_char_range : (d : ℕ) → d < 16 → (48 ≤ hex_char d) × (hex_char d ≤ 102)
unfolding hex_char
hex_char_range d h = ground arith

scan_digit :
    (acc d : ℕ) (out : List ℕ)
    → d < 16
    → scan_digits 16 acc (hex_char d ∷ out) ≡ scan_digits 16 (acc * 16 + d) out
unfolding scan_digits
scan_digit acc d out h =
    rw ((hex_char_digit d h).1)
      (ap (λ (n : ℕ). scan_digits 16 (acc * 16 + n) out) ((hex_char_digit d h).0))

small_power : (left v : ℕ) → v < 16 ^ suc left → v / 16 < 16 ^ left
small_power left v h = omega (arith, pow-suc 16 left)

-- Reading the digits of v and then `out` is reading `out` with v on the left.
scan_digits-print :
    (left v : ℕ) (out : List ℕ)
    → v < 16 ^ left
    → 0 < left
    → scan_digits 16 0 (print_hex_loop left v out) ≡ scan_digits 16 v out
unfolding print_hex_loop
scan_digits-print zero v out h pos = absurd (omega arith)
scan_digits-print (suc left) v out h pos = elim (Bool-cases (v / 16 == 0)) [
  | inl e ↦ rw e (
      scan_digit 0 (v % 16) out (omega arith)
      ∙ ap (λ (n : ℕ). scan_digits 16 n out) (omega (arith, (==_iff _ 0).0 e)))
  | inr e ↦ rw e (
      scan_digits-print left (v / 16) (hex_char (v % 16) ∷ out) (small_power left v h)
        (still left v h (not_zero (v / 16) e))
      ∙ scan_digit (v / 16) (v % 16) out (omega arith)
      ∙ ap (λ (n : ℕ). scan_digits 16 n out) (omega arith))
]

scan_digits-stops : (v : ℕ) (rest : List ℕ) → stops rest ≡ true → scan_digits 16 v rest ≡ (v, rest)
unfolding scan_digits stops is_digit digit_value
scan_digits-stops v [] h = refl
scan_digits-stops v (c ∷ cs) h = ground arith

print_hex_loop-append :
    (left v : ℕ) (out rest : List ℕ)
    → print_hex_loop left v out ++ rest ≡ print_hex_loop left v (out ++ rest)
unfolding print_hex_loop
print_hex_loop-append zero v out rest = refl
print_hex_loop-append (suc left) v out rest =
    ground (arith, print_hex_loop-append left (v / 16) (hex_char (v % 16) ∷ out) rest)

-- The first digit is 0 only for the number 0, which is the one digit.
record Leads (v : ℕ) (out text : List ℕ) : Type 0 where
  digit : ℕ
  others : List ℕ
  shape : text ≡ hex_char digit ∷ others
  below : digit < 16
  zero_alone : v ≡ 0 → others ≡ out
  nonzero : 0 < v → 0 < digit

print_hex_loop-Leads :
    (left v : ℕ) (out : List ℕ) → v < 16 ^ left → 0 < left → Leads v out (print_hex_loop left v out)
unfolding print_hex_loop
print_hex_loop-Leads zero v out h pos = absurd (omega arith)
print_hex_loop-Leads (suc left) v out h pos = elim (Bool-cases (v / 16 == 0)) [
  | inl e ↦ rw e (record {
    digit = v % 16;
    others = out;
    shape = refl;
    below = omega arith;
    zero_alone = λ z. refl;
    nonzero = λ p. omega (arith, (==_iff _ 0).0 e);
  })
  | inr e ↦
      let more = not_zero (v / 16) e in
      let r =
        print_hex_loop-Leads left (v / 16) (hex_char (v % 16) ∷ out) (small_power left v h)
          (still left v h more) in
      rw e (record {
        digit = r.digit;
        others = r.others;
        shape = r.shape;
        below = r.below;
        zero_alone = λ z. absurd (omega arith);
        nonzero = λ p. r.nonzero more;
      })
]

not_prefix_stop :
    (d : ℕ) (rest : List ℕ)
    → stops rest ≡ true
    → skip_prefix 16 (hex_char d ∷ rest) ≡ hex_char d ∷ rest
unfolding skip_prefix stops
not_prefix_stop d [] h = refl
not_prefix_stop d (b ∷ cs) h = ground arith

not_prefix_digit :
    (d : ℕ) (others : List ℕ)
    → d < 16
    → 0 < d
    → skip_prefix 16 (hex_char d ∷ others) ≡ hex_char d ∷ others
unfolding skip_prefix
not_prefix_digit d [] h pos = refl
not_prefix_digit d (b ∷ cs) h pos = ground (arith, hex_char_zero d h)

no_prefix :
    (v : ℕ) (rest text : List ℕ)
    → stops rest ≡ true
    → Leads v rest text
    → skip_prefix 16 text ≡ text
no_prefix zero rest text h l = rw (l.shape, l.zero_alone refl) (not_prefix_stop l.digit rest h)
no_prefix (suc v) rest text h l =
    rw l.shape (not_prefix_digit l.digit l.others l.below (l.nonzero (omega arith)))

not_sign :
    (d : ℕ)
    → d < 16
    → (is_space (hex_char d) ≡ false)
      × ((hex_char d == b'+') ≡ false)
      × ((hex_char d == b'-') ≡ false)
unfolding is_space
not_sign d h = ground (arith, hex_char_range d h)

-- A text that begins with a digit is scanned from there.
scan_ulong-digit :
    (base limit d : ℕ) (others : List ℕ)
    → d < 16
    → scan_ulong base limit (hex_char d ∷ others) ≡ scan_magnitude base limit (hex_char d ∷ others)
unfolding scan_ulong
scan_ulong-digit base limit d others h = unfold skip_space in ground (arith, not_sign d h)

scan_magnitude-digit :
    (limit d v : ℕ) (others rest : List ℕ)
    → d < 16
    → v < limit
    → skip_prefix 16 (hex_char d ∷ others) ≡ hex_char d ∷ others
    → scan_digits 16 0 (hex_char d ∷ others) ≡ (v, rest)
    → scan_magnitude 16 limit (hex_char d ∷ others) ≡ some (v, rest)
unfolding scan_magnitude starts_with_digit
scan_magnitude-digit limit d v others rest h small e e' = ground (arith, (hex_char_digit d h).1)

-- A number below the limit is read back, up to a space, a newline or the end.
pub scan_ulong-print_hex_below :
    (limit v : ℕ) (rest : List ℕ)
    → v < limit
    → limit ≤ 2 ^ 64
    → stops rest ≡ true
    → scan_ulong 16 limit (print_hex v ++ rest) ≡ some (v, rest)
unfolding print_hex
scan_ulong-print_hex_below limit v rest h w e =
    let l = print_hex_loop-Leads 16 v rest (omega arith) (omega arith) in
    rw (print_hex_loop-append 16 v [] rest, l.shape)
      (scan_ulong-digit 16 limit l.digit l.others l.below
        ∙ scan_magnitude-digit limit l.digit v l.others rest l.below h
            (rw l.shape at (no_prefix v rest _ e l))
            (rw l.shape at (
              scan_digits-print 16 v rest (omega arith) (omega arith)
              ∙ scan_digits-stops v rest e)))

-- `%lx` reads back each number of 64 bits that `%lx` printed, up to a space, a newline or the end.
pub scan_ulong-print_hex :
    (v : ℕ) (rest : List ℕ)
    → v < 2 ^ 64
    → stops rest ≡ true
    → scan_ulong 16 (2 ^ 64) (print_hex v ++ rest) ≡ some (v, rest)
scan_ulong-print_hex v rest h e = scan_ulong-print_hex_below (2 ^ 64) v rest h (omega arith) e

no_octal_prefix : (c : ℕ) (cs : List ℕ) → skip_prefix 8 (c ∷ cs) ≡ c ∷ cs
unfolding skip_prefix
no_octal_prefix c [] = refl
no_octal_prefix c (b ∷ cs) = ground arith

scan_magnitude-no_octal :
    (limit c : ℕ) (cs : List ℕ) → is_digit 8 c ≡ false → scan_magnitude 8 limit (c ∷ cs) ≡ none
unfolding scan_magnitude starts_with_digit
scan_magnitude-no_octal limit c cs h = ground (arith, no_octal_prefix c cs)

-- A number whose first hexadecimal digit is no octal one is not read by `%lo`.
pub scan_ulong-no_octal :
    (limit v : ℕ) (rest : List ℕ)
    → v < 2 ^ 64
    → starts_with_digit 8 (print_hex v) ≡ false
    → scan_ulong 8 limit (print_hex v ++ rest) ≡ none
unfolding print_hex
scan_ulong-no_octal limit v rest h e =
    let l = print_hex_loop-Leads 16 v [] (omega arith) (omega arith) in
    rw l.shape (
      scan_ulong-digit 8 limit l.digit (l.others ++ rest) l.below
      ∙ scan_magnitude-no_octal limit (hex_char l.digit) (l.others ++ rest)
          (unfold starts_with_digit in (rw l.shape at e)))
