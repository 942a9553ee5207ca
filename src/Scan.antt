-- ===== src/Scan.antt =====
-- The conversions of `sscanf` and `printf` that the clients use, on texts as lists of codes.
pub mod Hex
use udproxy.Base.{
  ℕ, zero, suc, ◌+◌, ◌-◌, ◌*◌, ◌/◌, ◌%◌, ◌^◌, Bool, true, false, ◌&&◌, ◌||◌, Option, none, some,
  List, [], ◌∷◌, ◌++◌, if◌then◌else◌, ltb, leb, ◌==◌,
}

-- `isspace` in the C locale.
unfoldable pub is_space : ℕ → Bool
is_space c = c == 32 || (leb 9 c && leb c 13)

unfoldable pub skip_space : List ℕ → List ℕ
unfolding is_space
skip_space [] = []
skip_space (c ∷ cs) = let rest = skip_space cs in if is_space c then rest else c ∷ cs

-- The value of a digit in bases up to 16.
unfoldable pub digit_value : ℕ → ℕ
digit_value c =
    if leb b'0' c && leb c b'9'
    then c - b'0'
    else if leb b'a' c && leb c b'f'
    then c - b'a' + 10
    else if leb b'A' c && leb c b'F'
    then c - b'A' + 10
    else 99

unfoldable pub is_digit : ℕ → ℕ → Bool
unfolding digit_value
is_digit base c = ltb (digit_value c) base

-- The longest run of digits, its value, and what follows.
unfoldable pub scan_digits : ℕ → ℕ → List ℕ → ℕ × List ℕ
unfolding is_digit digit_value
scan_digits base acc [] = (acc, [])
scan_digits base acc (c ∷ cs) =
    let rest = scan_digits base (acc * base + digit_value c) cs in
    if is_digit base c then rest else (acc, c ∷ cs)

unfoldable pub starts_with_digit : ℕ → List ℕ → Bool
unfolding is_digit
starts_with_digit base [] = false
starts_with_digit base (c ∷ cs) = is_digit base c

-- A prefix 0x or 0X before a hexadecimal digit.
unfoldable pub skip_prefix : ℕ → List ℕ → List ℕ
unfolding starts_with_digit
skip_prefix base (a ∷ b ∷ cs) =
    if ((base == 16 && a == b'0') && (b == b'x' || b == b'X')) && starts_with_digit base cs
    then cs
    else a ∷ b ∷ cs
skip_prefix base (a ∷ []) = a ∷ []
skip_prefix base [] = []

-- The digits of a number behind its sign: a value beyond the largest `unsigned long`, `limit` - 1, is
-- that largest one.
unfoldable pub scan_magnitude : ℕ → ℕ → List ℕ → Option (ℕ × List ℕ)
scan_magnitude base limit s =
    let t = skip_prefix base s in
    if starts_with_digit base t
    then (let (v, rest) = scan_digits base 0 t in some (if ltb v limit then v else limit - 1, rest))
    else none

-- `%lx` in base 16 and `%lo` in base 8: leading space, a sign, digits. `limit` is 2 ^ bits of `long`.
unfoldable pub scan_ulong : ℕ → ℕ → List ℕ → Option (ℕ × List ℕ)
scan_ulong base limit s = elim (skip_space s) [
  | [] ↦ none
  | c ∷ cs ↦
      if c == b'+'
      then scan_magnitude base limit cs
      else if c == b'-'
      then elim (scan_magnitude base limit cs) [
        | none ↦ none
        | some (v, rest) ↦ some ((limit - v) % limit, rest)
      ]
      else scan_magnitude base limit (c ∷ cs)
]

-- `%s`: leading space, then the longest run of other characters, at least one.
unfoldable pub take_word : List ℕ → List ℕ × List ℕ
unfolding is_space
take_word [] = ([], [])
take_word (c ∷ cs) =
    let (w, rest) = take_word cs in if is_space c then ([], c ∷ cs) else (c ∷ w, rest)

unfoldable pub scan_word : List ℕ → Option (List ℕ × List ℕ)
unfolding skip_space take_word
scan_word s = elim (skip_space s) [ [] ↦ none | c ∷ cs ↦ some (take_word (c ∷ cs)) ]

-- A literal part of a format: a space stands for any white space, another character for itself.
unfoldable pub match_literal : List ℕ → List ℕ → Option (List ℕ)
unfolding is_space skip_space
match_literal [] s = some s
match_literal (f ∷ fs) [] = let rest = match_literal fs [] in if is_space f then rest else none
match_literal (f ∷ fs) (c ∷ cs) =
    let spaced = match_literal fs (skip_space (c ∷ cs)) in
    let plain = match_literal fs cs in if is_space f then spaced else if f == c then plain else none

-- `printf` with `%lx`, for a number of at most `width` hexadecimal digits.
unfoldable pub hex_char : ℕ → ℕ
hex_char d = if ltb d 10 then b'0' + d else b'a' + (d - 10)

unfoldable pub print_hex_loop : ℕ → ℕ → List ℕ → List ℕ
unfolding hex_char
print_hex_loop zero v out = out
print_hex_loop (suc left) v out =
    let more = print_hex_loop left (v / 16) (hex_char (v % 16) ∷ out) in
    if v / 16 == 0 then hex_char (v % 16) ∷ out else more

unfoldable pub print_hex : ℕ → List ℕ
print_hex v = print_hex_loop 16 v []
