-- ===== src/Symbols/Lookup.antt =====
-- Which address the clients find in a listing of hexadecimal addresses.
use udproxy.Base.{
  ℕ, ◌^◌, ◌≤◌, ◌<◌, ◌≡◌, ◌∙◌, ap, refl, arith, false, none, some, zero, suc, length, length-append,
  ltb, List, [], ◌∷◌, ◌++◌, All, map, if◌then◌else◌,
}
use udproxy.Scan.{
  is_space, skip_space, take_word, scan_word, scan_ulong, starts_with_digit, print_hex,
}
use udproxy.Scan.Hex.{stops, scan_ulong-no_octal, scan_ulong-print_hex_below}
use udproxy.Symbols.{
  pieces, fgets_all, Scanned, mismatch, scanned, too_long, sscanf_symbol, parse_line, is_panel,
  Search, address, beyond, search, find_panel,
}

-- A symbol as `nm` lists it: its address, the letter of its type, and its name.
pub record Symbol : Type 0 where
  pub value : ℕ
  pub type : ℕ
  pub name : List ℕ

-- A line of `nm`: "%lx %c %s\n".
unfoldable pub nm_line : Symbol → List ℕ
nm_line y = print_hex y.value ++ (32 ∷ y.type ∷ 32 ∷ (y.name ++ (10 ∷ [])))

abbrev IsWord : List ℕ → Type 0
IsWord [] = Unit
IsWord (c ∷ cs) = (is_space c ≡ false) × IsWord cs

-- An address of `limit` values whose first digit is no octal one, and a name without spaces, on a line
-- that `fgets` delivers whole.
pub record IsListed (limit : ℕ) (y : Symbol) : Type 0 where
  pub fits : y.value < limit
  pub high : starts_with_digit 8 (print_hex y.value) ≡ false
  pub letter : is_space y.type ≡ false
  pub nonempty : y.name ≡ [] → ⊥
  pub word : IsWord y.name
  pub whole : length (nm_line y) ≤ 255

-- The address of the first symbol named panel or _panel, 0 if there is none; but `beyond` if a name of
-- more than 63 characters stands before it.
unfoldable pub first_panel : List Symbol → Search
first_panel [] = address 0
first_panel (y ∷ ys) =
    if ltb 63 (length y.name)
    then beyond
    else if is_panel y.name
    then address y.value
    else first_panel ys

take_word-line : (w : List ℕ) → IsWord w → take_word (w ++ (10 ∷ [])) ≡ (w, 10 ∷ [])
unfolding take_word is_space
take_word-line [] h = refl
take_word-line (c ∷ cs) (p, ps) = rw p (ap (λ r. (c ∷ r.0, r.1)) (take_word-line cs ps))

scan_word-line :
    (w : List ℕ) → (w ≡ [] → ⊥) → IsWord w → scan_word (32 ∷ (w ++ (10 ∷ []))) ≡ some (w, 10 ∷ [])
unfolding scan_word skip_space
scan_word-line [] n h = absurd (n refl)
scan_word-line (c ∷ cs) n (p, ps) =
    unfold is_space in ground (arith, p, take_word-line (c ∷ cs) (p, ps))

skip_space-letter :
    (t : ℕ) (rest : List ℕ) → is_space t ≡ false → skip_space (32 ∷ t ∷ rest) ≡ t ∷ rest
unfolding skip_space
skip_space-letter t rest h = unfold is_space in ground (arith, h)

sscanf_symbol-step :
    (base limit : ℕ) (line : List ℕ) {v t : ℕ} {rest rest' w end : List ℕ}
    → scan_ulong base limit line ≡ some (v, rest)
    → skip_space rest ≡ t ∷ rest'
    → scan_word rest' ≡ some (w, end)
    → sscanf_symbol base limit line ≡ (if ltb 63 (length w) then too_long else scanned v w)
unfolding sscanf_symbol
sscanf_symbol-step base limit line a b c = rw (a, sscanf_symbol) (rw b (rw c refl))

sscanf_symbol-none :
    (base limit : ℕ) (line : List ℕ)
    → scan_ulong base limit line ≡ none
    → sscanf_symbol base limit line ≡ mismatch
unfolding sscanf_symbol
sscanf_symbol-none base limit line a = rw (a, sscanf_symbol) refl

abbrev after_value : Symbol → List ℕ
after_value y = 32 ∷ y.type ∷ 32 ∷ (y.name ++ (10 ∷ []))

no_octal :
    (limit : ℕ) (y : Symbol)
    → limit ≤ 2 ^ 64
    → IsListed limit y
    → sscanf_symbol 8 limit (nm_line y) ≡ mismatch
unfolding nm_line
no_octal limit y small l =
    let fits : y.value < limit = l.fits in
    sscanf_symbol-none 8 limit (nm_line y)
      (scan_ulong-no_octal limit y.value (after_value y) (omega arith) l.high)

sscanf_symbol-line :
    (limit : ℕ) (y : Symbol)
    → limit ≤ 2 ^ 64
    → IsListed limit y
    → sscanf_symbol 16 limit (nm_line y)
      ≡ (if ltb 63 (length y.name) then too_long else scanned y.value y.name)
unfolding nm_line
sscanf_symbol-line limit y small l =
    sscanf_symbol-step 16 limit (nm_line y)
      (scan_ulong-print_hex_below limit y.value (after_value y) l.fits small (unfold stops in refl))
      (skip_space-letter y.type (32 ∷ (y.name ++ (10 ∷ []))) l.letter)
      (scan_word-line y.name l.nonempty l.word)

parse_line-line :
    (limit : ℕ) (y : Symbol)
    → limit ≤ 2 ^ 64
    → IsListed limit y
    → parse_line limit (nm_line y)
      ≡ (if ltb 63 (length y.name) then too_long else scanned y.value y.name)
unfolding parse_line
parse_line-line limit y small l =
    rw (no_octal limit y small l, parse_line) (sscanf_symbol-line limit y small l)

pieces-short :
    (room : ℕ) (line : List ℕ) → 0 < length line → length line ≤ room → pieces room line ≡ line ∷ []
unfolding pieces
pieces-short room [] some_text fits = absurd (omega arith)
pieces-short zero (c ∷ cs) some_text fits = absurd (omega arith)
pieces-short (suc zero) (c ∷ []) some_text fits = refl
pieces-short (suc zero) (c ∷ d ∷ cs) some_text fits = absurd (omega arith)
pieces-short (suc (suc room)) (c ∷ []) some_text fits = refl
pieces-short (suc (suc room)) (c ∷ d ∷ cs) some_text fits =
    rw (pieces-short (suc room) (d ∷ cs) (omega arith) (omega arith)) refl

nm_line-nonempty : (y : Symbol) → 0 < length (nm_line y)
unfolding nm_line
nm_line-nonempty y = omega (arith, length-append (print_hex y.value) (after_value y))

fgets_all-lines :
    (limit : ℕ) (ys : List Symbol)
    → All (IsListed limit) ys
    → fgets_all (map nm_line ys) ≡ map nm_line ys
unfolding fgets_all
fgets_all-lines limit [] h = refl
fgets_all-lines limit (y ∷ ys) (l, ls) =
    rw (pieces-short 255 (nm_line y) (nm_line-nonempty y) l.whole)
      (ap (λ t. nm_line y ∷ t) (fgets_all-lines limit ys ls))

-- One listed line.
search-line :
    (y : Symbol) (s : Scanned) (rest : Search)
    → s ≡ (if ltb 63 (length y.name) then too_long else scanned y.value y.name)
    → (elim s [
      | mismatch ↦ rest
      | scanned addr symbol ↦ if is_panel symbol then address addr else rest
      | too_long ↦ beyond
    ])
      ≡ (if ltb 63 (length y.name)
          then beyond
          else if is_panel y.name
          then address y.value
          else rest)
search-line y s rest e = ground (arith, e)

search-first :
    (limit : ℕ) (ys : List Symbol)
    → limit ≤ 2 ^ 64
    → All (IsListed limit) ys
    → search limit (map nm_line ys) ≡ first_panel ys
unfolding search first_panel
search-first limit [] small h = refl
search-first limit (y ∷ ys) small (l, ls) =
    search-line y (parse_line limit (nm_line y)) (search limit (map nm_line ys))
      (parse_line-line limit y small l)
    ∙ ap
        (λ t.
          if ltb 63 (length y.name) then beyond else if is_panel y.name then address y.value else t)
        (search-first limit ys small ls)

-- In a listing of hexadecimal addresses below `limit`, at most 2 ^ 64, none of which begins with an
-- octal digit, on lines of at most 255 characters: the clients find the address of the first symbol
-- named panel or _panel, and NULL if there is none, unless a name of more than 63 characters stands
-- before it, which is written beyond the array of 64.
pub find_panel-first :
    (limit : ℕ) (ys : List Symbol)
    → limit ≤ 2 ^ 64
    → All (IsListed limit) ys
    → find_panel limit (map nm_line ys) ≡ first_panel ys
unfolding find_panel
find_panel-first limit ys small h =
    ap (search limit) (fgets_all-lines limit ys h) ∙ search-first limit ys small h
