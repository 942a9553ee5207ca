-- ===== src/LinuxX64/Text.antt =====
-- Reading back the text of /proc/panel_regs.
use udproxy.Base.{
  ℕ, ◌^◌, ◌<◌, ◌≡◌, ◌∙◌, ap, refl, arith, true, some, List, [], ◌∷◌, ◌++◌, All, length,
  append_assoc, drop,
}
use udproxy.Scan.{match_literal, scan_ulong, print_hex}
use udproxy.Scan.Hex.{stops, scan_ulong-print_hex}
use udproxy.LinuxX64.{labels, print_fields}
use udproxy.LinuxX64.Client.{sscanf_fields}

-- A literal part matches itself.
abbrev pub IsLabel : List ℕ → Type 0
IsLabel l = (rest : List ℕ) → match_literal l (l ++ rest) ≡ some rest

-- It ends the digits before it.
abbrev pub IsSpaced : List ℕ → Type 0
IsSpaced l = (rest : List ℕ) → stops (l ++ rest) ≡ true

-- All but the first are spaced.
abbrev pub Chain : List (List ℕ) → Type 0
Chain [] = Unit
Chain (l ∷ ls) = IsLabel l × All IsSpaced ls × Chain ls

abbrev pub Fits : List ℕ → Type 0
Fits vs = All (λ v. v < 2 ^ 64) vs

parts-Chain : (ls : List (List ℕ)) → All IsLabel ls → All IsSpaced (drop 1 ls) → Chain ls
parts-Chain [] h g = tt
parts-Chain (l ∷ []) (h, _) g = (h, tt, tt)
parts-Chain (l ∷ m ∷ ls) (h, hs) (g, gs) = (h, (g, gs), parts-Chain (m ∷ ls) hs gs)

pub labels-Chain : Chain labels
unfolding match_literal stops
labels-Chain =
    parts-Chain labels
      (
        λ r. refl,
        (
          λ r. refl,
          (
            λ r. refl,
            (
              λ r. refl,
              (
                λ r. refl,
                (
                  λ r. refl,
                  (
                    λ r. refl,
                    (
                      λ r. refl,
                      (
                        λ r. refl,
                        (
                          λ r. refl,
                          (
                            λ r. refl,
                            (
                              λ r. refl,
                              (
                                λ r. refl,
                                (
                                  λ r. refl,
                                  (
                                    λ r. refl,
                                    (
                                      λ r. refl,
                                      (
                                        λ r. refl,
                                        (λ r. refl, (λ r. refl, (λ r. refl, (λ r. refl, tt)))),
                                      ),
                                    ),
                                  ),
                                ),
                              ),
                            ),
                          ),
                        ),
                      ),
                    ),
                  ),
                ),
              ),
            ),
          ),
        ),
      )
      (
        λ r. refl,
        (
          λ r. refl,
          (
            λ r. refl,
            (
              λ r. refl,
              (
                λ r. refl,
                (
                  λ r. refl,
                  (
                    λ r. refl,
                    (
                      λ r. refl,
                      (
                        λ r. refl,
                        (
                          λ r. refl,
                          (
                            λ r. refl,
                            (
                              λ r. refl,
                              (
                                λ r. refl,
                                (
                                  λ r. refl,
                                  (
                                    λ r. refl,
                                    (
                                      λ r. refl,
                                      (λ r. refl, (λ r. refl, (λ r. refl, (λ r. refl, tt)))),
                                    ),
                                  ),
                                ),
                              ),
                            ),
                          ),
                        ),
                      ),
                    ),
                  ),
                ),
              ),
            ),
          ),
        ),
      )

print_fields-stops :
    (ls : List (List ℕ)) (vs rest : List ℕ)
    → All IsSpaced ls
    → stops rest ≡ true
    → stops (print_fields ls vs ++ rest) ≡ true
unfolding print_fields
print_fields-stops [] vs rest spaced h = h
print_fields-stops (l ∷ ls) [] rest spaced h = h
print_fields-stops (l ∷ ls) (v ∷ vs) rest (spaced, _) h =
    rw (append_assoc l (print_hex v ++ print_fields ls vs) rest) (spaced _)

sscanf_fields_step :
    (l : List ℕ) (ls : List (List ℕ)) (text : List ℕ) {text' rest : List ℕ} {v : ℕ}
    → match_literal l text ≡ some text'
    → scan_ulong 16 (2 ^ 64) text' ≡ some (v, rest)
    → sscanf_fields (l ∷ ls) text ≡ v ∷ sscanf_fields ls rest
unfolding sscanf_fields
sscanf_fields_step l ls text m n = rw (m, sscanf_fields) (rw n)

-- `sscanf` converts every value that the labels' text holds.
pub sscanf_fields-print :
    (ls : List (List ℕ)) (vs rest : List ℕ)
    → Chain ls
    → Fits vs
    → length vs ≡ length ls
    → stops rest ≡ true
    → sscanf_fields ls (print_fields ls vs ++ rest) ≡ vs
unfolding sscanf_fields print_fields
sscanf_fields-print [] [] rest c f e h = refl
sscanf_fields-print [] (v ∷ vs) rest c f e h = absurd (omega arith)
sscanf_fields-print (l ∷ ls) [] rest c f e h = absurd (omega arith)
sscanf_fields-print (l ∷ ls) (v ∷ vs) rest (label, spaced, c) (fits, f) e h =
    rw
      (
        append_assoc l (print_hex v ++ print_fields ls vs) rest,
        append_assoc (print_hex v) (print_fields ls vs) rest,
      )
      (sscanf_fields_step l ls _ (label _) (
          scan_ulong-print_hex v (print_fields ls vs ++ rest) fits
            (print_fields-stops ls vs rest spaced h))
        ∙ ap (λ t. v ∷ t) (sscanf_fields-print ls vs rest c f (omega arith) h))
