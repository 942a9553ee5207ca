-- ===== src/PdpClock/Callout/Later.antt =====
-- The queue over a run of ticks, with no call of `softclock` between.
use udproxy.Base.{
  ℕ, zero, suc, ◌+◌, ◌-◌, ◌≤◌, ◌<◌, ◌≡◌, ◌∙◌, ap, sym, refl, arith, Bool, true, ◌||◌, List, [], ◌∷◌,
  ltb, leb, map, All,
}
use udproxy.PdpClock.Callout.{Callout, tick}
use udproxy.PdpClock.Callout.View.{Due, view, IsQueue, IsFresh, soon, tick-view}

unfoldable pub ticks : ℕ → List Callout → List Callout
ticks zero ps = ps
ticks (suc n) ps = ticks n (tick ps).0

-- That many ticks nearer, and due from then on.
abbrev pub later : ℕ → Due → Due
later n e = record e { remaining = e.remaining - n }

map-later : (n : ℕ) (es : List Due) → map (later n) (map soon es) ≡ map (later (suc n)) es
map-later n [] = refl
map-later n (e ∷ es) = ground (arith, map-later n es)

map-later_zero : (es : List Due) → map (later 0) es ≡ es
map-later_zero [] = refl
map-later_zero (e ∷ es) = ground (arith, map-later_zero es)

-- The entry's time does not wrap within that many ticks.
unfoldable pub lasts : ℕ → Callout → Bool
lasts n p = ltb p.time 32768 || leb (32768 + n) p.time

abbrev pub IsLasting : ℕ → List Callout → Type 0
IsLasting n ps = All (λ p. lasts n p ≡ true) ps

lasting-IsFresh : (n : ℕ) (ps : List Callout) → IsLasting (suc n) ps → IsFresh ps
unfolding lasts
lasting-IsFresh n [] l = l
lasting-IsFresh n (p ∷ ps) (l, ls) = (ground arith, lasting-IsFresh n ps ls)

less-IsLasting : (n : ℕ) (ps : List Callout) → IsLasting (suc n) ps → IsLasting n ps
unfolding lasts
less-IsLasting n [] l = l
less-IsLasting n (p ∷ ps) (l, ls) = (ground arith, less-IsLasting n ps ls)

tick-IsLasting :
    (n : ℕ) (ps : List Callout)
    → n < 32768
    → IsQueue 0 ps
    → IsLasting (suc n) ps
    → IsLasting n (tick ps).0
unfolding tick lasts IsQueue
tick-IsLasting n [] small q l = l
tick-IsLasting n (p ∷ ps) small (w, b, o, q) (l, ls) =
    ground (arith, tick-IsLasting n ps, less-IsLasting n ps ls)

-- On a valid queue in which no entry's time wraps within `n` ticks, `n` at most 32768, the run of `n`
-- ticks leaves the queue valid, and brings each entry `n` ticks nearer: it is due once they are as many
-- as remained.
pub ticks-view :
    (n : ℕ) (ps : List Callout)
    → n ≤ 32768
    → IsQueue 0 ps
    → IsLasting n ps
    → (view 0 (ticks n ps) ≡ map (later n) (view 0 ps)) × IsQueue 0 (ticks n ps)
unfolding ticks
ticks-view zero ps small q l = (sym (map-later_zero (view 0 ps)), q)
ticks-view (suc n) ps small q l =
    let (nearer, valid, soft) = tick-view ps q (lasting-IsFresh n ps l) in
    let (rest, valid') =
      ticks-view n (tick ps).0 (omega arith) valid (tick-IsLasting n ps (omega arith) q l) in
    (rest ∙ ap (map (later n)) nearer ∙ map-later n (view 0 ps), valid')
