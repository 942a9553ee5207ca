-- ===== src/PdpClock/Callout/View.antt =====
-- What the queue of time differences stands for: each entry with the ticks that remain until it is due.
use udproxy.Base.{
  ℕ, ◌+◌, ◌-◌, ◌<◌, ◌≡◌, arith, Bool, false, ◌&&◌, List, [], ◌∷◌, if◌then◌else◌, ltb, leb, ◌==◌,
  map, All,
}
use udproxy.PdpClock.{positive}
use udproxy.PdpClock.Callout.{Callout, tick, insert, shorten, remove, lengthen}

pub record Due : Type 0 where
  pub remaining : ℕ
  pub func : ℕ
  pub arg : ℕ

-- The part of a time that delays: nothing if the entry is due.
abbrev pub delay : ℕ → ℕ
delay t = if positive t then t else 0

abbrev pub due_at : ℕ → Callout → Due
due_at n p = record { remaining = n; func = p.func; arg = p.arg }

unfoldable pub view : ℕ → List Callout → List Due
view n [] = []
view n (p ∷ ps) = due_at (n + delay p.time) p ∷ view (n + delay p.time) ps

-- Behind `n` ticks: no entry is more than 32767 ticks away, and behind an entry that is not due no
-- time is negative.
unfoldable pub IsQueue : ℕ → List Callout → Type 0
IsQueue n [] = Unit
IsQueue n (p ∷ ps) =
    (p.time < 65536)
    × (n + delay p.time < 32768)
    × ((ltb 0 n && leb 32768 p.time) ≡ false)
    × IsQueue (n + delay p.time) ps

-- Before the first entry that is due no earlier.
unfoldable pub insert_due : Due → List Due → List Due
insert_due d [] = d ∷ []
insert_due d (e ∷ es) =
    let rest = insert_due d es in if ltb e.remaining d.remaining then e ∷ rest else d ∷ e ∷ es

pub insert-view :
    (n func arg t : ℕ) (ps : List Callout)
    → IsQueue n ps
    → 0 < t
    → n + t < 32768
    → (view n (insert func arg t ps)
        ≡ insert_due (record { remaining = n + t; func = func; arg = arg }) (view n ps))
      × IsQueue n (insert func arg t ps)
unfolding view insert insert_due IsQueue shorten
insert-view n func arg t [] q pos room = ground arith
insert-view n func arg t (p ∷ ps) (w, b, o, q) pos room =
    ground (arith, insert-view (n + delay p.time) func arg (t - delay p.time) ps q)

-- Without the first entry of a function and an argument.
unfoldable pub remove_due : (func arg : ℕ) → List Due → List Due
remove_due func arg [] = []
remove_due func arg (e ∷ es) =
    let rest = remove_due func arg es in if (e.func == func) && (e.arg == arg) then es else e ∷ rest

lengthen-view :
    (n t : ℕ) (ps : List Callout)
    → 0 < t
    → n + t < 32768
    → IsQueue (n + t) ps
    → (view n (lengthen t ps) ≡ view (n + t) ps) × IsQueue n (lengthen t ps)
unfolding view IsQueue lengthen
lengthen-view n t [] pos room q = ground arith
lengthen-view n t (p ∷ ps) pos room (w, b, o, q) = ground arith

pub remove-view :
    (n func arg : ℕ) (ps : List Callout)
    → IsQueue n ps
    → (view n (remove func arg ps).0 ≡ remove_due func arg (view n ps))
      × IsQueue n (remove func arg ps).0
unfolding view remove remove_due IsQueue
remove-view n func arg [] q = ground arith
remove-view n func arg (p ∷ ps) (w, b, o, q) =
    ground (arith, remove-view (n + delay p.time) func arg ps q, lengthen-view n p.time ps)

-- One tick nearer.
abbrev pub soon : Due → Due
soon d = record d { remaining = d.remaining - 1 }

-- Whether the first entry is due.
unfoldable pub is_due : List Due → Bool
is_due [] = false
is_due (e ∷ es) = e.remaining == 0

nearer :
    (n : ℕ) (ps : List Callout)
    → 0 < n
    → IsQueue n ps
    → (view (n - 1) ps ≡ map soon (view n ps)) × IsQueue (n - 1) ps
unfolding view IsQueue
nearer n [] pos q = ground arith
nearer n (p ∷ ps) pos (w, b, o, q) = ground (arith, nearer (n + delay p.time) ps)

-- No entry has been due for so long that its time wraps.
abbrev pub IsFresh : List Callout → Type 0
IsFresh ps = All (λ p. (p.time == 32768) ≡ false) ps

-- On a valid queue in which no entry has been due for 32768 ticks, a tick of the loop brings each entry
-- one tick nearer, leaves the queue valid, and asks for `softclock` exactly if the first entry is then
-- due.
pub tick-view :
    (ps : List Callout)
    → IsQueue 0 ps
    → IsFresh ps
    → (view 0 (tick ps).0 ≡ map soon (view 0 ps))
      × IsQueue 0 (tick ps).0
      × ((tick ps).1 ≡ is_due (view 0 (tick ps).0))
unfolding view tick IsQueue is_due
tick-view [] q f = ground arith
tick-view (p ∷ ps) (w, b, o, q) (f, fs) = ground (arith, tick-view ps, nearer (delay p.time) ps)
