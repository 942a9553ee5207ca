-- ===== src/PdpClock/Callout/Pool.antt =====
-- The operations on the queue and its free entries.
use udproxy.Base.{
  ℕ, suc, ◌+◌, ◌≤◌, ◌≡◌, refl, arith, Option, none, some, List, [], ◌∷◌, length, length-append,
  if◌then◌else◌,
}
use udproxy.PdpClock.{positive, minus}
use udproxy.PdpClock.Callout.{
  Callout, Callouts, insert, shorten, lengthen, timeout, remove, untimeout,
}
use udproxy.PdpClock.Callout.View.{view, IsQueue, insert_due, remove_due, insert-view, remove-view}

-- All entries, in use or free.
unfoldable pub entries : Callouts → ℕ
entries c = length c.todo + length c.callfree

length-shorten : (t : ℕ) (ps : List Callout) → length (shorten t ps) ≡ length ps
unfolding shorten
length-shorten t [] = refl
length-shorten t (p ∷ ps) = refl

length-lengthen : (t : ℕ) (ps : List Callout) → length (lengthen t ps) ≡ length ps
unfolding lengthen
length-lengthen t [] = refl
length-lengthen t (p ∷ ps) = refl

length-insert :
    (func arg t : ℕ) (ps : List Callout) → length (insert func arg t ps) ≡ suc (length ps)
unfolding insert
length-insert func arg t [] = refl
length-insert func arg t (p ∷ ps) = ground (
  arith,
  length-insert func arg (if positive p.time then minus t p.time else t) ps,
  length-shorten t (p ∷ ps),
)

length-remove :
    (func arg : ℕ) (ps : List Callout)
    → length (remove func arg ps).0 + length (remove func arg ps).1 ≡ length ps
unfolding remove
length-remove func arg [] = omega arith
length-remove func arg (p ∷ ps) =
    ground (arith, length-remove func arg ps, length-lengthen p.time ps)

-- The ticks that a caller asks for: at least one, and one for a negative number.
abbrev pub asked : ℕ → ℕ
asked t = if positive t then t else 1

-- What `timeout` makes of a valid queue.
abbrev pub Arms : (func arg t : ℕ) → Callouts → Option Callouts → Type 0
Arms func arg t c none = c.callfree ≡ []
Arms func arg t c (some c') =
    (view 0 c'.todo
      ≡ insert_due (record { remaining = asked t; func = func; arg = arg }) (view 0 c.todo))
    × IsQueue 0 c'.todo
    × (entries c' ≡ entries c)
    × (suc (length c'.callfree) ≡ length c.callfree)

armed :
    (func arg t : ℕ) (todo callfree : List Callout)
    → IsQueue 0 todo
    → let c : Callouts = record { todo = todo; callfree = callfree } in
      Arms func arg t c (timeout func arg t c)
unfolding timeout entries
armed func arg t todo [] q = refl
armed func arg t todo (pnew ∷ rest) q =
    ground (arith, insert-view 0 func arg (asked t) todo, length-insert func arg (asked t) todo)

-- On a queue of time differences in which no time is negative behind a positive one and no entry is
-- more than 32767 ticks away, `timeout` panics only without a free entry, and else arms the function
-- for the ticks asked for, one if that is not positive: the new entry stands before the first one that
-- is due no earlier, all others keep their ticks, and a free entry is used up.
pub timeout-Arms :
    (func arg t : ℕ) (c : Callouts) → IsQueue 0 c.todo → Arms func arg t c (timeout func arg t c)
timeout-Arms func arg t c q = armed func arg t c.todo c.callfree q

-- `untimeout` takes the first entry of that function and argument out, if there is one, and gives it
-- back: all others keep their ticks.
pub untimeout-view :
    (func arg : ℕ) (c : Callouts)
    → IsQueue 0 c.todo
    → (view 0 (untimeout func arg c).todo ≡ remove_due func arg (view 0 c.todo))
      × IsQueue 0 (untimeout func arg c).todo
      × (entries (untimeout func arg c) ≡ entries c)
      × (length c.callfree ≤ length (untimeout func arg c).callfree)
unfolding untimeout entries
untimeout-view func arg c q = ground (
  arith,
  remove-view 0 func arg c.todo q,
  length-remove func arg c.todo,
  length-append (remove func arg c.todo).1 c.callfree,
)
