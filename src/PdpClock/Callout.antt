-- ===== src/PdpClock/Callout.antt =====
-- The timeout queue: `timeout`, `untimeout`, `softclock`, and the loop of `hardclock` over the queue.
pub mod View
pub mod Later
pub mod Pool
pub mod Softclock
use udproxy.Base.{
  ℕ, zero, suc, ◌+◌, ◌-◌, ◌%◌, Bool, true, false, ◌&&◌, Option, none, some, List, [], ◌∷◌, ◌++◌,
  if◌then◌else◌, ◌==◌, ltb, not,
}
use udproxy.PdpClock.{positive, less, minus, plus}

-- `struct callout` without its link. `time` is relative to the entry before.
pub record Callout : Type 0 where
  pub time : ℕ
  pub arg : ℕ
  pub func : ℕ

-- `calltodo.c_next` and `callfree`, each with its links.
pub record Callouts : Type 0 where
  pub todo : List Callout
  pub callfree : List Callout

-- The loop of `hardclock`: the queue, and `needsoft`.
unfoldable pub tick : List Callout → List Callout × Bool
tick [] = ([], false)
tick (p ∷ ps) =
    let time = minus p.time 1 in
    let (rest, soft) = tick ps in
    if positive time
    then (record p { time = time } ∷ ps, false)
    else if time == 0
    then (record p { time = time } ∷ ps, true)
    else (record p { time = time } ∷ rest, true)

-- `p2->c_time -= t` for the entry behind a new one.
unfoldable pub shorten : ℕ → List Callout → List Callout
shorten t [] = []
shorten t (p ∷ ps) = record p { time = minus p.time t } ∷ ps

-- The walk of `timeout` and the insertion behind it.
unfoldable pub insert : (func arg t : ℕ) → List Callout → List Callout
unfolding shorten
insert func arg t [] = record { time = t; arg = arg; func = func } ∷ []
insert func arg t (p ∷ ps) =
    let rest = insert func arg (if positive p.time then minus t p.time else t) ps in
    if less p.time t
    then p ∷ rest
    else record { time = t; arg = arg; func = func } ∷ shorten t (p ∷ ps)

-- `none` is the panic "timeout table overflow".
unfoldable pub timeout : (func arg t : ℕ) → Callouts → Option Callouts
unfolding insert
timeout func arg t c = elim c.callfree [
  | [] ↦ none
  | pnew ∷ rest ↦
      some (record { todo = insert func arg (if positive t then t else 1) c.todo; callfree = rest })
]

-- `p2->c_next->c_time += p2->c_time`, where there is a next entry.
unfoldable pub lengthen : ℕ → List Callout → List Callout
lengthen t [] = []
lengthen t (p ∷ ps) = record p { time = plus p.time t } ∷ ps

-- The queue without the first entry of that function and argument, and that entry.
unfoldable pub remove : (func arg : ℕ) → List Callout → List Callout × List Callout
unfolding lengthen
remove func arg [] = ([], [])
remove func arg (p ∷ ps) =
    let (rest, gone) = remove func arg ps in
    if (p.func == func) && (p.arg == arg)
    then (if positive p.time then lengthen p.time ps else ps, p ∷ [])
    else (p ∷ rest, gone)

unfoldable pub untimeout : (func arg : ℕ) → Callouts → Callouts
unfolding remove
untimeout func arg c =
    let (todo, gone) = remove func arg c.todo in
    record { todo = todo; callfree = gone ++ c.callfree }

-- What a called function does to the queue: its calls, in order.
pub data Op : Type 0 where
  arm : (func arg t : ℕ) → Op
  disarm : (func arg : ℕ) → Op

unfoldable pub perform : List Op → Callouts → Option Callouts
perform [] c = some c
perform (arm func arg t ∷ os) c = elim (timeout func arg t c) [
  | none ↦ none
  | some c' ↦ perform os c'
]
perform (disarm func arg ∷ os) c = perform os (untimeout func arg c)

-- A call that `softclock` makes: the function, its argument and the entry's time.
pub record Called : Type 0 where
  pub func : ℕ
  pub arg : ℕ
  pub time : ℕ

-- How `softclock` ends: with its loop left, by a panic in a called function, or not within the fuel.
pub data Soft : Type 0 where
  done : Callouts → List Called → Soft
  panics : List Called → Soft
  starved : Soft

abbrev pub after_call : Called → Soft → Soft
after_call k (done c ks) = done c (k ∷ ks)
after_call k (panics ks) = panics (k ∷ ks)
after_call k starved = starved

-- The loop of `softclock`; `body` is what each function does.
unfoldable pub softclock : (body : Called → List Op) → ℕ → Callouts → Soft
softclock body zero c = starved
softclock body (suc fuel) c = elim c.todo [
  | [] ↦ done c []
  | p ∷ ps ↦
      let call : Called = record { func = p.func; arg = p.arg; time = p.time } in
      let next : Soft =
        elim (perform (body call) (record { todo = ps; callfree = p ∷ c.callfree })) [
          | none ↦ panics (call ∷ [])
          | some c' ↦ after_call call (softclock body fuel c')
        ] in
      if positive p.time then done c [] else next
]
