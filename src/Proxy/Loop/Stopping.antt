-- ===== src/Proxy/Loop/Stopping.antt =====
-- How the thread of `udp_loop` ends, and `run` behind it.
use udproxy.Base.{
  ℕ, suc, ◌+◌, ◌≤◌, ◌≡◌, ◌⊎◌, inl, inr, ap, refl, arith, Bool, true, false, List, [], ◌∷◌,
  if◌then◌else◌,
}
use udproxy.Proxy.Loop.{
  Recv, again, fails, datagram, Thread, idle, creating, binding, testing, receiving, sending, ended,
  State, after_recv, Label, created, bound, tested, received, sent, Step, onopen, onclose, onerror,
  stop, start, socket, bind, wait, join, test, recv, broadcast, Runs, here, next,
}

-- The steps of the thread of `udp_loop`.
unfoldable pub thread_steps : List Label → ℕ
thread_steps [] = 0
thread_steps (created ok ∷ ls) = suc (thread_steps ls)
thread_steps (bound ok ∷ ls) = suc (thread_steps ls)
thread_steps (tested ∷ ls) = suc (thread_steps ls)
thread_steps (received r ∷ ls) = suc (thread_steps ls)
thread_steps (sent json cs ∷ ls) = suc (thread_steps ls)
thread_steps (_ ∷ ls) = thread_steps ls

-- The steps that are left once a stop was requested.
unfoldable pub rank : Thread → ℕ
rank idle = 3
rank creating = 3
rank binding = 2
rank testing = 1
rank receiving = 3
rank (sending json) = 2
rank ended = 0

after_recv-rank : (text_of : List ℕ → List ℕ) (r : Recv) → rank (after_recv text_of r) ≤ 2
unfolding after_recv rank
after_recv-rank text_of again = omega arith
after_recv-rank text_of fails = omega arith
after_recv-rank text_of (datagram d) = ground arith

branch_rank :
    (b : Bool) (t t' : Thread) (n : ℕ) → rank t ≤ n → rank t' ≤ n → rank (if b then t else t') ≤ n
branch_rank true t t' n h h' = h
branch_rank false t t' n h h' = h'

-- The steps of a stopped proxy.
pub stopped-rank :
    (text_of : List ℕ → List ℕ) {s u : State} {ls : List Label}
    → Runs text_of s ls u
    → s.stop_requested ≡ true
    → thread_steps ls + rank u.thread ≤ rank s.thread
unfolding thread_steps rank
stopped-rank text_of here h = omega arith
stopped-rank text_of (next (onopen c) r) h = stopped-rank text_of r h
stopped-rank text_of (next (onclose c) r) h = stopped-rank text_of r h
stopped-rank text_of (next (onerror c) r) h = stopped-rank text_of r h
stopped-rank text_of (next stop r) h = stopped-rank text_of r refl
stopped-rank text_of (next (start ok e e') r) h = omega (
  arith,
  ap rank e',
  stopped-rank text_of r h,
  branch_rank ok creating idle 3 (omega arith) (omega arith),
)
stopped-rank text_of (next (socket ok e) r) h = omega (
  arith,
  ap rank e,
  stopped-rank text_of r h,
  branch_rank ok binding ended 2 (omega arith) (omega arith),
)
stopped-rank text_of (next (bind ok e) r) h = omega (
  arith,
  ap rank e,
  stopped-rank text_of r h,
  branch_rank ok testing ended 1 (omega arith) (omega arith),
)
stopped-rank text_of (next (wait e) r) h = stopped-rank text_of r refl
stopped-rank text_of (next (join e e') r) h = stopped-rank text_of r h
stopped-rank text_of (next (test e) r) h =
    omega (
      arith,
      ap rank e,
      stopped-rank text_of r h,
      ap (λ b. rank (if b then ended else receiving)) h,
    )
stopped-rank text_of (next (recv a e) r) h =
    omega (arith, ap rank e, stopped-rank text_of r h, after_recv-rank text_of a)
stopped-rank text_of (next (broadcast json e) r) h =
    omega (arith, ap rank e, stopped-rank text_of r h)

pub rank_bound : (t : Thread) → rank t ≤ 3
unfolding rank
rank_bound idle = omega arith
rank_bound creating = omega arith
rank_bound binding = omega arith
rank_bound testing = omega arith
rank_bound receiving = omega arith
rank_bound (sending json) = omega arith
rank_bound ended = omega arith

-- The thread can go on wherever it stands, whatever the others do.
goes_on :
    (text_of : List ℕ → List ℕ) (s : State) (t : Thread)
    → s.thread ≡ t
    → (t ≡ idle)
      ⊎ ((t ≡ ended)
          ⊎ ((l : Label) × (u : State) × Step text_of s l u × (thread_steps (l ∷ []) ≡ 1)))
unfolding thread_steps
goes_on text_of s idle e = inl refl
goes_on text_of s creating e = inr (inr (created false, _, socket false e, refl))
goes_on text_of s binding e = inr (inr (bound false, _, bind false e, refl))
goes_on text_of s testing e = inr (inr (tested, _, test e, refl))
goes_on text_of s receiving e = inr (inr (received again, _, recv again e, refl))
goes_on text_of s (sending json) e = inr (inr (sent json s.ws_clients, _, broadcast json e, refl))
goes_on text_of s ended e = inr (inl refl)

-- Once a stop was requested, the thread of `udp_loop` makes three steps more at most, in whatever
-- interleaving, and unless it was not started it always has a next step until it has ended.
pub stopped-ends :
    (text_of : List ℕ → List ℕ) {s u : State} {ls : List Label}
    → Runs text_of s ls u
    → s.stop_requested ≡ true
    → (thread_steps ls ≤ 3)
      × ((u.thread ≡ idle)
          ⊎ ((u.thread ≡ ended)
              ⊎ ((l : Label) × (v : State) × Step text_of u l v × (thread_steps (l ∷ []) ≡ 1))))
stopped-ends text_of {s} {u} runs h = (
  omega (arith, stopped-rank text_of runs h, rank_bound s.thread),
  goes_on text_of u u.thread refl,
)
