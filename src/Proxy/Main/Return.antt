-- ===== src/Proxy/Main/Return.antt =====
-- What holds where `main` has returned.
use udproxy.Base.{
  ℕ, zero, suc, ◌≡◌, ◌∙◌, ap, refl, arith, true, false, List, [], ◌∷◌, ◌++◌, All, length,
}
use udproxy.Proxy.{Object}
use udproxy.Proxy.Loop.{
  Thread, State, Label, Step, onopen, onclose, onerror, stop, start, socket, bind, wait, join, test,
  recv, broadcast,
}
use udproxy.Proxy.Loop.Sockets.{IsTidy, is_returned, has_socket, is_active, step-IsTidy}
use udproxy.Proxy.Main.Everywhere.{All-put, All-stop}
use udproxy.Proxy.Main.{
  Proxy, Program, set_up, signal_handler, Event, Turn, proxy_turn, interrupt, web_ends, joins_next,
  leaves, Execution, at_end, step_to,
}

-- `run` of the proxy has returned.
pub HasReturned : State → Type 0
HasReturned s = is_returned s.main ≡ true

-- A `run` that has returned stays so.
step-HasReturned :
    (text_of : List ℕ → List ℕ) {s t : State} {l : Label}
    → Step text_of s l t
    → HasReturned s
    → HasReturned t
unfolding is_returned HasReturned
step-HasReturned text_of (onopen c) h = h
step-HasReturned text_of (onclose c) h = h
step-HasReturned text_of (onerror c) h = h
step-HasReturned text_of stop h = h
step-HasReturned text_of (start ok e e') h = absurd (ground (arith, ap is_returned e))
step-HasReturned text_of (socket ok e) h = h
step-HasReturned text_of (bind ok e) h = h
step-HasReturned text_of (wait e) h = absurd (ground (arith, ap is_returned e))
step-HasReturned text_of (join e e') h = refl
step-HasReturned text_of (test e) h = h
step-HasReturned text_of (recv r e) h = h
step-HasReturned text_of (broadcast json e) h = h

-- The first proxies have returned.
Joined : ℕ → List Proxy → Type 0
unfolding HasReturned
Joined zero ps = Unit
Joined (suc n) [] = ⊥
Joined (suc n) (p ∷ ps) = HasReturned p.state × Joined n ps

Joined-put :
    (n : ℕ) (before after : List Proxy) (p q : Proxy)
    → (HasReturned p.state → HasReturned q.state)
    → Joined n (before ++ p ∷ after)
    → Joined n (before ++ q ∷ after)
unfolding Joined
Joined-put zero before after p q f j = tt
Joined-put (suc n) [] after p q f (h, j) = (f h, j)
Joined-put (suc n) (b ∷ before) after p q f (h, j) = (h, Joined-put n before after p q f j)

Joined-suc :
    (before after : List Proxy) (p : Proxy)
    → HasReturned p.state
    → Joined (length before) (before ++ p ∷ after)
    → Joined (suc (length before)) (before ++ p ∷ after)
unfolding Joined
Joined-suc [] after p h j = (h, tt)
Joined-suc (b ∷ before) after p h (k, j) = (k, Joined-suc before after p h j)

Joined-stop : (n : ℕ) (ps : List Proxy) → Joined n ps → Joined n (signal_handler ps)
unfolding Joined signal_handler
Joined-stop zero ps j = tt
Joined-stop (suc n) [] j = elim j [ ]
Joined-stop (suc n) (p ∷ ps) (h, j) = (h, Joined-stop n ps j)

Joined-All : (ps : List Proxy) → Joined (length ps) ps → All (λ p. HasReturned p.state) ps
unfolding Joined
Joined-All [] j = tt
Joined-All (p ∷ ps) (h, j) = (h, Joined-All ps j)

-- Every proxy is tidy, the joined ones have returned, and `main` returns behind all of them.
IsOrderly : Program → Type 0
unfolding Joined
IsOrderly s =
    All (λ p. IsTidy p.state) s.proxies
    × Joined s.joins s.proxies
    × (s.main_returned ≡ true → All (λ p. HasReturned p.state) s.proxies)

turn-IsOrderly : {s t : Program} {e : Event} → Turn s e t → IsOrderly s → IsOrderly t
unfolding IsOrderly HasReturned is_returned
turn-IsOrderly {s} (proxy_turn before after p {l} {t} e step) (tidy, joined, left) =
    let q = record p { state = t } in
    (
      All-put IsTidy before after p q (step-IsTidy p.text_of step) (rw e at tidy),
      Joined-put s.joins before after p q (step-HasReturned p.text_of step) (rw e at joined),
      λ r. All-put HasReturned before after p q (step-HasReturned p.text_of step) (rw e at left r),
    )
turn-IsOrderly {s} interrupt (tidy, joined, left) = (
  All-stop IsTidy s.proxies (λ t h. h) tidy,
  Joined-stop s.joins s.proxies joined,
  λ r. All-stop HasReturned s.proxies (λ t h. h) (left r),
)
turn-IsOrderly web_ends o = o
turn-IsOrderly {s} (joins_next before after p e count back) (tidy, joined, left) = (
  tidy,
  rw (e, count) (Joined-suc before after p (ap is_returned back) (rw (e, count) at joined)),
  left,
)
turn-IsOrderly {s} (leaves count ended) (tidy, joined, left) =
    (tidy, joined, λ r. Joined-All s.proxies (rw count at joined))

executed-IsOrderly :
    {s u : Program} {es : List Event} → Execution s es u → IsOrderly s → IsOrderly u
executed-IsOrderly at_end o = o
executed-IsOrderly (step_to turn ex) o = executed-IsOrderly ex (turn-IsOrderly turn o)

set_up-IsOrderly : (dump : Object → List ℕ) → IsOrderly (set_up dump)
unfolding IsOrderly set_up has_socket is_returned Joined
set_up-IsOrderly dump =
    (((refl, refl), ((refl, refl), ((refl, refl), tt))), tt, λ r. absurd (ground arith))

no_socket : (t : Thread) → is_active t ≡ false → has_socket t ≡ false
unfolding is_active has_socket
no_socket t h = ground arith

closed : (s : State) → IsTidy s → HasReturned s → (s.sock_open ≡ false) × HasReturned s
unfolding HasReturned
closed s (socket_known, waited) back = (socket_known ∙ no_socket s.thread (ground arith), back)

proxies_closed :
    (ps : List Proxy)
    → All (λ p. IsTidy p.state) ps
    → All (λ p. HasReturned p.state) ps
    → All (λ p. (p.state.sock_open ≡ false) × HasReturned p.state) ps
proxies_closed [] hs ks = tt
proxies_closed (p ∷ ps) (h, hs) (k, ks) = (closed p.state h k, proxies_closed ps hs ks)

-- From the set-up of `main`, in whatever interleaving of the three proxies, their browsers, the file
-- server and signals, and whatever the system answers: where `main` has returned, `run` of each proxy
-- has returned and its UDP socket is closed.
pub Execution-closed :
    (dump : Object → List ℕ) {u : Program} {es : List Event}
    → Execution (set_up dump) es u
    → u.main_returned ≡ true
    → All (λ p. (p.state.sock_open ≡ false) × HasReturned p.state) u.proxies
unfolding IsOrderly
Execution-closed dump {u} ex left =
    let (tidy, joined, back) = executed-IsOrderly ex (set_up-IsOrderly dump) in
    proxies_closed u.proxies tidy (back left)
