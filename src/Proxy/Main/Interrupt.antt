-- ===== src/Proxy/Main/Interrupt.antt =====
-- What the signal does to the threads of `udp_loop`.
use udproxy.Base.{ℕ, ◌+◌, ◌≡◌, true, List, [], ◌∷◌, All}
use udproxy.Proxy.Loop.{State}
use udproxy.Proxy.Loop.Stopping.{thread_steps, rank}
use udproxy.Proxy.Main.{Proxy, Program, Event, inside}

IsStopped : State → Type 0
IsStopped s = s.stop_requested ≡ true

-- The steps of all threads of `udp_loop`.
unfoldable pub loop_steps : List Event → ℕ
unfolding thread_steps
loop_steps [] = 0
loop_steps (inside l ∷ es) = thread_steps (l ∷ []) + loop_steps es
loop_steps (_ ∷ es) = loop_steps es

ranks : List Proxy → ℕ
unfolding rank
ranks [] = 0
ranks (p ∷ ps) = rank p.state.thread + ranks ps

AllStopped : Program → Type 0
unfolding IsStopped
AllStopped s = All (λ p. IsStopped p.state) s.proxies
