-- ===== src/Proxy/Main/Everywhere.antt =====
-- What holds of every proxy, and a change of one of them or a stop of all.
use udproxy.Base.{true, List, [], ◌∷◌, ◌++◌, All}
use udproxy.Proxy.Loop.{State}
use udproxy.Proxy.Main.{Proxy, signal_handler}

pub All-put :
    (P : State → Type 0) (before after : List Proxy) (p q : Proxy)
    → (P p.state → P q.state)
    → All (λ r. P r.state) (before ++ p ∷ after)
    → All (λ r. P r.state) (before ++ q ∷ after)
All-put P [] after p q f (h, hs) = (f h, hs)
All-put P (b ∷ before) after p q f (h, hs) = (h, All-put P before after p q f hs)

pub All-stop :
    (P : State → Type 0) (ps : List Proxy)
    → ((s : State) → P s → P (record s { stop_requested = true }))
    → All (λ p. P p.state) ps
    → All (λ p. P p.state) (signal_handler ps)
unfolding signal_handler
All-stop P [] f h = tt
All-stop P (p ∷ ps) f (h, hs) = (f p.state h, All-stop P ps f hs)
