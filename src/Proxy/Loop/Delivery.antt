-- ===== src/Proxy/Loop/Delivery.antt =====
-- What the clients of the proxy receive.
use udproxy.Base.{
  ℕ, zero, suc, ◌≤◌, ◌≡◌, ◌∙◌, ap, sym, refl, arith, Bool, true, false, List, [], ◌∷◌, ◌++◌,
  append-nil, replicate, if◌then◌else◌, not, ◌&&◌, leb, ◌==◌,
}
use udproxy.Proxy.Loop.{
  Thread, idle, creating, binding, testing, receiving, sending, ended, State, count, insert, erase,
  after_recv, Label, started, created, bound, opened, closed, errored, stopped, server_ended,
  joined, tested, received, sent, onopen, onclose, onerror, stop, start, socket, bind, wait, join,
  test, recv, broadcast, Runs, here, next,
}

-- No client is in the set twice.
abbrev pub IsDistinct : List ℕ → Type 0
IsDistinct cs = (c : ℕ) → count c cs ≤ 1

count-erase : (c d : ℕ) (cs : List ℕ) → count c (erase d cs) ≡ (if c == d then 0 else count c cs)
unfolding count erase
count-erase c d [] = ground arith
count-erase c d (e ∷ cs) = ground (arith, count-erase c d cs)

count-insert :
    (c d : ℕ) (cs : List ℕ)
    → IsDistinct cs
    → count c (insert d cs) ≡ (if c == d then 1 else count c cs)
unfolding count insert
count-insert c d cs set = ground (arith, set c, set d)

insert-IsDistinct : (d : ℕ) (cs : List ℕ) → IsDistinct cs → IsDistinct (insert d cs)
insert-IsDistinct d cs set c = ground (arith, count-insert c d cs set, set c)

erase-IsDistinct : (d : ℕ) (cs : List ℕ) → IsDistinct cs → IsDistinct (erase d cs)
erase-IsDistinct d cs set c = ground (arith, count-erase c d cs, set c)

-- The texts that a client is sent, once for each time that it is among the clients.
unfoldable pub delivered : ℕ → List Label → List (List ℕ)
delivered c [] = []
delivered c (sent json cs ∷ ls) = replicate (count c cs) json ++ delivered c ls
delivered c (_ ∷ ls) = delivered c ls

-- The texts that are sent while the client is connected, `here` telling whether it is.
unfoldable pub heard : ℕ → Bool → List Label → List (List ℕ)
heard c b [] = []
heard c b (opened d ∷ ls) = heard c (if c == d then true else b) ls
heard c b (closed d ∷ ls) = heard c (if c == d then false else b) ls
heard c b (errored d ∷ ls) = heard c (if c == d then false else b) ls
heard c b (sent json cs ∷ ls) = let rest = heard c b ls in if b then json ∷ rest else rest
heard c b (_ ∷ ls) = heard c b ls

abbrev pub connected : ℕ → State → Bool
connected c s = leb 1 (count c s.ws_clients)

insert-connected :
    (c d : ℕ) (cs : List ℕ)
    → IsDistinct cs
    → leb 1 (count c (insert d cs)) ≡ (if c == d then true else leb 1 (count c cs))
insert-connected c d cs set = ground (arith, count-insert c d cs set)

erase-connected :
    (c d : ℕ) (cs : List ℕ)
    → leb 1 (count c (erase d cs)) ≡ (if c == d then false else leb 1 (count c cs))
erase-connected c d cs = ground (arith, count-erase c d cs)

once :
    (n : ℕ) (json : List ℕ) {xs ys : List (List ℕ)}
    → n ≤ 1
    → xs ≡ ys
    → replicate n json ++ xs ≡ (if leb 1 n then json ∷ ys else ys)
once zero json h e = e
once (suc zero) json h e = ap (λ t. json ∷ t) e
once (suc (suc n)) json h e = absurd (omega arith)

-- In any interleaving, from a set of clients, a client receives each text that is sent while it is
-- connected, once and in order, and no other.
pub delivered-heard :
    (text_of : List ℕ → List ℕ) (c : ℕ) {s u : State} {ls : List Label}
    → Runs text_of s ls u
    → IsDistinct s.ws_clients
    → delivered c ls ≡ heard c (connected c s) ls
unfolding delivered heard
delivered-heard text_of c here set = refl
delivered-heard text_of c {s} (next {ls = ls} (onopen d) r) set =
    delivered-heard text_of c r (insert-IsDistinct d s.ws_clients set)
    ∙ ap (λ b. heard c b ls) (insert-connected c d s.ws_clients set)
delivered-heard text_of c {s} (next {ls = ls} (onclose d) r) set =
    delivered-heard text_of c r (erase-IsDistinct d s.ws_clients set)
    ∙ ap (λ b. heard c b ls) (erase-connected c d s.ws_clients)
delivered-heard text_of c {s} (next {ls = ls} (onerror d) r) set =
    delivered-heard text_of c r (erase-IsDistinct d s.ws_clients set)
    ∙ ap (λ b. heard c b ls) (erase-connected c d s.ws_clients)
delivered-heard text_of c (next stop r) set = delivered-heard text_of c r set
delivered-heard text_of c (next (start ok e e') r) set = delivered-heard text_of c r set
delivered-heard text_of c (next (socket ok e) r) set = delivered-heard text_of c r set
delivered-heard text_of c (next (bind ok e) r) set = delivered-heard text_of c r set
delivered-heard text_of c (next (wait e) r) set = delivered-heard text_of c r set
delivered-heard text_of c (next (join e e') r) set = delivered-heard text_of c r set
delivered-heard text_of c (next (test e) r) set = delivered-heard text_of c r set
delivered-heard text_of c (next (recv a e) r) set = delivered-heard text_of c r set
delivered-heard text_of c {s} (next (broadcast json e) r) set =
    once (count c s.ws_clients) json (set c) (delivered-heard text_of c r set)

-- The texts that are sent, and those of the packets that arrive.
unfoldable pub texts_sent : List Label → List (List ℕ)
texts_sent [] = []
texts_sent (sent json cs ∷ ls) = json ∷ texts_sent ls
texts_sent (_ ∷ ls) = texts_sent ls

-- The client neither connects nor leaves.
unfoldable pub stays : ℕ → List Label → Bool
stays c [] = true
stays c (opened d ∷ ls) = not (c == d) && stays c ls
stays c (closed d ∷ ls) = not (c == d) && stays c ls
stays c (errored d ∷ ls) = not (c == d) && stays c ls
stays c (_ ∷ ls) = stays c ls

heard-texts_sent : (c : ℕ) (ls : List Label) → stays c ls ≡ true → heard c true ls ≡ texts_sent ls
unfolding heard stays texts_sent
heard-texts_sent c [] h = refl
heard-texts_sent c (opened d ∷ ls) h = ground (arith, heard-texts_sent c ls)
heard-texts_sent c (closed d ∷ ls) h = ground (arith, heard-texts_sent c ls)
heard-texts_sent c (errored d ∷ ls) h = ground (arith, heard-texts_sent c ls)
heard-texts_sent c (stopped ∷ ls) h = heard-texts_sent c ls h
heard-texts_sent c (server_ended ∷ ls) h = heard-texts_sent c ls h
heard-texts_sent c (joined ∷ ls) h = heard-texts_sent c ls h
heard-texts_sent c (started ok ∷ ls) h = heard-texts_sent c ls h
heard-texts_sent c (created ok ∷ ls) h = heard-texts_sent c ls h
heard-texts_sent c (bound ok ∷ ls) h = heard-texts_sent c ls h
heard-texts_sent c (tested ∷ ls) h = heard-texts_sent c ls h
heard-texts_sent c (received r ∷ ls) h = heard-texts_sent c ls h
heard-texts_sent c (sent json cs ∷ ls) h = ap (λ t. json ∷ t) (heard-texts_sent c ls h)

-- A client that is connected all the time.
pub delivered-texts_sent :
    (text_of : List ℕ → List ℕ) (c : ℕ) {s u : State} {ls : List Label}
    → Runs text_of s ls u
    → IsDistinct s.ws_clients
    → connected c s ≡ true
    → stays c ls ≡ true
    → delivered c ls ≡ texts_sent ls
delivered-texts_sent text_of c {ls = ls} r set there h =
    delivered-heard text_of c r set ∙ ap (λ b. heard c b ls) there ∙ heard-texts_sent c ls h

abbrev pub pending : Thread → List (List ℕ)
pending (sending json) = json ∷ []
pending _ = []

unfoldable pub texts_of : (List ℕ → List ℕ) → List Label → List (List ℕ)
texts_of text_of [] = []
texts_of text_of (received r ∷ ls) = pending (after_recv text_of r) ++ texts_of text_of ls
texts_of text_of (_ ∷ ls) = texts_of text_of ls

quiet :
    (b : Bool) (t t' : Thread)
    → pending t ≡ []
    → pending t' ≡ []
    → pending (if b then t else t') ≡ []
quiet true t t' e e' = e
quiet false t t' e e' = e'

-- What is sent is what the body of the loop makes of what is received.
pub texts_sent-texts_of :
    (text_of : List ℕ → List ℕ) {s u : State} {ls : List Label}
    → Runs text_of s ls u
    → texts_sent ls ++ pending u.thread ≡ pending s.thread ++ texts_of text_of ls
unfolding texts_sent texts_of
texts_sent-texts_of text_of {s} here = sym (append-nil (pending s.thread))
texts_sent-texts_of text_of (next (onopen d) r) = texts_sent-texts_of text_of r
texts_sent-texts_of text_of (next (onclose d) r) = texts_sent-texts_of text_of r
texts_sent-texts_of text_of (next (onerror d) r) = texts_sent-texts_of text_of r
texts_sent-texts_of text_of (next stop r) = texts_sent-texts_of text_of r
texts_sent-texts_of text_of (next {ls = ls} (start ok e e') r) =
    texts_sent-texts_of text_of r
    ∙ ap (λ t. t ++ texts_of text_of ls) (quiet ok creating idle refl refl ∙ sym (ap pending e'))
texts_sent-texts_of text_of (next {ls = ls} (socket ok e) r) =
    texts_sent-texts_of text_of r
    ∙ ap (λ t. t ++ texts_of text_of ls) (quiet ok binding ended refl refl ∙ sym (ap pending e))
texts_sent-texts_of text_of (next {ls = ls} (bind ok e) r) =
    texts_sent-texts_of text_of r
    ∙ ap (λ t. t ++ texts_of text_of ls) (quiet ok testing ended refl refl ∙ sym (ap pending e))
texts_sent-texts_of text_of (next (wait e) r) = texts_sent-texts_of text_of r
texts_sent-texts_of text_of (next (join e e') r) = texts_sent-texts_of text_of r
texts_sent-texts_of text_of {s} (next {ls = ls} (test e) r) =
    texts_sent-texts_of text_of r
    ∙ ap (λ t. t ++ texts_of text_of ls)
        (quiet s.stop_requested ended receiving refl refl ∙ sym (ap pending e))
texts_sent-texts_of text_of (next {ls = ls} (recv a e) r) =
    texts_sent-texts_of text_of r
    ∙ ap (λ t. t ++ (pending (after_recv text_of a) ++ texts_of text_of ls)) (sym (ap pending e))
texts_sent-texts_of text_of (next {ls = ls} (broadcast json e) r) =
    ap (λ t. json ∷ t) (texts_sent-texts_of text_of r)
    ∙ ap (λ t. t ++ texts_of text_of ls) (sym (ap pending e))
