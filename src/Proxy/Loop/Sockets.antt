-- ===== src/Proxy/Loop/Sockets.antt =====
-- The socket of `udp_loop`, and the return of `run`.
use udproxy.Base.{ℕ, ◌≡◌, ◌∙◌, ap, refl, arith, Bool, true, false, ◌&&◌, List}
use udproxy.Proxy.Loop.{
  Recv, again, fails, datagram, Thread, idle, creating, ended, Main, returned, State, kept,
  after_recv, Label, Step, onopen, onclose, onerror, stop, start, socket, bind, wait, join, test,
  recv, broadcast, Runs, here, next,
}

unfoldable pub is_returned : Main → Bool
is_returned returned = true
is_returned _ = false

-- Where the thread has its socket.
unfoldable pub has_socket : Thread → Bool
has_socket idle = false
has_socket creating = false
has_socket ended = false
has_socket _ = true

-- Where the thread may still open or use its socket.
unfoldable pub is_active : Thread → Bool
is_active idle = false
is_active ended = false
is_active _ = true

-- The socket is open where the thread has it, and `run` has not returned before the thread's end.
abbrev pub IsTidy : State → Type 0
IsTidy s =
    (s.sock_open ≡ has_socket s.thread) × ((is_returned s.main && is_active s.thread) ≡ false)

after_recv-socket :
    (text_of : List ℕ → List ℕ) (r : Recv) {o : Bool}
    → o ≡ true
    → kept r o ≡ has_socket (after_recv text_of r)
unfolding after_recv has_socket
after_recv-socket text_of again e = e
after_recv-socket text_of fails e = refl
after_recv-socket text_of (datagram d) e = ground arith

waits :
    (m : Main) (t : Thread) (b : Bool)
    → is_active t ≡ true
    → (is_returned m && is_active t) ≡ false
    → (is_returned m && b) ≡ false
unfolding is_returned
waits m t b e j = ground arith

pub step-IsTidy :
    (text_of : List ℕ → List ℕ) {s t : State} {l : Label} → Step text_of s l t → IsTidy s → IsTidy t
unfolding is_returned has_socket is_active
step-IsTidy text_of (onopen c) j = j
step-IsTidy text_of (onclose c) j = j
step-IsTidy text_of (onerror c) j = j
step-IsTidy text_of stop j = j
step-IsTidy text_of (start true e e') (k, j) = (k ∙ ap has_socket e', refl)
step-IsTidy text_of (start false e e') (k, j) = (k ∙ ap has_socket e', refl)
step-IsTidy text_of {s} (socket true e) (k, j) = (refl, waits s.main s.thread _ (ap is_active e) j)
step-IsTidy text_of {s} (socket false e) (k, j) = (refl, waits s.main s.thread _ (ap is_active e) j)
step-IsTidy text_of {s} (bind true e) (k, j) =
    (k ∙ ap has_socket e, waits s.main s.thread _ (ap is_active e) j)
step-IsTidy text_of {s} (bind false e) (k, j) = (refl, waits s.main s.thread _ (ap is_active e) j)
step-IsTidy text_of (wait e) (k, j) = (k, refl)
step-IsTidy text_of (join e e') (k, j) = (k, ap is_active e')
step-IsTidy text_of {s} (test e) (k, j) =
    (ground (arith, k, ap has_socket e), waits s.main s.thread _ (ap is_active e) j)
step-IsTidy text_of {s} (recv a e) (k, j) =
    (after_recv-socket text_of a (k ∙ ap has_socket e), waits s.main s.thread _ (ap is_active e) j)
step-IsTidy text_of {s} (broadcast json e) (k, j) =
    (k ∙ ap has_socket e, waits s.main s.thread _ (ap is_active e) j)

-- From a state such as the first one, in which the socket is open exactly where the thread has it
-- and `run` has not returned before the thread's end, whatever the interleaving and whatever
-- `socket`, `bind`, `recv` and the start of the server answer: both hold at all times. So no socket
-- is left open at the thread's end, and `run` returns only with the socket closed for good.
pub Runs-IsTidy :
    (text_of : List ℕ → List ℕ) {s u : State} {ls : List Label}
    → Runs text_of s ls u
    → IsTidy s
    → IsTidy u
Runs-IsTidy text_of here j = j
Runs-IsTidy text_of (next step r) j = Runs-IsTidy text_of r (step-IsTidy text_of step j)
