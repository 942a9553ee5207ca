-- ===== src/Proxy/Loop.antt =====
-- `ProxyBase` of proxy/proxybase.cpp: the threads of the WebSocket server, the thread of `udp_loop` and
-- the thread of `run`, which share the set of clients and the flag `stop_requested`. A step is what one
-- of them does between two accesses of what they share.
pub mod Delivery
pub mod Texts
pub mod Stopping
pub mod Sockets
use udproxy.Base.{
  ℕ, ◌+◌, Bool, true, false, ◌≡◌, Option, none, some, List, [], ◌∷◌, ◌++◌, length, take,
  if◌then◌else◌, ◌==◌,
}
use udproxy.Proxy.{Object}

-- What `recv` answers: EAGAIN or EWOULDBLOCK, another error, or a datagram.
pub data Recv : Type 0 where
  again : Recv
  fails : Recv
  datagram : List ℕ → Recv

-- The thread of `udp_loop`: before `run` starts it, before `socket`, before `bind`, before the test of
-- the flag, before `recv`, before it takes the lock to send a text, and behind its end.
pub data Thread : Type 0 where
  idle : Thread
  creating : Thread
  binding : Thread
  testing : Thread
  receiving : Thread
  sending : List ℕ → Thread
  ended : Thread

-- The thread of `run`: before the start of the WebSocket server, behind it, behind its end, and behind
-- the end of `run`.
pub data Main : Type 0 where
  starting : Main
  serving : Main
  joining : Main
  returned : Main

-- The clients are the connections in `ws_clients`, each by a number. `sock_open` tells whether the UDP
-- socket is open.
pub record State : Type 0 where
  pub ws_clients : List ℕ
  pub stop_requested : Bool
  pub sock_open : Bool
  pub thread : Thread
  pub main : Main

abbrev pub buffer_size : ℕ
buffer_size = 2048

unfoldable pub count : ℕ → List ℕ → ℕ
count c [] = 0
count c (d ∷ ds) = (if c == d then 1 else 0) + count c ds

-- `insert` and `erase` of the set.
unfoldable pub insert : ℕ → List ℕ → List ℕ
unfolding count
insert c cs = if count c cs == 0 then c ∷ cs else cs

unfoldable pub erase : ℕ → List ℕ → List ℕ
erase c [] = []
erase c (d ∷ ds) = let rest = erase c ds in if c == d then rest else d ∷ rest

-- `udp_packet_to_json` as a text: empty where the packet cannot be processed.
unfoldable pub json_text : (List ℕ → Option Object) → (Object → List ℕ) → List ℕ → List ℕ
json_text to_json dump data_bytes = elim (to_json data_bytes) [ none ↦ [] | some o ↦ dump o ]

-- The body of the loop behind `recv`, up to the lock.
unfoldable pub after_recv : (text_of : List ℕ → List ℕ) → Recv → Thread
after_recv text_of again = testing
after_recv text_of fails = ended
after_recv text_of (datagram d) =
    let data_bytes = take buffer_size d in
    let json = text_of data_bytes in
    if length data_bytes == 0 then testing else if length json == 0 then testing else sending json

-- Whether the socket is still open behind `recv`.
abbrev pub kept : Recv → Bool → Bool
kept fails sock_open = false
kept _ sock_open = sock_open

pub data Label : Type 0 where
  started created bound : Bool → Label
  opened closed errored : ℕ → Label
  stopped : Label
  server_ended : Label
  joined : Label
  tested : Label
  received : Recv → Label
  sent : List ℕ → List ℕ → Label

-- One step of one of the threads. `sent` has the text and the clients that it goes to.
pub data Step (text_of : List ℕ → List ℕ) (s : State) : Label → State → Type 0 where
  onopen : (c : ℕ) → Step text_of s (opened c) (record s { ws_clients = insert c s.ws_clients })
  onclose : (c : ℕ) → Step text_of s (closed c) (record s { ws_clients = erase c s.ws_clients })
  onerror : (c : ℕ) → Step text_of s (errored c) (record s { ws_clients = erase c s.ws_clients })
  stop : Step text_of s stopped (record s { stop_requested = true })
  start :
      (ok : Bool)
      → s.main ≡ starting
      → s.thread ≡ idle
      → Step text_of s (started ok) (record s {
        main = (if ok then serving else returned);
        thread = (if ok then creating else idle);
      })
  socket :
      (ok : Bool)
      → s.thread ≡ creating
      → Step text_of s
          (created ok)
          (record s { thread = (if ok then binding else ended); sock_open = ok })
  bind :
      (ok : Bool)
      → s.thread ≡ binding
      → Step text_of s (bound ok) (record s {
        thread = (if ok then testing else ended);
        sock_open = (if ok then s.sock_open else false);
      })
  wait :
      s.main ≡ serving
      → Step text_of s server_ended (record s { stop_requested = true; main = joining })
  join : s.main ≡ joining → s.thread ≡ ended → Step text_of s joined (record s { main = returned })
  test :
      s.thread ≡ testing
      → Step text_of s tested (record s {
        thread = (if s.stop_requested then ended else receiving);
        sock_open = (if s.stop_requested then false else s.sock_open);
      })
  recv :
      (r : Recv)
      → s.thread ≡ receiving
      → Step text_of s
          (received r)
          (record s { thread = after_recv text_of r; sock_open = kept r s.sock_open })
  broadcast :
      (json : List ℕ)
      → s.thread ≡ sending json
      → Step text_of s (sent json s.ws_clients) (record s { thread = testing })

-- Any interleaving of the threads.
pub data Runs (text_of : List ℕ → List ℕ) : State → List Label → State → Type 0 where
  here : {s : State} → Runs text_of s [] s
  next :
      {s t u : State} {l : Label} {ls : List Label}
      → Step text_of s l t
      → Runs text_of t ls u
      → Runs text_of s (l ∷ ls) u
