-- ===== src/Proxy/Main.antt =====
-- proxy/main.cpp: the three proxies and the file server in one program, with the handler of SIGINT. The
-- names and ports, which the file server lists, are left out.
pub mod Everywhere
pub mod Return
pub mod Interrupt
use udproxy.Base.{ℕ, suc, Bool, true, false, ◌≡◌, List, [], ◌∷◌, ◌++◌, length, map}
use udproxy.Proxy.{Object}
use udproxy.Proxy.Panels.{pdp_packet_to_json, amd64_packet_to_json, vax_packet_to_json}
use udproxy.Proxy.Loop.{Main, starting, returned, idle, State, json_text, Label, stopped, Step}

-- A proxy: what its `udp_packet_to_json` makes of a packet, and its state.
pub record Proxy : Type 0 where
  pub text_of : List ℕ → List ℕ
  pub state : State

-- What `main` has: its proxies, whether `run` of the file server has returned, the number of proxies
-- whose threads are joined, and whether it has returned.
pub record Program : Type 0 where
  pub proxies : List Proxy
  pub webserver_ended : Bool
  pub joins : ℕ
  pub main_returned : Bool

-- A proxy that was made and does not run yet.
abbrev pub made : State
made = record {
  ws_clients = [];
  stop_requested = false;
  sock_open = false;
  thread = idle;
  main = starting;
}

-- `add_proxy`.
unfoldable pub add_proxy : (List ℕ → List ℕ) → List Proxy → List Proxy
add_proxy text_of proxies = proxies ++ (record { text_of = text_of; state = made } ∷ [])

-- `main` up to its threads. `dump` makes the text of an object.
unfoldable pub set_up : (dump : Object → List ℕ) → Program
unfolding add_proxy json_text
set_up dump = record {
  proxies = add_proxy (json_text vax_packet_to_json dump) (
      add_proxy (json_text amd64_packet_to_json dump)
        (add_proxy (json_text pdp_packet_to_json dump) []));
  webserver_ended = false;
  joins = 0;
  main_returned = false;
}

-- `stop` of a proxy.
abbrev pub stop_proxy : Proxy → Proxy
stop_proxy p = record p { state = record p.state { stop_requested = true } }

-- `signal_handler`, up to the file server.
unfoldable pub signal_handler : List Proxy → List Proxy
signal_handler [] = []
signal_handler (p ∷ ps) = stop_proxy p ∷ signal_handler ps

pub data Event : Type 0 where
  inside : Label → Event
  interrupted web_ended thread_joined main_left : Event

-- One step of the program: of a thread of one of its proxies, the signal, the end of the file server,
-- and the steps of `main`, which joins the proxies in order.
pub data Turn (s : Program) : Event → Program → Type 0 where
  proxy_turn :
      (before after : List Proxy) (p : Proxy) {l : Label} {t : State}
      → s.proxies ≡ before ++ p ∷ after
      → Step p.text_of p.state l t
      → Turn s (inside l) (record s { proxies = before ++ record p { state = t } ∷ after })
  interrupt : Turn s interrupted (record s { proxies = signal_handler s.proxies })
  web_ends : Turn s web_ended (record s { webserver_ended = true })
  joins_next :
      (before after : List Proxy) (p : Proxy)
      → s.proxies ≡ before ++ p ∷ after
      → s.joins ≡ length before
      → p.state.main ≡ returned
      → Turn s thread_joined (record s { joins = suc s.joins })
  leaves :
      s.joins ≡ length s.proxies
      → s.webserver_ended ≡ true
      → Turn s main_left (record s { main_returned = true })

pub data Execution : Program → List Event → Program → Type 0 where
  at_end : {s : Program} → Execution s [] s
  step_to :
      {s t u : Program} {e : Event} {es : List Event}
      → Turn s e t
      → Execution t es u
      → Execution s (e ∷ es) u
