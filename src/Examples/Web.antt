-- ===== src/Examples/Web.antt =====
-- Runs of the web proxy at concrete inputs.
use udproxy.Base.{
  ℕ, if◌then◌else◌, ◌==◌, ◌+◌, ◌*◌, ◌/◌, ◌%◌, ◌^◌, ◌<◌, ◌≤◌, ◌≡◌, ◌↔◌, ◌⊎◌, refl, arith, true,
  false, some, List, All, [], ◌∷◌, ◌++◌, length, replicate,
}
use udproxy.Base.Bytes.{window}
use udproxy.Layout.{u16, load, struct_size, pdp11, to_bytes}
use udproxy.PanelState.{host, PdpPanelState}
use udproxy.Pdp.Trace as PdpTrace
use udproxy.Proxy.{Object, number, panel_state, get_panel_state}
use udproxy.Proxy.Hex.{digits, to_hex}
use udproxy.Proxy.Hex.RoundTrip.{is_digit, from_hex, to_hex-digits}
use udproxy.Proxy.Accept.{get_panel_state_iff}
use udproxy.Proxy.Panels.{pdp_json, vax_members, pdp_packet_to_json}
use udproxy.Proxy.Panels.Modes.{value_of, lit, pdp_json-lamps}
use udproxy.Proxy.Loop.{
  Label, Runs, State, Step, after_recv, broadcast, closed, count, created, datagram, ended, erase,
  here, idle, join, joined, next, onclose, received, recv, returned, sending, sent, server_ended,
  serving, socket, start, started, starting, test, tested, testing, wait,
}
use udproxy.Proxy.Loop.Stopping.{thread_steps, stopped-ends}
use udproxy.Proxy.Loop.Sockets.{IsTidy, has_socket, is_returned, is_active, Runs-IsTidy}
use udproxy.Proxy.Loop.Texts.{packets, texts_for, texts_sent-packets}
use udproxy.Proxy.Loop.Delivery.{IsDistinct, heard, delivered, texts_sent, delivered-heard}
use udproxy.Proxy.FromPdp.{pdp_packet_to_json-address}

to_hex-digits_example :
    (ds : List ℕ) × (to_hex 2 171 ≡ digits ds)
    × (length ds ≡ 2)
    × All (λ c. is_digit c ≡ true) ds
    × (from_hex 0 ds ≡ 171)
to_hex-digits_example = to_hex-digits 2 171 (omega arith) (omega arith) (omega arith)

-- A VAX panel and one byte more.
abbrev vax_packet : List ℕ
vax_packet = 8 ∷ 0 ∷ 2 ∷ 0 ∷ 0 ∷ 0 ∷ replicate 9 5

get_panel_state_iff_example :
    (get_panel_state vax_members vax_packet ≡ panel_state (replicate 8 5)) ↔ (
      (load host u16 vax_packet 0 ≡ struct_size host true vax_members)
      × (6 + struct_size host true vax_members ≤ length vax_packet)
      × (window vax_packet 6 (struct_size host true vax_members) ≡ replicate 8 5))
get_panel_state_iff_example = get_panel_state_iff vax_members vax_packet (replicate 8 5)

abbrev pdp_panel : PdpPanelState
pdp_panel = record {
  ps_address = 4259840;
  ps_data = 1;
  ps_psw = 49152;
  ps_mser = 0;
  ps_cpu_err = 32;
  ps_mmr0 = 1;
  ps_mmr3 = 16;
}

pdp_json-lamps_example :
    let o = pdp_json pdp_panel in
    let modes =
      lit (value_of "user_mode" o)
      + (lit (value_of "super_mode" o) + lit (value_of "kernel_mode" o)) in
    (lit (value_of "addr16" o) + (lit (value_of "addr18" o) + lit (value_of "addr22" o)) ≡ 1)
    × (modes ≤ 1)
    × ((modes ≡ 0) ↔ (pdp_panel.ps_psw / 2 ^ 14 % 4 ≡ 2))
    × ((address : ℕ) × (value_of "address" o ≡ some (number address)) × (address < 2 ^ 22))
pdp_json-lamps_example = pdp_json-lamps pdp_panel

pdp_packet_to_json-address_example :
    (others : Object) × (pdp_packet_to_json
        (PdpTrace.wire (to_bytes pdp11 4 1234 ++ replicate 12 0))
      ≡ some (("address", number (1234 / 65536 + 65536 * (1234 % 64))) ∷ others))
pdp_packet_to_json-address_example =
    pdp_packet_to_json-address 1234 (replicate 12 0) (omega arith) refl

-- A module that passes the packet on.
abbrev pub whole : List ℕ → List ℕ
whole d = d

-- A proxy with two browsers, before the test of its loop.
abbrev pub waiting : State
waiting = record {
  ws_clients = 1 ∷ 2 ∷ [];
  stop_requested = false;
  sock_open = true;
  thread = testing;
  main = serving;
}

-- A packet is sent to both, the first leaves, and a packet is sent to the second.
abbrev two_packets : List Label
two_packets =
    tested
    ∷ received (datagram (7 ∷ []))
    ∷ sent (7 ∷ []) (1 ∷ 2 ∷ [])
    ∷ closed 1
    ∷ tested
    ∷ received (datagram (8 ∷ []))
    ∷ sent (8 ∷ []) (2 ∷ [])
    ∷ []

abbrev one_left : State
one_left = record waiting { ws_clients = 2 ∷ [] }

two_packets_sent : Runs whole waiting two_packets one_left
unfolding after_recv erase
two_packets_sent = next (test refl) (
    next (recv (datagram (7 ∷ [])) refl) (
      next (broadcast (7 ∷ []) refl) (
        next (onclose 1) (
          next (test refl)
            (next (recv (datagram (8 ∷ [])) refl) (next (broadcast (8 ∷ []) refl) here))))))

pub two_browsers-IsDistinct : IsDistinct (1 ∷ 2 ∷ [])
unfolding count
two_browsers-IsDistinct c = ground arith

delivered-heard_example : delivered 1 two_packets ≡ heard 1 true two_packets
unfolding count
delivered-heard_example = delivered-heard whole 1 two_packets_sent two_browsers-IsDistinct

-- A module that can process a packet of one byte only, and a packet of each kind with an empty one.
abbrev single : List ℕ → List ℕ
single d = if length d == 1 then d else []

abbrev three_packets : List Label
three_packets =
    tested
    ∷ received (datagram [])
    ∷ tested
    ∷ received (datagram (7 ∷ 7 ∷ []))
    ∷ tested
    ∷ received (datagram (8 ∷ []))
    ∷ sent (8 ∷ []) (1 ∷ 2 ∷ [])
    ∷ []

three_packets_sent : Runs single waiting three_packets waiting
unfolding after_recv
three_packets_sent = next (test refl) (
    next (recv (datagram []) refl) (
      next (test refl) (
        next (recv (datagram (7 ∷ 7 ∷ [])) refl) (
          next (test refl)
            (next (recv (datagram (8 ∷ [])) refl) (next (broadcast (8 ∷ []) refl) here))))))

texts_sent-packets_example :
    texts_sent three_packets ++ [] ≡ [] ++ texts_for single (packets three_packets)
texts_sent-packets_example = texts_sent-packets single three_packets_sent

-- A signal while a packet is about to be sent.
abbrev pub last_packet : State
last_packet = record waiting { stop_requested = true; thread = sending (9 ∷ []) }

abbrev pub stopped_thread : State
stopped_thread = record last_packet { sock_open = false; thread = ended }

last_steps : Runs whole last_packet (sent (9 ∷ []) (1 ∷ 2 ∷ []) ∷ tested ∷ []) stopped_thread
last_steps = next (broadcast (9 ∷ []) refl) (next (test refl) here)

stopped-ends_example :
    (thread_steps (sent (9 ∷ []) (1 ∷ 2 ∷ []) ∷ tested ∷ []) ≤ 3)
    × ((ended ≡ idle)
        ⊎ ((ended ≡ ended)
            ⊎ ((l : Label) × (v : State) × Step whole stopped_thread l v
                × (thread_steps (l ∷ []) ≡ 1))))
stopped-ends_example = stopped-ends whole last_steps refl

-- The first state, and the one behind a `socket` that fails, the end of the server and the return.
abbrev pub first : State
first = record {
  ws_clients = [];
  stop_requested = false;
  sock_open = false;
  thread = idle;
  main = starting;
}

abbrev pub no_socket : State
no_socket = record first { stop_requested = true; thread = ended; main = returned }

fails_early : Runs whole first (started true ∷ created false ∷ server_ended ∷ joined ∷ []) no_socket
fails_early =
    next (start true refl refl)
      (next (socket false refl) (next (wait refl) (next (join refl refl) here)))

Runs-IsTidy_example : IsTidy no_socket
unfolding has_socket is_returned is_active
Runs-IsTidy_example = Runs-IsTidy whole fails_early (refl, refl)
