-- ===== src/Proxy/FromPdp.antt =====
-- The client on 2.11BSD and the module of the proxy that takes its packets.
use udproxy.Base.{
  ℕ, drop, ◌≡◌, ◌∙◌, ap, refl, arith, true, false, some, List, [], ◌∷◌, ◌++◌, map, length,
  length-append, ◌+◌, ◌*◌, ◌/◌, ◌%◌, ◌^◌, ◌<◌, ◌==◌,
}
use udproxy.Base.Bytes.{le_bytes, window, from_le}
use udproxy.Layout.{struct_size, pdp11, to_bytes, load, from_bytes}
use udproxy.PanelState.{host, member}
use udproxy.Client.{datagrams}
use udproxy.Pdp
use udproxy.Pdp.{Round, send_frames_loop}
use udproxy.Pdp.Trace.{wire, panels, panels-full, send_frames_loop-sends}
use udproxy.Proxy.{Object, number}
use udproxy.Proxy.Panels.{pdp_members, read_pdp, pdp_json, pdp_packet_to_json}
use udproxy.Proxy.Accept.{get_panel_state-sent}
use udproxy.Proxy.Loop.{testing, State, json_text, Label, Runs}
use udproxy.Proxy.Loop.Delivery.{pending, IsDistinct, connected, stays, delivered}
use udproxy.Proxy.Loop.Texts.{packets}
use udproxy.Proxy.EndToEnd.{wire-sending, browser-texts}

panel_size : struct_size host true pdp_members ≡ 16
unfolding struct_size
panel_size = refl

wire-bytes : (p : List ℕ) → wire p ≡ le_bytes 2 16 ++ ((0 ∷ 0 ∷ 1 ∷ 0 ∷ []) ++ p)
unfolding wire le_bytes
wire-bytes p = refl

panel_taken :
    (p : List ℕ)
    → length p ≡ 16
    → pdp_packet_to_json (le_bytes 2 16 ++ ((0 ∷ 0 ∷ 1 ∷ 0 ∷ []) ++ p))
      ≡ some (pdp_json (read_pdp p))
unfolding pdp_packet_to_json
panel_taken p full =
    rw
      (
        pdp_packet_to_json,
        get_panel_state-sent pdp_members 16 0 0 1 0 p panel_size (omega arith) full,
      )
      refl

-- A long of the PDP-11, which has its high word first, and what follows it.
address_read :
    (address : ℕ) (rest : List ℕ)
    → address < 2 ^ 32
    → (read_pdp (to_bytes pdp11 4 address ++ rest)).ps_address
      ≡ address / 65536 + 65536 * (address % 65536)
unfolding read_pdp member load window to_bytes le_bytes from_bytes from_le
address_read address rest small = omega arith

long_size : (address : ℕ) → length (to_bytes pdp11 4 address) ≡ 4
unfolding to_bytes le_bytes
long_size address = refl

-- The object of a panel that starts with an address.
address_field :
    (panel : List ℕ) (v : ℕ)
    → (read_pdp panel).ps_address % 2 ^ 22 ≡ v
    → (others : Object) × (pdp_json (read_pdp panel) ≡ ("address", number v) ∷ others)
unfolding pdp_json
address_field panel v e = (
  drop 1 (pdp_json (read_pdp panel)),
  ap (λ a. ("address", number a) ∷ drop 1 (pdp_json (read_pdp panel))) e,
)

-- For a packet of the 2.11BSD client whose panel starts with an address below 2 ^ 22, as the PDP-11
-- stores a long: the object has as its address the address with its two words swapped, cut to 22 bits,
-- so that an address below 64 is shown multiplied by 65536.
pub pdp_packet_to_json-address :
    (address : ℕ) (rest : List ℕ)
    → address < 2 ^ 22
    → length rest ≡ 12
    → (others : Object) × (pdp_packet_to_json (wire (to_bytes pdp11 4 address ++ rest))
        ≡ some (("address", number (address / 65536 + 65536 * (address % 64))) ∷ others))
pdp_packet_to_json-address address rest small full =
    let panel = to_bytes pdp11 4 address ++ rest in
    let sized : length panel ≡ 16 =
      omega (arith, length-append (to_bytes pdp11 4 address) rest, long_size address) in
    let (others, e) =
      address_field panel (address / 65536 + 65536 * (address % 64))
        (rw (address_read address rest (omega arith)) (omega arith)) in
    (others, rw (wire-bytes panel) (panel_taken panel sized) ∙ ap some e)

-- Whatever the library that writes JSON makes of an object, so long as it is not the empty text,
-- and with a panel variable of 16 bytes and a packet variable of 22: from a state before the test
-- of the loop, in which no browser is in the set twice, if the packets that arrive are those of
-- the client, in order, then a browser that stays connected receives from the proxy, whatever the
-- other browsers and the signal do in between, one text for each panel that the client read and
-- sent, in order; the last text may still be about to be sent.
pub pdp_to_browser :
    (dump : Object → List ℕ)
    → ((o : Object) → (length (dump o) == 0) ≡ false)
    → (client : Pdp.Sender) (rounds : List Round)
    → (length client.reader.panel ≡ 16) × (length client.packet ≡ 22)
    → {s u : State} {ls : List Label} → Runs (json_text pdp_packet_to_json dump) s ls u
    → s.thread ≡ testing
    → (c : ℕ) → IsDistinct s.ws_clients
    → connected c s ≡ true
    → stays c ls ≡ true
    → packets ls ≡ datagrams (send_frames_loop client rounds).out
    → delivered c ls ++ pending u.thread ≡ map (λ p. dump (pdp_json (read_pdp p))) (panels rounds)
pdp_to_browser dump some_text client rounds h r e c set there same came =
    browser-texts (json_text pdp_packet_to_json dump) wire (λ p. dump (pdp_json (read_pdp p))) 16
      (λ p full. rw (wire-bytes p) (
        wire-sending pdp_packet_to_json dump 16 0 0 1 0 p (pdp_json (read_pdp p)) (omega arith) full
          (panel_taken p full) (some_text (pdp_json (read_pdp p)))))
      (panels rounds) c (panels-full rounds) r e set there same
      (came ∙ send_frames_loop-sends client rounds h)
