-- ===== src/Proxy/FromX64.antt =====
-- The client on NetBSD x64 and the module of the proxy that takes its packets.
use udproxy.Base.{
  ℕ, ◌%◌, ◌^◌, ◌≡◌, ◌∙◌, refl, arith, true, false, some, List, [], ◌∷◌, ◌++◌, map, length, ◌==◌,
}
use udproxy.Base.Bytes.{le_bytes}
use udproxy.Layout.{struct_size}
use udproxy.PanelState.{host, Clockframe, read_clockframe}
use udproxy.Client.{datagrams}
use udproxy.NetBsdX64.{Kvm, Sender, Round, send_frames}
use udproxy.NetBsdX64.Trace.{wire, panels, panels-full, send_frames-sends}
use udproxy.Proxy.{Object, text}
use udproxy.Proxy.Hex.RoundTrip.{hex_onto, written}
use udproxy.Proxy.Panels.{clockframe_members, hex_value, amd64_json, amd64_packet_to_json}
use udproxy.Proxy.Accept.{get_panel_state-sent}
use udproxy.Proxy.Loop.{testing, State, json_text, Label, Runs}
use udproxy.Proxy.Loop.Delivery.{pending, IsDistinct, connected, stays, delivered}
use udproxy.Proxy.Loop.Texts.{packets}
use udproxy.Proxy.EndToEnd.{wire-sending, browser-texts}

-- The 16 hexadecimal digits of a register.
unfoldable pub register : ℕ → List ℕ
unfolding hex_onto
register v = hex_onto 16 (v % 2 ^ 64) []

-- The ten registers that the web page gets.
unfoldable pub registers : Clockframe → Object
unfolding register
registers f =
    ("rax", text (register f.cf_rax))
    ∷ ("rbx", text (register f.cf_rbx))
    ∷ ("rcx", text (register f.cf_rcx))
    ∷ ("rdx", text (register f.cf_rdx))
    ∷ ("rdi", text (register f.cf_rdi))
    ∷ ("rsi", text (register f.cf_rsi))
    ∷ ("rbp", text (register f.cf_rbp))
    ∷ ("rsp", text (register f.cf_rsp))
    ∷ ("rip", text (register f.cf_rip))
    ∷ ("rflags", text (register f.cf_rflags))
    ∷ []

hex_value-register : (v : ℕ) → hex_value v ≡ some (text (register v))
unfolding hex_value register
hex_value-register v = rw (hex_value, written 15 (v % 2 ^ 64) (omega arith) (omega arith)) refl

amd64_json-registers : (f : Clockframe) → amd64_json f ≡ some (registers f)
unfolding amd64_json registers
amd64_json-registers f =
    rw
      (
        hex_value-register f.cf_rax,
        hex_value-register f.cf_rbx,
        hex_value-register f.cf_rcx,
        hex_value-register f.cf_rdx,
        hex_value-register f.cf_rdi,
        hex_value-register f.cf_rsi,
        hex_value-register f.cf_rbp,
        hex_value-register f.cf_rsp,
        hex_value-register f.cf_rip,
        hex_value-register f.cf_rflags,
      )
      refl

frame_size : struct_size host true clockframe_members ≡ 208
unfolding struct_size
frame_size = refl

wire-bytes : (p : List ℕ) → wire p ≡ le_bytes 2 208 ++ ((3 ∷ 0 ∷ 0 ∷ 0 ∷ []) ++ p)
unfolding wire le_bytes
wire-bytes p = refl

frame_taken :
    (p : List ℕ)
    → length p ≡ 208
    → amd64_packet_to_json (le_bytes 2 208 ++ ((3 ∷ 0 ∷ 0 ∷ 0 ∷ []) ++ p))
      ≡ some (registers (read_clockframe p 0))
unfolding amd64_packet_to_json
frame_taken p full =
    rw
      (
        amd64_packet_to_json,
        get_panel_state-sent clockframe_members 208 3 0 0 0 p frame_size (omega arith) full,
      )
      (amd64_json-registers (read_clockframe p 0))

-- Whatever the library that writes JSON makes of an object, so long as it is not the empty text,
-- and with a packet variable of 214 bytes: from a state before the test of the loop, in which no
-- browser is in the set twice, if the packets that arrive are those of the client, in order, then
-- a browser that stays connected receives from the proxy, whatever the other browsers and the
-- signal do in between, one text for each panel that the client sent, in order, with its ten
-- registers in 16 hexadecimal digits each; the last text may still be about to be sent.
pub client_to_browser :
    (dump : Object → List ℕ)
    → ((o : Object) → (length (dump o) == 0) ≡ false)
    → (k : Kvm) (client : Sender) (rounds : List Round) → length client.packet ≡ 214
    → {s u : State} {ls : List Label} → Runs (json_text amd64_packet_to_json dump) s ls u
    → s.thread ≡ testing
    → (c : ℕ) → IsDistinct s.ws_clients
    → connected c s ≡ true
    → stays c ls ≡ true
    → packets ls ≡ datagrams (send_frames k client rounds).out
    → delivered c ls ++ pending u.thread
      ≡ map (λ p. dump (registers (read_clockframe p 0))) (panels k rounds)
client_to_browser dump some_text k client rounds h r e c set there same came =
    browser-texts (json_text amd64_packet_to_json dump) wire
      (λ p. dump (registers (read_clockframe p 0))) 208
      (λ p full. rw (wire-bytes p) (
        wire-sending amd64_packet_to_json dump 208 3 0 0 0 p (registers (read_clockframe p 0))
          (omega arith) full (frame_taken p full) (some_text (registers (read_clockframe p 0)))))
      (panels k rounds) c (panels-full k rounds) r e set there same
      (came ∙ (send_frames-sends k client rounds h).0)
