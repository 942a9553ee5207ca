-- ===== src/Proxy/FromVax.antt =====
-- The client on NetBSD for the VAX and the module of the proxy that takes its packets.
use udproxy.Base.{
  ℕ, ◌≡◌, ◌∙◌, refl, arith, true, false, some, List, All, [], ◌∷◌, ◌++◌, map, length, ◌==◌,
}
use udproxy.Base.Bytes.{le_bytes}
use udproxy.Layout.{struct_size}
use udproxy.PanelState.{host, read_vax_panel}
use udproxy.Client.{datagrams}
use udproxy.NetBsdVax.{Notifier, Sender, Round, send_frames_with_notification}
use udproxy.NetBsdVax.Notices.{wire, panels, panels-full}
use udproxy.NetBsdVax.Sends.{send_frames_with_notification-sends}
use udproxy.Proxy.{Object}
use udproxy.Proxy.Panels.{vax_members, vax_json, vax_packet_to_json}
use udproxy.Proxy.Accept.{get_panel_state-sent}
use udproxy.Proxy.Loop.{testing, State, json_text, Label, Runs}
use udproxy.Proxy.Loop.Delivery.{pending, IsDistinct, connected, stays, delivered}
use udproxy.Proxy.Loop.Texts.{packets}
use udproxy.Proxy.EndToEnd.{wire-sending, browser-texts}

panel_size : struct_size host true vax_members ≡ 8
unfolding struct_size
panel_size = refl

wire-bytes : (p : List ℕ) → wire p ≡ le_bytes 2 8 ++ ((2 ∷ 0 ∷ 0 ∷ 0 ∷ []) ++ p)
unfolding wire le_bytes
wire-bytes p = refl

panel_taken :
    (p : List ℕ)
    → length p ≡ 8
    → vax_packet_to_json (le_bytes 2 8 ++ ((2 ∷ 0 ∷ 0 ∷ 0 ∷ []) ++ p))
      ≡ some (vax_json (read_vax_panel p 0))
unfolding vax_packet_to_json
panel_taken p full =
    rw
      (
        vax_packet_to_json,
        get_panel_state-sent vax_members 8 2 0 0 0 p panel_size (omega arith) full,
      )
      refl

-- Whatever the library that writes JSON makes of an object, so long as it is not the empty text,
-- and with a packet variable of 14 bytes and a read array of 128: from a state before the test of
-- the loop, in which no browser is in the set twice, if the packets that arrive are those of the
-- client, in order, then a browser that stays connected receives from the proxy, whatever the
-- other browsers and the signal do in between, one text for each notice of the kernel whose panel
-- the client sent, in order, with its address and its data; the last text may still be about to be
-- sent.
pub notices_to_browser :
    (dump : Object → List ℕ)
    → ((o : Object) → (length (dump o) == 0) ≡ false)
    → (n : Notifier) (client : Sender) (rounds : List Round) → length client.packet ≡ 14
    → All (λ r. length r.raw_data ≡ 128) rounds
    → {s u : State} {ls : List Label} → Runs (json_text vax_packet_to_json dump) s ls u
    → s.thread ≡ testing
    → (c : ℕ) → IsDistinct s.ws_clients
    → connected c s ≡ true
    → stays c ls ≡ true
    → packets ls ≡ datagrams (send_frames_with_notification n client rounds).out
    → delivered c ls ++ pending u.thread
      ≡ map (λ p. dump (vax_json (read_vax_panel p 0))) (panels n rounds)
notices_to_browser dump some_text n client rounds h full_arrays r e c set there same came =
    browser-texts (json_text vax_packet_to_json dump) wire
      (λ p. dump (vax_json (read_vax_panel p 0))) 8
      (λ p full. rw (wire-bytes p) (
        wire-sending vax_packet_to_json dump 8 2 0 0 0 p (vax_json (read_vax_panel p 0))
          (omega arith) full (panel_taken p full) (some_text (vax_json (read_vax_panel p 0)))))
      (panels n rounds) c (panels-full n rounds full_arrays) r e set there same
      (came ∙ send_frames_with_notification-sends n client rounds h full_arrays)
