-- ===== src/NetBsdVax/EndToEnd.antt =====
-- socket/arch/NetBSDVAX/client.c together with socket/server.c.
use udproxy.Base.{ℕ, zero, ◌+◌, ◌≡◌, List, ◌∷◌, All, replicate, length, length-replicate, false}
use udproxy.PanelState.{read_vax_panel}
use udproxy.Display.{Sender, Line, type_tag, display_vax_panel}
use udproxy.Server.{
  Server, datagram, next, buffer_size, count_frame, serve_once, handle_udp_clients,
}
use udproxy.Server.Delivered.{serve_once-vax}
use udproxy.Server.Arrivals.{shown, shown_panel, arrivals, counted, arrivals-Shows}
use udproxy.Client.{datagrams}
use udproxy.NetBsdVax
use udproxy.NetBsdVax.{Notifier, send_frames_with_notification}
use udproxy.NetBsdVax.Notices.{panels, wire, populate-wire, panels-full}
use udproxy.NetBsdVax.Sends.{send_frames_with_notification-sends}

-- The lines of a panel.
unfoldable pub display : List ℕ → List Line
display p = type_tag "VAX" ∷ display_vax_panel (read_vax_panel p 0)

blank : List ℕ
blank = replicate 14 0

serve_once-wire :
    (from : Sender) (server : Server) (p : List ℕ)
    → length p ≡ 8
    → length server.buffer ≡ buffer_size
    → serve_once server (datagram (wire p) from)
      ≡ next (counted server (wire p)) (shown_panel display server.frame_count p)
unfolding blank count_frame shown_panel display
serve_once-wire from server p full sized =
    let whole = length-replicate 14 zero in
    rw (← populate-wire p blank full whole) (serve_once-vax p blank server from full whole sized)

-- For a client with a packet variable of 14 bytes and a read array of 128, and a server with its
-- 1024-byte buffer, and whatever the event queue, the kernel's memory and the socket answer the
-- client: if its datagrams arrive in order, the server shows the address and data of exactly the
-- panels that the client sent on the kernel's notices, in order, with a progress line at each
-- multiple of 30, counts them all, and keeps waiting.
pub notice_to_server :
    (n : Notifier) (client : NetBsdVax.Sender) (rounds : List NetBsdVax.Round) (server : Server)
    (from : Sender)
    → length client.packet ≡ 14
    → All (λ r. length r.raw_data ≡ 128) rounds
    → length server.buffer ≡ buffer_size
    → let o =
        handle_udp_clients server
          (arrivals from (datagrams (send_frames_with_notification n client rounds).out)) in
      (o.lines ≡ shown display server.frame_count (panels n rounds))
      × (o.server.frame_count ≡ server.frame_count + length (panels n rounds))
      × (o.ended ≡ false)
notice_to_server n client rounds server from h full sized =
    rw (send_frames_with_notification-sends n client rounds h full) (
      arrivals-Shows display wire 8 from (serve_once-wire from) server (panels n rounds) sized
        (panels-full n rounds full))
