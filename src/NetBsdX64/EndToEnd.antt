-- ===== src/NetBsdX64/EndToEnd.antt =====
-- socket/arch/NetBSDx64/client.c together with socket/server.c.
use udproxy.Base.{ℕ, zero, ◌+◌, ◌≡◌, List, ◌∷◌, replicate, length, length-replicate, false}
use udproxy.PanelState.{read_clockframe}
use udproxy.Display.{Sender, Line, type_tag, display_netbsdx64_panel}
use udproxy.Server.{
  Server, datagram, next, buffer_size, count_frame, serve_once, handle_udp_clients,
}
use udproxy.Server.Delivered.{serve_once-netbsdx64}
use udproxy.Server.Arrivals.{shown, shown_panel, arrivals, counted, arrivals-Shows}
use udproxy.Client.{datagrams}
use udproxy.NetBsdX64
use udproxy.NetBsdX64.{Kvm, send_frames}
use udproxy.NetBsdX64.Trace.{panels, wire, populate-wire, send_frames-sends, panels-full}

-- The lines of a panel.
unfoldable pub display : List ℕ → List Line
display p = type_tag "NetBSD x64" ∷ display_netbsdx64_panel (read_clockframe p 0)

blank : List ℕ
blank = replicate 214 0

serve_once-wire :
    (from : Sender) (server : Server) (p : List ℕ)
    → length p ≡ 208
    → length server.buffer ≡ buffer_size
    → serve_once server (datagram (wire p) from)
      ≡ next (counted server (wire p)) (shown_panel display server.frame_count p)
unfolding blank count_frame shown_panel display
serve_once-wire from server p full sized =
    let whole = length-replicate 214 zero in
    rw (← populate-wire p blank full whole)
      (serve_once-netbsdx64 p blank server from full whole sized)

-- For a client with a packet variable of 214 bytes and a server with its 1024-byte buffer, and
-- whatever the kvm library and the socket answer the client: if the client's datagrams arrive in
-- order, the server shows the registers of exactly the panels that the client read and sent, in
-- order, with a progress line at each multiple of 30, counts them all, and keeps waiting.
pub client_to_server :
    (k : Kvm) (client : NetBsdX64.Sender) (rounds : List NetBsdX64.Round) (server : Server)
    (from : Sender)
    → length client.packet ≡ 214
    → length server.buffer ≡ buffer_size
    → let o =
        handle_udp_clients server (arrivals from (datagrams (send_frames k client rounds).out)) in
      (o.lines ≡ shown display server.frame_count (panels k rounds))
      × (o.server.frame_count ≡ server.frame_count + length (panels k rounds))
      × (o.ended ≡ false)
client_to_server k client rounds server from h sized =
    rw ((send_frames-sends k client rounds h).0) (
      arrivals-Shows display wire 208 from (serve_once-wire from) server (panels k rounds) sized
        (panels-full k rounds))
