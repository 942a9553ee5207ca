-- ===== src/Server/Delivered.antt =====
-- The packets of the NetBSD clients arrive: what socket/arch/NetBSDx64/client.c and
-- socket/arch/NetBSDVAX/client.c send is what socket/server.c shows.
use udproxy.Base.{ℕ, ◌≡◌, ◌∙◌, ap, arith, List, ◌∷◌, length, take}
use udproxy.Base.Bytes.{put, from_le}
use udproxy.Layout.{lp64, vax, to_bytes}
use udproxy.Packet.{netbsdx64_shape, vax_shape, panel_netbsdx64, panel_vax, populate, state_offset}
use udproxy.Packet.Fields.{sizes_netbsdx64, sizes_vax}
use udproxy.PanelState.{read_clockframe, read_vax_panel}
use udproxy.Display.{
  Sender, type_tag, display_netbsdx64_panel, display_vax_panel, get_panel_type_name,
}
use udproxy.Server.{Server, datagram, buffer_size, count_frame, process, serve_once}
use udproxy.Server.Delivery.{Sent, serve_once-sent, state-after}
use udproxy.Server.Panels.{read_clockframe-window, read_vax_panel-window}

module _ (state packet : List ℕ) (server : Server) (sender : Sender) (full : length state ≡ 208)
    (whole : length packet ≡ 214) (sized : length server.buffer ≡ buffer_size) where
  abbrev dgram : List ℕ
  dgram = populate lp64 netbsdx64_shape panel_netbsdx64 state packet

  abbrev after : List ℕ
  after = put server.buffer 0 (take buffer_size dgram)

  sent : Sent lp64 netbsdx64_shape state packet server
  sent = record {
    full = omega (arith, sizes_netbsdx64);
    whole = omega (arith, sizes_netbsdx64);
    behind = omega (arith, sizes_netbsdx64);
    room = omega (arith, sizes_netbsdx64);
    small = omega (arith, sizes_netbsdx64);
    sized = sized;
  }

  frame_read : read_clockframe after 6 ≡ read_clockframe state 0
  frame_read =
      read_clockframe-window after 6
      ∙ ap (λ (b : List ℕ). read_clockframe b 0)
          (rw (sizes_netbsdx64.1, sizes_netbsdx64.0) at
            (state-after lp64 netbsdx64_shape panel_netbsdx64 state packet server sent))

  -- From a client on NetBSD x64: whatever the padding and the server's buffer held, the server counts
  -- the packet as a frame and shows the 26 registers of the client's panel bytes.
  pub serve_once-netbsdx64 :
      serve_once server (datagram dgram sender)
      ≡ count_frame after server.frame_count
          (type_tag "NetBSD x64" ∷ display_netbsdx64_panel (read_clockframe state 0))
  unfolding process get_panel_type_name state_offset to_bytes from_le
  serve_once-netbsdx64 =
      serve_once-sent lp64 netbsdx64_shape panel_netbsdx64 state packet server sent sender
      ∙ rw (sizes_netbsdx64.0, sizes_netbsdx64.2)
          (ap
            (λ f.
              count_frame after server.frame_count
                (type_tag "NetBSD x64" ∷ display_netbsdx64_panel f))
            frame_read)

module _ (state packet : List ℕ) (server : Server) (sender : Sender) (full : length state ≡ 8)
    (whole : length packet ≡ 14) (sized : length server.buffer ≡ buffer_size) where
  abbrev vax_dgram : List ℕ
  vax_dgram = populate vax vax_shape panel_vax state packet

  abbrev vax_after : List ℕ
  vax_after = put server.buffer 0 (take buffer_size vax_dgram)

  vax-Sent : Sent vax vax_shape state packet server
  vax-Sent = record {
    full = omega (arith, sizes_vax);
    whole = omega (arith, sizes_vax);
    behind = omega (arith, sizes_vax);
    room = omega (arith, sizes_vax);
    small = omega (arith, sizes_vax);
    sized = sized;
  }

  panel_read : read_vax_panel vax_after 6 ≡ read_vax_panel state 0
  panel_read =
      read_vax_panel-window vax_after 6
      ∙ ap (λ (b : List ℕ). read_vax_panel b 0)
          (rw (sizes_vax.1, sizes_vax.0) at
            (state-after vax vax_shape panel_vax state packet server vax-Sent))

  -- From a client on NetBSD VAX: whatever the padding and the server's buffer held, the server counts
  -- the packet as a frame and shows the address and data of the client's panel bytes.
  pub serve_once-vax :
      serve_once server (datagram vax_dgram sender)
      ≡ count_frame vax_after server.frame_count
          (type_tag "VAX" ∷ display_vax_panel (read_vax_panel state 0))
  unfolding process get_panel_type_name state_offset to_bytes from_le
  serve_once-vax =
      serve_once-sent vax vax_shape panel_vax state packet server vax-Sent sender
      ∙ rw (sizes_vax.0, sizes_vax.2)
          (ap (λ f. count_frame vax_after server.frame_count (type_tag "VAX" ∷ display_vax_panel f))
            panel_read)
