-- ===== src/Server/Rejected.antt =====
-- Packets that the server turns away, or shows without their panel.
use udproxy.Base.{ℕ, ◌≡◌, ◌∙◌, arith, List, [], ◌∷◌, length, take}
use udproxy.Base.Bytes.{put, from_le}
use udproxy.Layout.{lp64, pdp11, to_bytes}
use udproxy.Packet.{
  linuxx64_shape, macos_shape, pdp_shape, panel_linuxx64, panel_macos, panel_pdp1170, populate,
}
use udproxy.Packet.Fields.{sizes_linuxx64, sizes_macos, sizes_pdp}
use udproxy.Display.{Sender, mismatch, unknown}
use udproxy.Server.{Server, datagram, next, buffer_size, count_frame, process, serve_once}
use udproxy.Server.Delivery.{Sent, serve_once-sent}

module _ (state packet : List ℕ) (server : Server) (sender : Sender) (full : length state ≡ 168)
    (whole : length packet ≡ 176) (sized : length server.buffer ≡ buffer_size) where
  abbrev linux_dgram : List ℕ
  linux_dgram = populate lp64 linuxx64_shape panel_linuxx64 state packet

  abbrev linux_after : List ℕ
  linux_after = put server.buffer 0 (take buffer_size linux_dgram)

  linux-Sent : Sent lp64 linuxx64_shape state packet server
  linux-Sent = record {
    full = omega (arith, sizes_linuxx64);
    whole = omega (arith, sizes_linuxx64);
    behind = omega (arith, sizes_linuxx64);
    room = omega (arith, sizes_linuxx64);
    small = omega (arith, sizes_linuxx64);
    sized = sized;
  }

  -- The server counts no packet of the Linux x64 client: its header announces 168 bytes, and two
  -- bytes of padding follow the header, so 176 bytes arrive where the server expects 174.
  pub serve_once-linuxx64 :
      serve_once server (datagram linux_dgram sender)
      ≡ next (record server { buffer = linux_after }) (mismatch 176 174 sender ∷ [])
  unfolding to_bytes from_le
  serve_once-linuxx64 =
      serve_once-sent lp64 linuxx64_shape panel_linuxx64 state packet server linux-Sent sender
      ∙ rw (sizes_linuxx64.0, sizes_linuxx64.2)

module _ (state packet : List ℕ) (server : Server) (sender : Sender) (full : length state ≡ 72)
    (whole : length packet ≡ 80) (sized : length server.buffer ≡ buffer_size) where
  abbrev macos_dgram : List ℕ
  macos_dgram = populate lp64 macos_shape panel_macos state packet

  abbrev macos_after : List ℕ
  macos_after = put server.buffer 0 (take buffer_size macos_dgram)

  macos-Sent : Sent lp64 macos_shape state packet server
  macos-Sent = record {
    full = omega (arith, sizes_macos);
    whole = omega (arith, sizes_macos);
    behind = omega (arith, sizes_macos);
    room = omega (arith, sizes_macos);
    small = omega (arith, sizes_macos);
    sized = sized;
  }

  -- The server counts no packet of the macOS client: its header announces 72 bytes, and two
  -- bytes of padding follow the header, so 80 bytes arrive where the server expects 78.
  pub serve_once-macos :
      serve_once server (datagram macos_dgram sender)
      ≡ next (record server { buffer = macos_after }) (mismatch 80 78 sender ∷ [])
  unfolding to_bytes from_le
  serve_once-macos =
      serve_once-sent lp64 macos_shape panel_macos state packet server macos-Sent sender
      ∙ rw (sizes_macos.0, sizes_macos.2)

module _ (state packet : List ℕ) (server : Server) (sender : Sender) (full : length state ≡ 16)
    (whole : length packet ≡ 22) (sized : length server.buffer ≡ buffer_size) where
  abbrev pdp_dgram : List ℕ
  pdp_dgram = populate pdp11 pdp_shape panel_pdp1170 state packet

  abbrev pdp_after : List ℕ
  pdp_after = put server.buffer 0 (take buffer_size pdp_dgram)

  pdp-Sent : Sent pdp11 pdp_shape state packet server
  pdp-Sent = record {
    full = omega (arith, sizes_pdp);
    whole = omega (arith, sizes_pdp);
    behind = omega (arith, sizes_pdp);
    room = omega (arith, sizes_pdp);
    small = omega (arith, sizes_pdp);
    sized = sized;
  }

  -- The panel type of a 2.11BSD packet, stored with its high word first, reads as 65536 on the
  -- server's host: the packet counts as a frame, and is shown as one of an unknown type.
  pub serve_once-pdp :
      serve_once server (datagram pdp_dgram sender)
      ≡ count_frame pdp_after server.frame_count (unknown 65536 16 sender ∷ [])
  unfolding process to_bytes from_le
  serve_once-pdp =
      serve_once-sent pdp11 pdp_shape panel_pdp1170 state packet server pdp-Sent sender
      ∙ rw (sizes_pdp.0, sizes_pdp.2)
