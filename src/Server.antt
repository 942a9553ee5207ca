-- ===== src/Server.antt =====
-- The receive loop of socket/server.c, `handle_udp_clients`, over the events of its socket.
pub mod Received
pub mod Accept
pub mod Delivery
pub mod Panels
pub mod Delivered
pub mod Rejected
pub mod Stale
pub mod Progress
pub mod Main
pub mod Arrivals
use udproxy.Base.{
  ℕ, ◌+◌, ◌%◌, Bool, true, false, List, [], ◌∷◌, ◌++◌, length, take, if◌then◌else◌, ltb, ◌==◌, not,
}
use udproxy.Base.Bytes.{put}
use udproxy.Layout.{u16, u32, load}
use udproxy.Packet.{
  panel_pdp1170, panel_vax, panel_netbsdx64, panel_macos, panel_linuxx64, pdp_shape, vax_shape,
  netbsdx64_shape, macos_shape, linuxx64_shape, header_size, flags_offset, state_offset,
}
use udproxy.PanelState.{
  host, read_pdp_panel, read_vax_panel, read_clockframe, read_pt_regs, read_macos_panel,
}
use udproxy.Display.{
  Sender, Line, type_tag, incomplete, mismatch, unknown, received, recv_failed, total,
  get_panel_type_name, display_pdp_panel, display_vax_panel, display_netbsdx64_panel,
  display_macos_panel, display_linuxx64_panel,
}

-- What `recvfrom` returns: an error number, or a datagram with the address it came from.
pub data Recv : Type 0 where
  failed : (errno : ℕ) → Recv
  datagram : (bytes : List ℕ) → Sender → Recv

abbrev pub eintr : ℕ
eintr = 4

-- The local variables of `handle_udp_clients` that live across rounds. `buffer` has 1024 bytes.
pub record Server : Type 0 where
  pub buffer : List ℕ
  pub frame_count : ℕ

abbrev pub buffer_size : ℕ
buffer_size = 1024

-- The `switch` on the panel type. The casts read the state at its offset in the packet struct of
-- the server's host, wherever the datagram ended.
unfoldable pub process : List ℕ → ℕ → ℕ → Sender → List Line
process buffer flags count sender =
    if flags == panel_pdp1170
    then type_tag (get_panel_type_name flags)
      ∷ display_pdp_panel (read_pdp_panel buffer (state_offset host pdp_shape))
    else if flags == panel_vax
    then type_tag (get_panel_type_name flags)
      ∷ display_vax_panel (read_vax_panel buffer (state_offset host vax_shape))
    else if flags == panel_netbsdx64
    then type_tag (get_panel_type_name flags)
      ∷ display_netbsdx64_panel (read_clockframe buffer (state_offset host netbsdx64_shape))
    else if flags == panel_macos
    then type_tag (get_panel_type_name flags)
      ∷ display_macos_panel (read_macos_panel buffer (state_offset host macos_shape))
    else if flags == panel_linuxx64
    then type_tag (get_panel_type_name flags)
      ∷ display_linuxx64_panel (read_pt_regs buffer (state_offset host linuxx64_shape))
    else unknown flags count sender ∷ []

-- How a round ends: with `continue` or at the end of the body, or with `break`.
pub data Round : Type 0 where
  next : Server → List Line → Round
  break : Server → List Line → Round

-- A frame that passed the checks: the panel is shown and the frame counted.
unfoldable pub count_frame : List ℕ → ℕ → List Line → Round
count_frame buffer frame_count lines =
    let n = frame_count + 1 in
    next (record { buffer = buffer; frame_count = n })
      (lines ++ (if n % 30 == 0 then received n ∷ [] else []))

-- The checks on the received bytes, `bytes_received` of them at the front of `buffer`.
unfoldable pub check_packet : List ℕ → ℕ → ℕ → Sender → Round
check_packet buffer frame_count bytes_received sender =
    let s : Server = record { buffer = buffer; frame_count = frame_count } in
    let count = load host u16 buffer 0 in
    let flags = load host u32 buffer (flags_offset host) in
    let expected = header_size host + count in
    if ltb bytes_received (header_size host)
    then next s (incomplete bytes_received (header_size host) ∷ [])
    else if not (bytes_received == expected)
    then next s (mismatch bytes_received expected sender ∷ [])
    else count_frame buffer frame_count (process buffer flags count sender)

-- One round. `recvfrom` cuts a datagram off at the buffer's size, and leaves the rest of the buffer
-- as it was.
unfoldable pub serve_once : Server → Recv → Round
serve_once s (failed errno) = if errno == eintr then next s [] else break s (recv_failed errno ∷ [])
serve_once s (datagram bytes sender) =
    let got = take buffer_size bytes in
    check_packet (put s.buffer 0 got) s.frame_count (length got) sender

-- What the loop has done when the events are used up. `ended` tells that it was left by `break`.
pub record Outcome : Type 0 where
  pub server : Server
  pub lines : List Line
  pub ended : Bool

abbrev pub prepend : List Line → Outcome → Outcome
prepend ls o = record o { lines = ls ++ o.lines }

-- A `break` leaves for the line behind the loop.
abbrev pub and_then : Round → (Server → Outcome) → Outcome
and_then (next s ls) k = prepend ls (k s)
and_then (break s ls) k = record {
  server = s;
  lines = ls ++ (total s.frame_count ∷ []);
  ended = true;
}

unfoldable pub handle_udp_clients : Server → List Recv → Outcome
handle_udp_clients s [] = record { server = s; lines = []; ended = false }
handle_udp_clients s (e ∷ es) = and_then (serve_once s e) (λ s'. handle_udp_clients s' es)
