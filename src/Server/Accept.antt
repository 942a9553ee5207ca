-- ===== src/Server/Accept.antt =====
-- Which datagrams the server counts as frames, and when its loop ends.
use udproxy.Base.{
  ℕ, ◌+◌, ◌≤◌, ◌≡◌, ap, refl, arith, Bool, true, false, ◌&&◌, List, [], ◌∷◌, length, take,
  if◌then◌else◌, leb, ◌==◌,
}
use udproxy.Base.Bytes.{put, from_le}
use udproxy.Layout.{load, u16}
use udproxy.Packet.{header_size}
use udproxy.PanelState.{host}
use udproxy.Display.{Sender, recv_failed}
use udproxy.Server.{
  Server, Recv, failed, datagram, Round, next, break, buffer_size, eintr, check_packet, serve_once,
  Outcome, and_then, handle_udp_clients, count_frame,
}
use udproxy.Server.Received.{window-received, length-after}

-- A datagram is a frame if it has a header, and as many bytes behind it as the header's count says.
unfoldable pub is_frame : List ℕ → Bool
is_frame bytes =
    let n = length (take buffer_size bytes) in leb 6 n && n == 6 + from_le (take 2 bytes)

-- The frames received before the first error other than an interruption.
unfoldable pub frames : List Recv → ℕ
unfolding is_frame
frames [] = 0
frames (failed errno ∷ es) = if errno == eintr then frames es else 0
frames (datagram bytes sender ∷ es) = (if is_frame bytes then 1 else 0) + frames es

-- Whether such an error occurs.
unfoldable pub fails : List Recv → Bool
fails [] = false
fails (failed errno ∷ es) = if errno == eintr then fails es else true
fails (datagram bytes sender ∷ es) = fails es

abbrev IsSized : Server → Type 0
IsSized s = length s.buffer ≡ buffer_size

abbrev server_of : Round → Server
server_of (next s ls) = s
server_of (break s ls) = s

abbrev goes_on : Round → Bool
goes_on (next s ls) = true
goes_on (break s ls) = false

header_size_lem : header_size host ≡ 6
unfolding header_size
header_size_lem = refl

-- The checks go on with the next datagram, keep the buffer, and count exactly the packets whose
-- length is that of the header and its count.
check_packet_step :
    (buffer : List ℕ) (n got : ℕ) (sender : Sender)
    → let r = check_packet buffer n got sender in
      (goes_on r ≡ true)
      × ((server_of r).buffer ≡ buffer)
      × ((server_of r).frame_count
          ≡ n + (if leb 6 got && got == 6 + load host u16 buffer 0 then 1 else 0))
unfolding check_packet count_frame
check_packet_step buffer n got sender = ground (arith, header_size_lem)

-- The count that the server reads is the datagram's own, if the datagram has one.
load-received :
    (s : Server) (bytes : List ℕ)
    → IsSized s
    → 2 ≤ length (take buffer_size bytes)
    → load host u16 (put s.buffer 0 (take buffer_size bytes)) 0 ≡ from_le (take 2 bytes)
unfolding load
load-received s bytes sized h = ap from_le (window-received s.buffer bytes sized 0 2 (omega arith))

serve_once-datagram :
    (s : Server) (bytes : List ℕ) (sender : Sender)
    → IsSized s
    → let r = serve_once s (datagram bytes sender) in
      (goes_on r ≡ true)
      × IsSized (server_of r)
      × ((server_of r).frame_count ≡ s.frame_count + (if is_frame bytes then 1 else 0))
unfolding serve_once is_frame
serve_once-datagram s bytes sender sized =
    let buffer = put s.buffer 0 (take buffer_size bytes) in
    let got = length (take buffer_size bytes) in
    ground (
      arith,
      check_packet_step buffer s.frame_count got sender,
      load-received s bytes sized,
      length-after s.buffer bytes sized,
    )

and_then-server :
    (r : Round) (k : Server → Outcome)
    → goes_on r ≡ true
    → ((and_then r k).server ≡ (k (server_of r)).server)
      × ((and_then r k).ended ≡ (k (server_of r)).ended)
and_then-server (next s ls) k h = (refl, refl)
and_then-server (break s ls) k h = cc

serve_once-failed :
    (s : Server) (errno : ℕ)
    → serve_once s (failed errno)
      ≡ (if errno == eintr then next s [] else break s (recv_failed errno ∷ []))
unfolding serve_once
serve_once-failed s errno = refl

-- From a server with its 1024-byte buffer, for every sequence of events: the frame count grows by
-- the number of well-formed frames before the first error that is no interruption, the loop ends
-- exactly if there is such an error, and the buffer keeps its size.
pub handle_udp_clients-frames :
    (s : Server) (es : List Recv)
    → IsSized s
    → let o = handle_udp_clients s es in
      (o.server.frame_count ≡ s.frame_count + frames es) × (o.ended ≡ fails es) × IsSized o.server
unfolding handle_udp_clients frames fails
handle_udp_clients-frames s [] sized = (omega arith, refl, sized)
handle_udp_clients-frames s (failed errno ∷ es) sized =
    ground (arith, serve_once-failed s errno, handle_udp_clients-frames s es sized)
handle_udp_clients-frames s (datagram bytes sender ∷ es) sized =
    let r = serve_once s (datagram bytes sender) in
    ground (
      arith,
      serve_once-datagram s bytes sender sized,
      and_then-server r (λ s'. handle_udp_clients s' es),
      handle_udp_clients-frames (server_of r) es,
    )
