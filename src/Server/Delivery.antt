-- ===== src/Server/Delivery.antt =====
-- What the server makes of a packet that a client populated, for any packet layout.
use udproxy.Base.{
  ℕ, ◌+◌, ◌≤◌, ◌≡◌, ◌∙◌, ap, arith, List, [], ◌∷◌, length, take, take_all, ◌==◌, if◌then◌else◌,
}
use udproxy.Base.Bytes.{put, window, from_le}
use udproxy.Layout.{Abi, u16, u32, load, to_bytes}
use udproxy.Packet.{
  Shape, header_size, flags_offset, state_size, state_offset, packet_size, populate,
}
use udproxy.Packet.Fields.{length-populate, populate-count, populate-flags, populate-state}
use udproxy.PanelState.{host}
use udproxy.Display.{Sender, mismatch}
use udproxy.Server.{
  Server, datagram, next, buffer_size, check_packet, count_frame, process, serve_once,
}
use udproxy.Server.Received.{window-received}

-- A packet as a client on machine `a` sends it, and a server that receives it.
pub record Sent (a : Abi) (s : Shape) (state packet : List ℕ) (server : Server) : Type 0 where
  pub full : length state ≡ state_size a s
  pub whole : length packet ≡ packet_size a s
  pub behind : 6 ≤ state_offset a s
  pub room : state_offset a s + state_size a s ≤ packet_size a s
  pub small : packet_size a s ≤ buffer_size
  pub sized : length server.buffer ≡ buffer_size

-- The checks on a packet that has a header, with what the header's fields read.
pub check_packet_lem :
    (buffer : List ℕ) (n got : ℕ) (sender : Sender) {count flags : ℕ}
    → 6 ≤ got
    → load host u16 buffer 0 ≡ count
    → load host u32 buffer 2 ≡ flags
    → check_packet buffer n got sender ≡ (
        if got == 6 + count
        then count_frame buffer n (process buffer flags count sender)
        else next
            (record { buffer = buffer; frame_count = n })
            (mismatch got (6 + count) sender ∷ []))
unfolding check_packet header_size flags_offset
check_packet_lem buffer n got sender h c f = ground arith

pub load_count :
    (buffer : List ℕ) {bytes : List ℕ}
    → window buffer 0 2 ≡ bytes
    → load host u16 buffer 0 ≡ from_le bytes
unfolding load
load_count buffer h = ap from_le h

pub load_flags :
    (buffer : List ℕ) {bytes : List ℕ}
    → window buffer 2 4 ≡ bytes
    → load host u32 buffer 2 ≡ from_le bytes
unfolding load
load_flags buffer h = ap from_le h

module _ (a : Abi) (s : Shape) (flags : ℕ) (state packet : List ℕ) (server : Server)
    (sent : Sent a s state packet server) where
  abbrev dgram : List ℕ
  dgram = populate a s flags state packet

  abbrev after : List ℕ
  after = put server.buffer 0 (take buffer_size dgram)

  length-dgram : length dgram ≡ packet_size a s
  length-dgram =
      length-populate a s flags state packet sent.full sent.behind (omega arith) ∙ sent.whole

  take-dgram : take buffer_size dgram ≡ dgram
  take-dgram = take_all buffer_size dgram (omega (arith, length-dgram))

  length-taken : length (take buffer_size dgram) ≡ packet_size a s
  length-taken = ap length take-dgram ∙ length-dgram

  window-after : (k n : ℕ) → k + n ≤ packet_size a s → window after k n ≡ window dgram k n
  window-after k n h =
      window-received server.buffer dgram sent.sized k n (omega (arith, length-taken))

  pub count-after : window after 0 2 ≡ to_bytes a 2 (state_size a s)
  count-after =
      window-after 0 2 (omega arith)
      ∙ populate-count a s flags state packet sent.full sent.behind (omega arith)

  pub flags-after : window after 2 4 ≡ to_bytes a 4 flags
  flags-after =
      window-after 2 4 (omega arith)
      ∙ populate-flags a s flags state packet sent.full sent.behind (omega arith)

  pub state-after : window after (state_offset a s) (state_size a s) ≡ state
  state-after =
      window-after (state_offset a s) (state_size a s) sent.room
      ∙ populate-state a s flags state packet sent.full sent.behind (omega arith)

  -- The server reads the header's two fields as the bytes that the client wrote.
  pub serve_once-sent :
      (sender : Sender)
      → let count = from_le (to_bytes a 2 (state_size a s)) in
        let seen = from_le (to_bytes a 4 flags) in
        serve_once server (datagram dgram sender) ≡ (
          if packet_size a s == 6 + count
          then count_frame after server.frame_count (process after seen count sender)
          else next
              (record server { buffer = after })
              (mismatch (packet_size a s) (6 + count) sender ∷ []))
  unfolding serve_once
  serve_once-sent sender =
      check_packet_lem after server.frame_count (length (take buffer_size dgram)) sender
        (omega (arith, length-taken)) (load_count after count-after) (load_flags after flags-after)
      ∙ rw length-taken
