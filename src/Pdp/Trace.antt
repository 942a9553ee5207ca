-- ===== src/Pdp/Trace.antt =====
-- The datagrams of the 2.11BSD client, and what the server makes of them.
use udproxy.Base.{
  ℕ, zero, suc, ◌+◌, ◌≡◌, ◌≤◌, ◌∙◌, ap, drop, append-nil, refl, arith, Bool, true, false, ◌&&◌,
  Option, none, some, List, [], ◌∷◌, ◌++◌, map, All, length, length-take, take, replicate,
  length-replicate, Option-cases, inl, inr, if◌then◌else◌, ◌==◌,
}
use udproxy.Base.Bytes.{le_bytes, put, length-put}
use udproxy.Layout.{pdp11, to_bytes}
use udproxy.Packet.{pdp_shape, panel_pdp1170, populate}
use udproxy.Packet.Fields.{sizes_pdp, populate-packed, length-populate}
use udproxy.Display.{Sender, Line, unknown}
use udproxy.Server.{
  Server, datagram, next, buffer_size, count_frame, serve_once, handle_udp_clients,
}
use udproxy.Server.Rejected.{serve_once-pdp}
use udproxy.Server.Arrivals.{shown, shown_panel, arrivals, counted, arrivals-Shows}
use udproxy.Client.{sent, note, waited, goes_on, state_of, out_of, loop, datagrams}
use udproxy.Client.Laws.{datagrams-append, follow-out}
use udproxy.Pdp
use udproxy.Pdp.{
  Memory, Reader, Read, is_static, count_read, read_panel_from_kmem, Round, send_frame, send_round,
  send_frames_loop,
}

-- A whole panel, if the memory delivers one.
unfoldable pub readable : Memory → Option (List ℕ)
readable m = elim m.read [
  | none ↦ none
  | some bytes ↦ if m.lseek_ok && length (take 16 bytes) == 16 then some (take 16 bytes) else none
]

-- The panel that a round reads and sends, if both succeed.
unfoldable pub sendable : Round → Option (List ℕ)
unfolding readable
sendable r = elim r.errno [ none ↦ readable r.memory | some e ↦ none ]

unfoldable pub panels : List Round → List (List ℕ)
unfolding sendable
panels [] = []
panels (r ∷ rs) = let rest = panels rs in elim (sendable r) [ none ↦ [] | some p ↦ p ∷ rest ]

-- The size, the panel type with its high word first, the panel.
unfoldable pub wire : List ℕ → List ℕ
unfolding le_bytes
wire p = le_bytes 2 16 ++ ((0 ∷ 0 ∷ 1 ∷ 0 ∷ []) ++ p)

populate-wire :
    (p packet : List ℕ)
    → length p ≡ 16
    → length packet ≡ 22
    → populate pdp11 pdp_shape panel_pdp1170 p packet ≡ wire p
unfolding wire to_bytes
populate-wire p packet h h' =
    populate-packed pdp11 pdp_shape panel_pdp1170 p packet (omega (arith, sizes_pdp)) sizes_pdp.1
      (omega (arith, sizes_pdp))
    ∙ rw sizes_pdp.0

drop_all : (n : ℕ) (xs : List ℕ) → length xs ≤ n → drop n xs ≡ []
drop_all zero [] h = refl
drop_all zero (x ∷ xs) h = absurd (omega arith)
drop_all (suc n) [] h = refl
drop_all (suc n) (x ∷ xs) h = drop_all n xs (omega arith)

put_whole : (p bytes : List ℕ) → length p ≡ 16 → length bytes ≡ 16 → put p 0 bytes ≡ bytes
unfolding put
put_whole p bytes h h' =
    ap (λ t. bytes ++ t) (drop_all (0 + length bytes) p (omega arith)) ∙ append-nil bytes

-- A read delivers a whole panel or fails, and keeps the panel's size.
read_panel-readable :
    (s : Reader) (m : Memory)
    → length s.panel ≡ 16
    → let got = read_panel_from_kmem s m in
      (length got.reader.panel ≡ 16)
      × (datagrams got.notes ≡ [])
      × ((if got.ok then some got.reader.panel else none) ≡ readable m)
unfolding read_panel_from_kmem readable count_read datagrams
read_panel-readable s m h = elim (Option-cases m.read) [
  | inl e ↦ ground (arith, e)
  | inr (bytes, e) ↦ ground (
    arith,
    e,
    put_whole s.panel (take 16 bytes) h,
    length-put s.panel 0 (take 16 bytes) (omega (arith, length-take 16 bytes)),
  )
]

abbrev round_sends : Option (List ℕ) → List (List ℕ)
round_sends none = []
round_sends (some p) = wire p ∷ []

abbrev is_some {ℓ} : {A : Type ℓ} → Option A → Bool
is_some none = false
is_some (some _) = true

abbrev IsSized : Pdp.Sender → Type 0
IsSized s = (length s.reader.panel ≡ 16) × (length s.packet ≡ 22)

send_round-sends :
    (s : Pdp.Sender) (r : Round)
    → IsSized s
    → let step = send_round s r in
      (goes_on step ≡ is_some (sendable r))
      × (datagrams (out_of step) ≡ round_sends (sendable r))
      × IsSized (state_of step)
unfolding send_round send_frame sendable datagrams
send_round-sends s r (h, h') =
    let got = read_panel_from_kmem s.reader r.memory in
    let (full, plain, whole) = read_panel-readable s.reader r.memory h in
    let packet = populate pdp11 pdp_shape panel_pdp1170 got.reader.panel s.packet in
    elim (Option-cases r.errno) [
      | inl e ↦ ground (
        arith,
        e,
        read_panel-readable s.reader r.memory h,
        populate-wire got.reader.panel s.packet full h',
        length-populate pdp11 pdp_shape panel_pdp1170 got.reader.panel s.packet
            (omega (arith, sizes_pdp)) (omega (arith, sizes_pdp)) (omega (arith, sizes_pdp)),
        datagrams-append got.notes (sent packet ∷ waited ∷ []),
        datagrams-append got.notes (note "Failed to read panel data from kernel\n" [] ∷ []),
      )
      | inr (n, e) ↦ ground (
        arith,
        e,
        read_panel-readable s.reader r.memory h,
        length-populate pdp11 pdp_shape panel_pdp1170 got.reader.panel s.packet
            (omega (arith, sizes_pdp)) (omega (arith, sizes_pdp)) (omega (arith, sizes_pdp)),
        datagrams-append got.notes
            (note "sendto failed after %d packets (errno=%d): " (s.frame_count ∷ n ∷ []) ∷ []),
        datagrams-append got.notes (note "Failed to read panel data from kernel\n" [] ∷ []),
      )
    ]

pub send_frames_loop-sends :
    (s : Pdp.Sender) (rounds : List Round)
    → IsSized s
    → datagrams (send_frames_loop s rounds).out ≡ map wire (panels rounds)
unfolding send_frames_loop loop panels datagrams
send_frames_loop-sends s [] h = refl
send_frames_loop-sends s (r ∷ rs) h =
    let step = send_round s r in
    let rest = λ (s' : Pdp.Sender). loop send_round s' rs in
    ground (
      arith,
      send_round-sends s r h,
      follow-out step rest,
      send_frames_loop-sends (state_of step) rs,
    )

whole-length :
    (ok : Bool) (x p : List ℕ)
    → (if ok && length x == 16 then some x else none) ≡ some p
    → length p ≡ 16
whole-length ok x p e = ground arith

readable-length : (m : Memory) (p : List ℕ) → readable m ≡ some p → length p ≡ 16
unfolding readable
readable-length m p e = elim (Option-cases m.read) [
  | inl none_read ↦ absurd (ground (arith, none_read))
  | inr (bytes, read) ↦ whole-length m.lseek_ok (take 16 bytes) p (rw (read, readable) at e)
]

pub panels-full : (rounds : List Round) → All (λ p. length p ≡ 16) (panels rounds)
unfolding panels sendable
panels-full [] = tt
panels-full (r ∷ rs) = elim (Option-cases (readable r.memory)) [
  | inl e ↦ ground (arith, e, panels-full rs)
  | inr (p, e) ↦ ground (arith, e, panels-full rs, readable-length r.memory p e)
]

-- The line of a panel, which does not depend on it.
unfoldable pub display : Sender → List ℕ → List Line
display from p = unknown 65536 16 from ∷ []

serve_once-wire :
    (from : Sender) (server : Server) (p : List ℕ)
    → length p ≡ 16
    → length server.buffer ≡ buffer_size
    → serve_once server (datagram (wire p) from)
      ≡ next (counted server (wire p)) (shown_panel (display from) server.frame_count p)
unfolding count_frame shown_panel display
serve_once-wire from server p full sized =
    let whole = length-replicate 22 zero in
    rw (← populate-wire p (replicate 22 0) full whole)
      (serve_once-pdp p (replicate 22 0) server from full whole sized)

-- For a client on 2.11BSD with a panel variable of 16 bytes and a packet variable of 22, and a server
-- with its 1024-byte buffer, whatever the kernel's memory and the socket answer the client: if its
-- datagrams arrive in order, the server counts each panel that the client read and sent, and shows
-- each as a packet of the unknown type 65536, never its registers.
pub pdp_to_server :
    (client : Pdp.Sender) (rounds : List Round) (server : Server) (from : Sender)
    → (length client.reader.panel ≡ 16) × (length client.packet ≡ 22)
    → length server.buffer ≡ buffer_size
    → let o =
        handle_udp_clients server
          (arrivals from (datagrams (send_frames_loop client rounds).out)) in
      (o.lines ≡ shown (display from) server.frame_count (panels rounds))
      × (o.server.frame_count ≡ server.frame_count + length (panels rounds))
      × (o.ended ≡ false)
pdp_to_server client rounds server from h sized = rw (send_frames_loop-sends client rounds h) (
    arrivals-Shows (display from) wire 16 from (serve_once-wire from) server (panels rounds) sized
      (panels-full rounds))
