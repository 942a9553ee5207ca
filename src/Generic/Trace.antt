-- ===== src/Generic/Trace.antt =====
-- The datagrams of the older client, and what the server makes of them.
use udproxy.Base.{
  ℕ, ◌+◌, ◌*◌, ◌%◌, ◌≤◌, ◌≡◌, ◌∙◌, ap, refl, arith, Bool, true, false, ◌&&◌, Option, none, some,
  List, [], ◌∷◌, ◌++◌, All, length, take, take_all, Option-cases, inl, inr, if◌then◌else◌, ◌==◌,
  leb,
}
use udproxy.Base.Bytes.{from_le}
use udproxy.Client.{Output, sent, note, goes_on, state_of, out_of, loop, datagrams, precise_delay}
use udproxy.Client.Laws.{datagrams-append, follow-out}
use udproxy.Display as Display
use udproxy.Server.{Server, buffer_size, handle_udp_clients}
use udproxy.Server.Accept.{is_frame, frames, fails, handle_udp_clients-frames}
use udproxy.Server.Arrivals.{arrivals}
use udproxy.Generic.{
  frames_per_second, usec_per_frame, Source, kmem, kvm, Answer, read_panel_from_kmem,
  read_panel_from_kvm, read_panel, Sender, Round, send_round, send_frames,
}

-- The panel that a read delivers, if it is whole.
unfoldable pub readable : ℕ → Source → Answer → Option (List ℕ)
readable size source a = elim a.read [
  | none ↦ none
  | some bytes ↦
      if (elim source [ kmem ↦ a.lseek_ok | kvm k ↦ k.kd ]) && length bytes == size
      then some bytes
      else none
]

unfoldable pub sendable : ℕ → Source → Round → Option (List ℕ)
unfolding readable
sendable size source r = elim (readable size source r.answer) [
  | none ↦ none
  | some p ↦ if r.send_ok then some p else none
]

-- The panels of the rounds before the first failure.
unfoldable pub panels : ℕ → Source → List Round → List (List ℕ)
unfolding sendable
panels size source [] = []
panels size source (r ∷ rs) =
    let rest = panels size source rs in
    elim (sendable size source r) [ none ↦ [] | some p ↦ p ∷ rest ]

-- The number of panels whose first two bytes are the number of the others behind six.
unfoldable pub headed : ℕ → List (List ℕ) → ℕ
headed size [] = 0
headed size (p ∷ ps) = (if size == 6 + from_le (take 2 p) then 1 else 0) + headed size ps

abbrev is_some {ℓ} : {A : Type ℓ} → Option A → Bool
is_some none = false
is_some (some _) = true

abbrev round_sends : Option (List ℕ) → List (List ℕ)
round_sends none = []
round_sends (some p) = p ∷ []

read_panel-readable :
    (size : ℕ) (fields : List ℕ → ℕ × ℕ) (source : Source) (first : Bool) (a : Answer)
    → let got = read_panel size fields source first a in
      (got.panel ≡ readable size source a) × (datagrams got.notes ≡ [])
unfolding read_panel read_panel_from_kmem read_panel_from_kvm readable datagrams
read_panel-readable size fields kmem first a = elim (Option-cases a.read) [
  | inl e ↦ ground (arith, e)
  | inr (bytes, e) ↦ ground (arith, e)
]
read_panel-readable size fields (kvm k) first a = elim (Option-cases a.read) [
  | inl e ↦ ground (arith, e)
  | inr (bytes, e) ↦ ground (arith, e)
]

-- What is printed each second.
abbrev report : (count : ℕ) → ℕ × ℕ → List Output
report count values =
    if count % (frames_per_second * 1) == 0
    then note "Sent %d panel updates (CONTENTS: ps_address=0x%lx, ps_data=0x%x)\n"
        (count ∷ values.0 ∷ values.1 % 65536 ∷ [])
      ∷ []
    else []

report-datagrams : (count : ℕ) (values : ℕ × ℕ) → datagrams (report count values) ≡ []
unfolding datagrams
report-datagrams count values = ground arith

module _ (size : ℕ) (fields : List ℕ → ℕ × ℕ) (source : Source) where
  send_round-sends :
      (s : Sender) (r : Round)
      → let step = send_round size fields source s r in
        (goes_on step ≡ is_some (sendable size source r))
        × (datagrams (out_of step) ≡ round_sends (sendable size source r))
  unfolding send_round sendable datagrams precise_delay
  send_round-sends s r =
      let got = read_panel size fields source s.first_read r.answer in
      elim (Option-cases (readable size source r.answer)) [
        | inl e ↦ ground (
          arith,
          e,
          read_panel-readable size fields source s.first_read r.answer,
          datagrams-append got.notes (note "Failed to read panel data from kernel\n" [] ∷ []),
        )
        | inr (p, e) ↦ ground (
          arith,
          e,
          read_panel-readable size fields source s.first_read r.answer,
          datagrams-append got.notes (note "sendto" [] ∷ []),
          datagrams-append got.notes (
              sent p
              ∷ (report (s.frame_count + 1) (fields p) ++ (precise_delay usec_per_frame ∷ []))),
          datagrams-append (report (s.frame_count + 1) (fields p))
              (precise_delay usec_per_frame ∷ []),
          report-datagrams (s.frame_count + 1) (fields p),
        )
      ]

  -- The client sends the panels of the rounds before the first failure, as they are.
  pub send_frames-panels :
      (s : Sender) (rounds : List Round)
      → datagrams (send_frames size fields source s rounds).out ≡ panels size source rounds
  unfolding send_frames loop panels datagrams
  send_frames-panels s [] = refl
  send_frames-panels s (r ∷ rs) =
      let step = send_round size fields source s r in
      let rest = λ (s' : Sender). loop (send_round size fields source) s' rs in
      ground
        (arith, send_round-sends s r, follow-out step rest, send_frames-panels (state_of step) rs)

panels-full :
    (size : ℕ) (source : Source) (rounds : List Round)
    → All (λ p. length p ≡ size) (panels size source rounds)
unfolding panels sendable readable
panels-full size source [] = tt
panels-full size source (r ∷ rs) = elim (Option-cases r.answer.read) [
  | inl e ↦ ground (arith, e)
  | inr (bytes, e) ↦ ground (arith, e, panels-full size source rs)
]

is_frame-headed :
    (size : ℕ) (p : List ℕ)
    → 6 ≤ size
    → size ≤ 1024
    → length p ≡ size
    → is_frame p ≡ (size == 6 + from_le (take 2 p))
unfolding is_frame
is_frame-headed size p large fits full =
    let whole : take buffer_size p ≡ p = take_all 1024 p (omega arith) in
    let header : leb 6 (length p) ≡ true = ground arith in rw (whole, header, full) refl

frames-headed :
    (size : ℕ) (from : Display.Sender) (ps : List (List ℕ))
    → 6 ≤ size
    → size ≤ 1024
    → All (λ p. length p ≡ size) ps
    → (frames (arrivals from ps) ≡ headed size ps) × (fails (arrivals from ps) ≡ false)
unfolding frames fails arrivals headed
frames-headed size from [] large fits full = (refl, refl)
frames-headed size from (p ∷ ps) large fits (f, fs) =
    ground (arith, is_frame-headed size p large fits f, frames-headed size from ps large fits fs)

-- For the older client, on a system with the kvm library or without, with a panel of 6 to 1024 bytes,
-- and a server with its 1024-byte buffer: if the client's datagrams arrive in order, the server keeps
-- waiting and counts, of the panels that the client read and sent, exactly those whose own first two
-- bytes are by chance the number of the others behind six, since no header is sent.
pub send_frames-headed :
    (size : ℕ) (fields : List ℕ → ℕ × ℕ) (source : Source) (client : Sender) (rounds : List Round)
    → (server : Server) (from : Display.Sender) → 6 ≤ size
    → size ≤ 1024
    → length server.buffer ≡ buffer_size
    → let o =
        handle_udp_clients server
          (arrivals from (datagrams (send_frames size fields source client rounds).out)) in
      (o.server.frame_count ≡ server.frame_count + headed size (panels size source rounds))
      × (o.ended ≡ false)
send_frames-headed size fields source client rounds server from large fits sized =
    let ps = panels size source rounds in
    let (counted, on) = frames-headed size from ps large fits (panels-full size source rounds) in
    let (frames_counted, ended, kept) = handle_udp_clients-frames server (arrivals from ps) sized in
    rw (send_frames-panels size fields source client rounds)
      (frames_counted ∙ ap (λ n. server.frame_count + n) counted, ended ∙ on)
