-- ===== src/NetBsdX64/Trace.antt =====
-- The datagrams that the client sends, and what the server makes of them.
use udproxy.Base.{
  ℕ, ◌+◌, ◌≡◌, ◌∙◌, refl, arith, Bool, true, false, Option, none, some, List, [], ◌∷◌, ◌++◌, map,
  All, length, Option-cases, inl, inr, if◌then◌else◌, ◌&&◌, ◌==◌,
}
use udproxy.Base.Bytes.{le_bytes}
use udproxy.Layout.{lp64, to_bytes}
use udproxy.Packet.{netbsdx64_shape, panel_netbsdx64, populate}
use udproxy.Packet.Fields.{sizes_netbsdx64, populate-packed, length-populate}
use udproxy.Client.{
  Output, sent, note, goes_on, state_of, out_of, loop, datagrams, precise_delay, usec_per_frame,
}
use udproxy.Client.Laws.{datagrams-append, follow-out, follow-state}
use udproxy.NetBsdX64.{
  Kvm, read_panel_from_kvm, Sender, Round, reports, send_frame, send_round, send_frames,
}

-- The panel that a read delivers, if it is whole.
unfoldable pub readable : Kvm → Option (List ℕ) → Option (List ℕ)
readable k none = none
readable k (some bytes) = if k.kd && length bytes == 208 then some bytes else none

-- The panel that a round reads and sends, if both succeed.
unfoldable pub sendable : Kvm → Round → Option (List ℕ)
unfolding readable
sendable k r = elim (readable k r.kvm_read) [
  | none ↦ none
  | some bytes ↦ if r.send_ok then some bytes else none
]

-- The panels of the rounds before the first failure.
unfoldable pub panels : Kvm → List Round → List (List ℕ)
unfolding sendable
panels k [] = []
panels k (r ∷ rs) =
    let rest = panels k rs in elim (sendable k r) [ none ↦ [] | some bytes ↦ bytes ∷ rest ]

-- The bytes of a packet: the size of the panel, the panel type, the panel.
unfoldable pub wire : List ℕ → List ℕ
unfolding le_bytes
wire panel = le_bytes 2 208 ++ (le_bytes 4 panel_netbsdx64 ++ panel)

pub populate-wire :
    (panel packet : List ℕ)
    → length panel ≡ 208
    → length packet ≡ 214
    → populate lp64 netbsdx64_shape panel_netbsdx64 panel packet ≡ wire panel
unfolding wire to_bytes
populate-wire panel packet h h' =
    populate-packed lp64 netbsdx64_shape panel_netbsdx64 panel packet
      (omega (arith, sizes_netbsdx64)) sizes_netbsdx64.1 (omega (arith, sizes_netbsdx64))
    ∙ rw sizes_netbsdx64.0

reports-datagrams : (n : ℕ) (panel : List ℕ) → datagrams (reports n panel) ≡ []
unfolding reports datagrams
reports-datagrams n panel = ground arith

read_plain :
    (k : Kvm) (first : Bool) (answer : Option (List ℕ))
    → datagrams (read_panel_from_kvm k first answer).notes ≡ []
unfolding read_panel_from_kvm datagrams
read_plain k first answer = ground arith

-- The datagrams of one round.
abbrev round_sends : Option (List ℕ) → List (List ℕ)
round_sends none = []
round_sends (some bytes) = wire bytes ∷ []

abbrev is_some {ℓ} : {A : Type ℓ} → Option A → Bool
is_some none = false
is_some (some _) = true

send_frame-out :
    (s : Sender) (first : Bool) (panel : List ℕ) (ok : Bool) (notes : List Output)
    → length panel ≡ 208
    → length s.packet ≡ 214
    → datagrams notes ≡ []
    → let r = send_frame s first panel ok notes in
      (goes_on r ≡ ok)
      × (datagrams (out_of r) ≡ (if ok then wire panel ∷ [] else []))
      × (length (state_of r).packet ≡ 214)
      × ((state_of r).frame_count ≡ s.frame_count + (if ok then 1 else 0))
unfolding send_frame datagrams
send_frame-out s first panel ok notes h h' quiet = ground (
  arith,
  populate-wire panel s.packet h h',
  length-populate lp64 netbsdx64_shape panel_netbsdx64 panel s.packet
      (omega (arith, sizes_netbsdx64)) (omega (arith, sizes_netbsdx64))
      (omega (arith, sizes_netbsdx64)),
  datagrams-append notes (note "sendto" [] ∷ []),
  datagrams-append notes (
      sent (populate lp64 netbsdx64_shape panel_netbsdx64 panel s.packet)
      ∷ (reports (s.frame_count + 1) panel ++ (precise_delay usec_per_frame ∷ []))),
  datagrams-append (reports (s.frame_count + 1) panel) (precise_delay usec_per_frame ∷ []),
  reports-datagrams (s.frame_count + 1) panel,
)

read_panel :
    (k : Kvm) (first : Bool) (answer : Option (List ℕ))
    → (read_panel_from_kvm k first answer).panel ≡ readable k answer
unfolding read_panel_from_kvm readable
read_panel k first none = ground arith
read_panel k first (some bytes) = ground (arith, sizes_netbsdx64)

readable-length :
    (k : Kvm) (answer : Option (List ℕ)) {bytes : List ℕ}
    → readable k answer ≡ some bytes
    → length bytes ≡ 208
unfolding readable
readable-length k none h = cc
readable-length k (some b) h = ground arith

send_round-out :
    (k : Kvm) (s : Sender) (r : Round)
    → length s.packet ≡ 214
    → let step = send_round k s r in
      (goes_on step ≡ is_some (sendable k r))
      × (datagrams (out_of step) ≡ round_sends (sendable k r))
      × (length (state_of step).packet ≡ 214)
      × ((state_of step).frame_count ≡ s.frame_count + length (round_sends (sendable k r)))
unfolding send_round sendable datagrams
send_round-out k s r h = elim (Option-cases (readable k r.kvm_read)) [
  | inl e ↦ ground (
    arith,
    e,
    read_panel k s.first_read r.kvm_read,
    read_plain k s.first_read r.kvm_read,
    datagrams-append (read_panel_from_kvm k s.first_read r.kvm_read).notes
        (note "Failed to read panel data from kernel\n" [] ∷ []),
  )
  | inr (bytes, e) ↦ ground (
    arith,
    e,
    read_panel k s.first_read r.kvm_read,
    read_plain k s.first_read r.kvm_read,
    send_frame-out s (read_panel_from_kvm k s.first_read r.kvm_read).first_read bytes r.send_ok
        (read_panel_from_kvm k s.first_read r.kvm_read).notes (readable-length k r.kvm_read e) h
        (read_plain k s.first_read r.kvm_read),
  )
]

-- With a packet variable of the right size, and whatever the kvm library and the socket answer: the
-- client sends the panels of the rounds before the first failure, each as a header with the panel's
-- size and type and then the panel, and its frame count grows by their number.
pub send_frames-sends :
    (k : Kvm) (s : Sender) (rounds : List Round)
    → length s.packet ≡ 214
    → let result = send_frames k s rounds in
      (datagrams result.out ≡ map wire (panels k rounds))
      × (result.state.frame_count ≡ s.frame_count + length (panels k rounds))
unfolding send_frames loop panels datagrams
send_frames-sends k s [] h = (refl, omega arith)
send_frames-sends k s (r ∷ rs) h =
    let step = send_round k s r in
    let rest = λ (s' : Sender). loop (send_round k) s' rs in
    ground (
      arith,
      send_round-out k s r h,
      follow-out step rest,
      follow-state step rest,
      send_frames-sends k (state_of step) rs,
    )

pub panels-full : (k : Kvm) (rounds : List Round) → All (λ p. length p ≡ 208) (panels k rounds)
unfolding panels sendable readable
panels-full k [] = tt
panels-full k (r ∷ rs) = ground (arith, panels-full k rs)
