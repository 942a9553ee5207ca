-- ===== src/Packet/Fields.antt =====
-- What a populated packet holds, field by field.
use mathlib.Core.Path.{ap₂}
use udproxy.Base.{
  ℕ, ◌+◌, ◌≤◌, ◌≡◌, ◌∙◌, ap, sym, refl, arith, List, ◌++◌, length, take, drop, take-append-drop,
  drop-drop, take_all, length-drop,
}
use udproxy.Base.Bytes.{put, window, length-put, window-put_self, window-put_before}
use udproxy.Layout.{Abi, lp64, pdp11, vax, to_bytes}
use udproxy.Layout.Laws.{length-to_bytes}
use udproxy.Packet.{
  Shape, pdp_shape, vax_shape, netbsdx64_shape, macos_shape, linuxx64_shape, flags_offset,
  state_size, state_offset, packet_size, populate,
}

-- State size, state offset and packet size of each client's packet on its own machine.
abbrev Sizes : Abi → Shape → ℕ → ℕ → ℕ → Type 0
Sizes a s n off total = (state_size a s ≡ n) × (state_offset a s ≡ off) × (packet_size a s ≡ total)

pub sizes_pdp :
    (state_size pdp11 pdp_shape ≡ 16)
    × (state_offset pdp11 pdp_shape ≡ 6)
    × (packet_size pdp11 pdp_shape ≡ 22)
unfolding packet_size
sizes_pdp = (refl, refl, refl)

pub sizes_vax :
    (state_size vax vax_shape ≡ 8)
    × (state_offset vax vax_shape ≡ 6)
    × (packet_size vax vax_shape ≡ 14)
unfolding packet_size
sizes_vax = (refl, refl, refl)

pub sizes_netbsdx64 :
    (state_size lp64 netbsdx64_shape ≡ 208)
    × (state_offset lp64 netbsdx64_shape ≡ 6)
    × (packet_size lp64 netbsdx64_shape ≡ 214)
unfolding packet_size
sizes_netbsdx64 = (refl, refl, refl)

pub sizes_macos :
    (state_size lp64 macos_shape ≡ 72)
    × (state_offset lp64 macos_shape ≡ 8)
    × (packet_size lp64 macos_shape ≡ 80)
unfolding packet_size
sizes_macos = (refl, refl, refl)

pub sizes_linuxx64 :
    (state_size lp64 linuxx64_shape ≡ 168)
    × (state_offset lp64 linuxx64_shape ≡ 8)
    × (packet_size lp64 linuxx64_shape ≡ 176)
unfolding packet_size
sizes_linuxx64 = (refl, refl, refl)

flags_offset_lem : (a : Abi) → flags_offset a ≡ 2
unfolding flags_offset
flags_offset_lem a = refl

module _ (a : Abi) (s : Shape) (flags : ℕ) (state packet : List ℕ)
    (full : length state ≡ state_size a s) (behind : 6 ≤ state_offset a s)
    (room : state_offset a s + state_size a s ≤ length packet) where
  abbrev counted : List ℕ
  counted = put packet 0 (to_bytes a 2 (state_size a s))

  abbrev flagged : List ℕ
  flagged = put counted (flags_offset a) (to_bytes a 4 flags)

  length-counted : length counted ≡ length packet
  length-counted =
      length-put packet 0 (to_bytes a 2 (state_size a s))
        (omega (arith, length-to_bytes a 2 (state_size a s)))

  length-flagged : length flagged ≡ length packet
  length-flagged =
      length-put counted (flags_offset a) (to_bytes a 4 flags)
        (omega (arith, length-to_bytes a 4 flags, flags_offset_lem a, length-counted))
      ∙ length-counted

  pub length-populate : length (populate a s flags state packet) ≡ length packet
  unfolding populate
  length-populate =
      length-put flagged (state_offset a s) state (omega (arith, length-flagged)) ∙ length-flagged

  pub populate-count : window (populate a s flags state packet) 0 2 ≡ to_bytes a 2 (state_size a s)
  unfolding populate
  populate-count =
      window-put_before flagged (state_offset a s) state (omega (arith, length-flagged)) 0 2
        (omega arith)
      ∙ window-put_before counted (flags_offset a) (to_bytes a 4 flags)
          (omega (arith, length-to_bytes a 4 flags, flags_offset_lem a, length-counted)) 0 2
          (omega (arith, flags_offset_lem a))
      ∙ window-put_self packet 0 (to_bytes a 2 (state_size a s))
          (omega (arith, length-to_bytes a 2 (state_size a s))) 2
          (omega (arith, length-to_bytes a 2 (state_size a s)))

  pub populate-flags : window (populate a s flags state packet) 2 4 ≡ to_bytes a 4 flags
  unfolding populate
  populate-flags =
      window-put_before flagged (state_offset a s) state (omega (arith, length-flagged)) 2 4
        (omega arith)
      ∙ ap (λ (o : ℕ). window flagged o 4) (omega (arith, flags_offset_lem a))
      ∙ window-put_self counted (flags_offset a) (to_bytes a 4 flags)
          (omega (arith, length-to_bytes a 4 flags, flags_offset_lem a, length-counted)) 4
          (omega (arith, length-to_bytes a 4 flags))

  pub populate-state :
      window (populate a s flags state packet) (state_offset a s) (state_size a s) ≡ state
  unfolding populate
  populate-state =
      window-put_self flagged (state_offset a s) state (omega (arith, length-flagged))
        (state_size a s) (omega arith)

-- A packet without padding is its three fields, one behind the other.
fields_apart :
    (p : List ℕ) (n : ℕ) → length p ≡ 6 + n → p ≡ window p 0 2 ++ (window p 2 4 ++ window p 6 n)
unfolding window
fields_apart p n h =
    sym (take-append-drop 2 p)
    ∙ ap (λ (t : List ℕ). take 2 p ++ t)
        (sym (take-append-drop 4 (drop 2 p))
          ∙ ap (λ (t : List ℕ). take 4 (drop 2 p) ++ t)
              (drop-drop 4 2 6 p refl
                ∙ sym (take_all n (drop 6 p) (omega (arith, length-drop 6 p)))))

module _ (a : Abi) (s : Shape) (flags : ℕ) (state packet : List ℕ)
    (full : length state ≡ state_size a s) (next_to : state_offset a s ≡ 6)
    (whole : length packet ≡ 6 + state_size a s) where
  pub populate-packed :
      populate a s flags state packet
      ≡ to_bytes a 2 (state_size a s) ++ (to_bytes a 4 flags ++ state)
  populate-packed =
      let behind : 6 ≤ state_offset a s = omega arith in
      let room : state_offset a s + state_size a s ≤ length packet = omega arith in
      fields_apart (populate a s flags state packet) (state_size a s)
        (length-populate a s flags state packet full behind room ∙ whole)
      ∙ ap₂ (λ front back. front ++ back) (populate-count a s flags state packet full behind room)
          (ap₂ (λ front back. front ++ back)
            (populate-flags a s flags state packet full behind room)
            (rw next_to at (populate-state a s flags state packet full behind room)))
