-- ===== src/Proxy/Accept.antt =====
-- Which packets a module of the proxy takes.
use udproxy.Base.{
  ℕ, ◌+◌, ◌<◌, ◌≤◌, ◌≡◌, ◌↔◌, ◌∙◌, sym, refl, arith, true, List, [], ◌∷◌, ◌++◌, length,
  length-append, take_all,
}
use udproxy.Base.Bytes.{window, le_bytes, from_le, length-le_bytes}
use udproxy.Layout.{CType, u16, load, from_bytes, struct_size}
use udproxy.Packet.{header_size}
use udproxy.PanelState.{host}
use udproxy.Proxy.{panel_state, get_panel_state}

header_is_six : header_size host ≡ 6
unfolding header_size
header_is_six = refl

-- A packet is taken exactly if its count is the size of the panel's struct and as many bytes are there
-- behind the header; the panel is then those bytes. Bytes behind the panel do not matter, and neither
-- does the panel type.
pub get_panel_state_iff :
    (members : List CType) (packet state : List ℕ)
    → (get_panel_state members packet ≡ panel_state state) ↔ (
        (load host u16 packet 0 ≡ struct_size host true members)
        × (6 + struct_size host true members ≤ length packet)
        × (window packet 6 (struct_size host true members) ≡ state))
unfolding get_panel_state
get_panel_state_iff members packet state =
    (λ h. ground (arith, header_is_six), λ (count, enough, bytes). ground (arith, header_is_six))

load_sent : (n : ℕ) (rest : List ℕ) → n < 65536 → load host u16 (le_bytes 2 n ++ rest) 0 ≡ n
unfolding load window le_bytes from_bytes from_le
load_sent n rest small = omega arith

window_sent :
    (n a b c d : ℕ) (panel : List ℕ)
    → length panel ≡ n
    → window (le_bytes 2 n ++ ((a ∷ b ∷ c ∷ d ∷ []) ++ panel)) 6 n ≡ panel
unfolding window le_bytes
window_sent n a b c d panel full = take_all n panel (omega arith)

-- A header with the panel's size, any panel type, and the panel.
pub get_panel_state-sent :
    (members : List CType) (n a b c d : ℕ) (panel : List ℕ)
    → struct_size host true members ≡ n
    → n < 65536
    → length panel ≡ n
    → get_panel_state members (le_bytes 2 n ++ ((a ∷ b ∷ c ∷ d ∷ []) ++ panel)) ≡ panel_state panel
get_panel_state-sent members n a b c d panel e small full =
    let rest = (a ∷ b ∷ c ∷ d ∷ []) ++ panel in
    let packet = le_bytes 2 n ++ rest in
    let count : load host u16 packet 0 ≡ struct_size host true members =
      load_sent n rest small ∙ sym e in
    let room : 6 + struct_size host true members ≤ length packet =
      omega (arith, length-append (le_bytes 2 n) rest, length-le_bytes 2 n) in
    (get_panel_state_iff members packet panel).1
      (count, room, rw e (window_sent n a b c d panel full))
