-- ===== src/Server/Arrivals.antt =====
-- Datagrams of one client that arrive in order.
use udproxy.Base.{
  ℕ, ◌+◌, ◌%◌, ◌≡◌, ap, refl, arith, List, [], ◌∷◌, ◌++◌, map, All, length, take, if◌then◌else◌,
  ◌==◌, false,
}
use udproxy.Base.Bytes.{put}
use udproxy.Display.{Sender, Line, received}
use udproxy.Server.{
  Server, Recv, datagram, next, Outcome, buffer_size, serve_once, handle_udp_clients,
}
use udproxy.Server.Received.{length-after}

-- What the server prints for a panel that arrives when `n` frames have been counted, and for several.
unfoldable pub shown_panel : (List ℕ → List Line) → ℕ → List ℕ → List Line
shown_panel display n p = display p ++ (if (n + 1) % 30 == 0 then received (n + 1) ∷ [] else [])

unfoldable pub shown : (List ℕ → List Line) → ℕ → List (List ℕ) → List Line
unfolding shown_panel
shown display n [] = []
shown display n (p ∷ ps) = shown_panel display n p ++ shown display (n + 1) ps

-- The datagrams arrive one by one, in order.
unfoldable pub arrivals : Sender → List (List ℕ) → List Recv
arrivals from [] = []
arrivals from (d ∷ ds) = datagram d from ∷ arrivals from ds

-- The server shows each panel as it arrives, and counts it.
abbrev pub Shows : (List ℕ → List Line) → Server → List (List ℕ) → Outcome → Type 0
Shows display server ps o =
    (o.lines ≡ shown display server.frame_count ps)
    × (o.server.frame_count ≡ server.frame_count + length ps)
    × (o.ended ≡ false)

-- The server behind a datagram that it counted.
abbrev pub counted : Server → List ℕ → Server
counted server d = record {
  buffer = put server.buffer 0 (take buffer_size d);
  frame_count = server.frame_count + 1;
}

-- If each panel of a size is shown and counted, any number of them is.
pub arrivals-Shows :
    (display : List ℕ → List Line) (wire : List ℕ → List ℕ) (size : ℕ) (from : Sender)
    → ((server : Server) (p : List ℕ)
        → length p ≡ size
        → length server.buffer ≡ buffer_size
        → serve_once server (datagram (wire p) from)
          ≡ next (counted server (wire p)) (shown_panel display server.frame_count p))
    → (server : Server) (ps : List (List ℕ)) → length server.buffer ≡ buffer_size
    → All (λ p. length p ≡ size) ps
    → Shows display server ps (handle_udp_clients server (arrivals from (map wire ps)))
unfolding handle_udp_clients arrivals shown
arrivals-Shows display wire size from each server [] sized full = (refl, omega arith, refl)
arrivals-Shows display wire size from each server (p ∷ ps) sized (h, full) =
    let (lines, count, ended) =
      arrivals-Shows display wire size from each (counted server (wire p)) ps
        (length-after server.buffer (wire p) sized) full in
    rw (each server p h sized)
      (ap (λ ls. shown_panel display server.frame_count p ++ ls) lines, omega arith, ended)
