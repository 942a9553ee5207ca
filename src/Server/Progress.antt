-- ===== src/Server/Progress.antt =====
-- The progress lines of the receive loop.
use udproxy.Base.{
  ℕ, suc, ◌+◌, ◌/◌, ◌%◌, ◌≡◌, refl, arith, false, List, [], ◌∷◌, ◌++◌, length, take, ◌==◌, ◌<◌,
  Bool-cases, ==_iff, inl, inr,
}
use udproxy.Base.Bytes.{put}
use udproxy.Layout.{load, u16, u32}
use udproxy.Packet.{flags_offset}
use udproxy.PanelState.{host, PdpPanelState, VaxPanelState, Clockframe, PtRegs, MacosPanelState}
use udproxy.Display.{
  Sender, Line, received, total, display_pdp_panel, display_vax_panel, display_netbsdx64_panel,
  display_macos_panel, display_linuxx64_panel,
}
use udproxy.Server.{
  Server, Recv, failed, datagram, Round, next, break, buffer_size, process, count_frame,
  check_packet, serve_once, Outcome, and_then, handle_udp_clients,
}

-- The number of lines "--- Received %d frames ---".
unfoldable pub progress : List Line → ℕ
progress [] = 0
progress (received n ∷ ls) = suc (progress ls)
progress (_ ∷ ls) = progress ls

progress-append : (ks ls : List Line) → progress (ks ++ ls) ≡ progress ks + progress ls
unfolding progress
progress-append [] ls = omega arith
progress-append (received n ∷ ks) ls = omega (arith, progress-append ks ls)
progress-append (_ ∷ ks) ls = progress-append ks ls

pdp_quiet : (p : PdpPanelState) → progress (display_pdp_panel p) ≡ 0
unfolding progress display_pdp_panel
pdp_quiet p = refl

vax_quiet : (p : VaxPanelState) → progress (display_vax_panel p) ≡ 0
unfolding progress display_vax_panel
vax_quiet p = refl

netbsdx64_quiet : (p : Clockframe) → progress (display_netbsdx64_panel p) ≡ 0
unfolding progress display_netbsdx64_panel
netbsdx64_quiet p = refl

macos_quiet : (p : MacosPanelState) → progress (display_macos_panel p) ≡ 0
unfolding progress display_macos_panel
macos_quiet p = refl

linuxx64_quiet : (p : PtRegs) → progress (display_linuxx64_panel p) ≡ 0
unfolding progress display_linuxx64_panel
linuxx64_quiet p = refl

process_quiet :
    (buffer : List ℕ) (flags count : ℕ) (sender : Sender)
    → progress (process buffer flags count sender) ≡ 0
unfolding progress process
process_quiet buffer flags count sender =
    grind (arith, pdp_quiet, vax_quiet, netbsdx64_quiet, macos_quiet, linuxx64_quiet)

-- In a round the lines keep step with the count.
InStep : ℕ → Round → Type 0
InStep n (next s ls) = progress ls + n / 30 ≡ s.frame_count / 30
InStep n (break s ls) = progress ls + n / 30 ≡ s.frame_count / 30

not_zero : (m : ℕ) → (m == 0) ≡ false → 0 < m
not_zero m e = ground arith

count_frame-InStep :
    (buffer : List ℕ) (n : ℕ) (ls : List Line)
    → progress ls ≡ 0
    → InStep n (count_frame buffer n ls)
unfolding InStep count_frame progress
count_frame-InStep buffer n ls quiet = elim (Bool-cases ((n + 1) % 30 == 0)) [
  | inl e ↦ rw e (omega (arith, progress-append ls (received (n + 1) ∷ []), (==_iff _ 0).0 e))
  | inr e ↦ rw e (omega (arith, progress-append ls [], not_zero _ e))
]

check_packet-InStep :
    (buffer : List ℕ) (n got : ℕ) (sender : Sender) → InStep n (check_packet buffer n got sender)
unfolding InStep check_packet progress
check_packet-InStep buffer n got sender = ground (
  arith,
  process_quiet buffer (load host u32 buffer (flags_offset host)) (load host u16 buffer 0) sender,
  count_frame-InStep buffer n
      (process buffer (load host u32 buffer (flags_offset host)) (load host u16 buffer 0) sender),
)

serve_once-InStep : (s : Server) (e : Recv) → InStep s.frame_count (serve_once s e)
serve_once-InStep s (failed errno) = unfold serve_once InStep progress in ground arith
serve_once-InStep s (datagram bytes sender) =
    unfold serve_once in
    check_packet-InStep (put s.buffer 0 (take buffer_size bytes)) s.frame_count
      (length (take buffer_size bytes)) sender

Kept : ℕ → Outcome → Type 0
Kept n o = progress o.lines + n / 30 ≡ o.server.frame_count / 30

and_then-Kept :
    (n : ℕ) (r : Round) (k : Server → Outcome)
    → InStep n r
    → ((s : Server) → Kept s.frame_count (k s))
    → Kept n (and_then r k)
unfolding InStep Kept progress
and_then-Kept n (next s ls) k h rest = omega (arith, progress-append ls (k s).lines, rest s)
and_then-Kept n (break s ls) k h rest = omega (arith, progress-append ls (total s.frame_count ∷ []))

loop-Kept : (es : List Recv) (s : Server) → Kept s.frame_count (handle_udp_clients s es)
unfolding handle_udp_clients
loop-Kept [] s = unfold Kept progress in omega arith
loop-Kept (e ∷ es) s =
    and_then-Kept s.frame_count (serve_once s e) (λ s'. handle_udp_clients s' es)
      (serve_once-InStep s e) (λ s'. loop-Kept es s')

-- For every sequence of events, the number of progress lines that the loop prints is the number of
-- multiples of 30 that the frame count passes.
pub handle_udp_clients-progress :
    (s : Server) (es : List Recv)
    → progress (handle_udp_clients s es).lines + s.frame_count / 30
      ≡ (handle_udp_clients s es).server.frame_count / 30
unfolding Kept
handle_udp_clients-progress s es = loop-Kept es s
