-- ===== src/Examples.antt =====
-- Runs of the programs at concrete inputs, through the theorems about them.
pub mod Clients
pub mod Kernel
pub mod Waiters
pub mod Web
pub mod Browsers
pub mod Programs
use udproxy.Base.{
  ℕ, ◌+◌, ◌/◌, ◌^◌, ◌≡◌, refl, arith, true, false, none, some, List, [], ◌∷◌, ◌++◌, length,
  replicate, take,
}
use udproxy.Base.Bytes.{put, window, from_le}
use udproxy.Base.Text.{c_string}
use udproxy.Layout.{lp64, pdp11, vax, to_bytes, from_bytes}
use udproxy.Packet.{
  linuxx64_shape, macos_shape, pdp_shape, netbsdx64_shape, vax_shape, panel_linuxx64, panel_macos,
  panel_pdp1170, panel_netbsdx64, panel_vax, populate,
}
use udproxy.PanelState.{PtRegs, read_clockframe, read_vax_panel}
use udproxy.Display.{
  Sender, mismatch, unknown, type_tag, display_netbsdx64_panel, display_vax_panel, format_binary,
  format_binary64,
}
use udproxy.Display.Binary.{Formats, format_binary-Formats, format_binary64-Formats}
use udproxy.Client.{datagrams}
use udproxy.Server.{
  Server, Recv, failed, datagram, next, buffer_size, count_frame, process, serve_once,
  handle_udp_clients,
}
use udproxy.Server.Accept.{frames, fails, handle_udp_clients-frames}
use udproxy.Server.Progress.{progress, handle_udp_clients-progress}
use udproxy.Server.Delivered.{serve_once-netbsdx64, serve_once-vax}
use udproxy.Server.Rejected.{serve_once-linuxx64, serve_once-macos, serve_once-pdp}
use udproxy.Server.Stale.{serve_once-header_only}
use udproxy.NetBsdX64
use udproxy.NetBsdX64.{Kvm, send_frames}
use udproxy.NetBsdX64.Trace.{panels, wire, send_frames-sends}
use udproxy.NetBsdX64.EndToEnd.{display, client_to_server}
use udproxy.Server.Arrivals.{shown, arrivals}
use udproxy.Scan.{scan_ulong, print_hex}
use udproxy.Scan.Hex.{stops, scan_ulong-print_hex}
use udproxy.LinuxX64.Kprobe.{KernelRegs, register_values, proc_read}
use udproxy.LinuxX64.Client.{capture_cpu_state}
use udproxy.LinuxX64.RoundTrip.{delivered_bytes, run_probe, last_hit, expected, kprobe_to_client}
use udproxy.Layout.Laws.{from_bytes-to_bytes}

abbrev someone : Sender
someone = record { addr = 3232235777; port = 5000 }

-- A server one frame before a progress line.
abbrev server_29 : Server
server_29 = record { buffer = replicate 1024 0; frame_count = 29 }

abbrev kvm : Kvm
kvm = record { kd = true; n_value = 4096 }

abbrev netbsd_client : NetBsdX64.Sender
netbsd_client = record { packet = replicate 214 1; frame_count = 0; first_read = true }

-- Two panels, a failed read, and a panel that is never read.
abbrev netbsd_rounds : List NetBsdX64.Round
netbsd_rounds =
    record { kvm_read = some (replicate 208 7); send_ok = true }
    ∷ record { kvm_read = some (replicate 208 8); send_ok = true }
    ∷ record { kvm_read = none; send_ok = true }
    ∷ record { kvm_read = some (replicate 208 9); send_ok = true }
    ∷ []

client_to_server_example :
    let o =
      handle_udp_clients server_29
        (arrivals someone (datagrams (send_frames kvm netbsd_client netbsd_rounds).out)) in
    (o.lines ≡ shown display 29 (panels kvm netbsd_rounds))
    × (o.server.frame_count ≡ 29 + length (panels kvm netbsd_rounds))
    × (o.ended ≡ false)
client_to_server_example =
    client_to_server kvm netbsd_client netbsd_rounds server_29 someone refl refl

-- An interruption, a frame, a short packet, an error, and a frame that is not received.
abbrev events : List Recv
events =
    failed 4
    ∷ datagram (2 ∷ 0 ∷ 4 ∷ 0 ∷ 0 ∷ 0 ∷ 1 ∷ 2 ∷ []) someone
    ∷ datagram (1 ∷ 0 ∷ 4 ∷ []) someone
    ∷ failed 9
    ∷ datagram (0 ∷ 0 ∷ 4 ∷ 0 ∷ 0 ∷ 0 ∷ []) someone
    ∷ []

handle_udp_clients-frames_example :
    let o = handle_udp_clients server_29 events in
    (o.server.frame_count ≡ 30) × (o.ended ≡ true) × (length o.server.buffer ≡ buffer_size)
unfolding frames fails from_le
handle_udp_clients-frames_example = handle_udp_clients-frames server_29 events refl

handle_udp_clients-progress_example :
    progress (handle_udp_clients server_29 events).lines + 29 / 30
    ≡ (handle_udp_clients server_29 events).server.frame_count / 30
handle_udp_clients-progress_example = handle_udp_clients-progress server_29 events

serve_once-linuxx64_example :
    let dgram = populate lp64 linuxx64_shape panel_linuxx64 (replicate 168 5) (replicate 176 1) in
    serve_once server_29 (datagram dgram someone)
    ≡ next
        (record server_29 { buffer = put server_29.buffer 0 (take buffer_size dgram) })
        (mismatch 176 174 someone ∷ [])
serve_once-linuxx64_example =
    serve_once-linuxx64 (replicate 168 5) (replicate 176 1) server_29 someone refl refl refl

-- A VAX header without its panel.
abbrev vax_header : List ℕ
vax_header = 0 ∷ 0 ∷ 2 ∷ 0 ∷ 0 ∷ 0 ∷ []

serve_once-header_only_example :
    serve_once server_29 (datagram vax_header someone)
    ≡ count_frame
        (put server_29.buffer 0 (take buffer_size vax_header))
        29
        (process server_29.buffer (from_le (window vax_header 2 4)) 0 someone)
unfolding from_le window
serve_once-header_only_example = serve_once-header_only server_29 vax_header refl refl someone refl

scan_ulong-print_hex_example :
    scan_ulong 16 (2 ^ 64) (print_hex 48879 ++ (32 ∷ 82 ∷ [])) ≡ some (48879, 32 ∷ 82 ∷ [])
unfolding stops
scan_ulong-print_hex_example = scan_ulong-print_hex 48879 (32 ∷ 82 ∷ []) (omega arith) refl

from_bytes-to_bytes_example : from_bytes pdp11 (to_bytes pdp11 4 1) ≡ 1
from_bytes-to_bytes_example = from_bytes-to_bytes pdp11 4 1 (omega arith)

abbrev regs_of : ℕ → KernelRegs
regs_of n = record {
  ip = n;
  sp = 18446744073709551615;
  bp = n;
  ax = 0;
  bx = n;
  cx = n;
  dx = n;
  si = n;
  di = n;
  r8 = n;
  r9 = n;
  r10 = n;
  r11 = n;
  r12 = n;
  r13 = n;
  r14 = n;
  r15 = n;
  flags = 582;
  cs = 16;
  ss = 24;
  orig_ax = n;
}

abbrev zero_regs : PtRegs
zero_regs = record {
  r15 = 0;
  r14 = 0;
  r13 = 0;
  r12 = 0;
  rbp = 0;
  rbx = 0;
  r11 = 0;
  r10 = 0;
  r9 = 0;
  r8 = 0;
  rax = 0;
  rcx = 0;
  rdx = 0;
  rsi = 0;
  rdi = 0;
  orig_rax = 0;
  rip = 0;
  cs = 0;
  eflags = 0;
  rsp = 0;
  ss = 0;
}

-- Hits on CPU 0, on CPU 1, on CPU 0 and on CPU 3.
abbrev hits : List (ℕ × KernelRegs)
hits = (0, regs_of 1) ∷ (1, regs_of 2) ∷ (0, regs_of 3) ∷ (3, regs_of 4) ∷ []

kprobe_to_client_example :
    capture_cpu_state zero_regs (
      some (
        delivered_bytes (
          proc_read
            (run_probe (record { captured_regs = regs_of 0; regs_valid = false }) hits)
            4096
            0
            true)))
    ≡ expected zero_regs (some (regs_of 3))
unfolding last_hit register_values
kprobe_to_client_example =
    kprobe_to_client (regs_of 0) hits 4096 zero_regs (omega arith) (omega arith)
