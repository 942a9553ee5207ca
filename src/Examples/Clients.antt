-- ===== src/Examples/Clients.antt =====
-- Runs of the other clients, and of the programs' starts and ends, through the theorems about them.
use udproxy.Base.{
  ℕ, ◌+◌, ◌^◌, ◌≤◌, ◌≡◌, refl, arith, true, false, Option, none, some, List, [], ◌∷◌, length,
  replicate, map,
}
use udproxy.Base.Text.{codes}
use udproxy.Display.{Sender}
use udproxy.Client.{datagrams}
use udproxy.Server.{Server, handle_udp_clients}
use udproxy.Server.Arrivals.{shown, arrivals}
use udproxy.Server.Main as ServerMain
use udproxy.Server.Main.{main-leaks_server}
use udproxy.Startup.{socket}
use udproxy.Startup.Held.{same, leaks}
use udproxy.Symbols.{find_panel}
use udproxy.Symbols.Lookup.{Symbol, nm_line, first_panel, find_panel-first}
use udproxy.Scan.{starts_with_digit, is_space, print_hex, print_hex_loop}
use udproxy.NetBsdVax
use udproxy.NetBsdVax.{
  Notifier, Kevent, interrupted, event, nothing, evfilt_signal, setup_panel_notification,
  send_frames_with_notification,
}
use udproxy.NetBsdVax.Notices as VaxNotices
use udproxy.NetBsdVax.EndToEnd as VaxEnd
use udproxy.NetBsdVax.EndToEnd.{notice_to_server}
use udproxy.NetBsdVax.Main.{setup_panel_notification-exits}
use udproxy.Pdp
use udproxy.Pdp.{send_frames_loop}
use udproxy.Pdp.Trace as PdpTrace
use udproxy.Pdp.Trace.{pdp_to_server}
use udproxy.Generic
use udproxy.Generic.Trace as GenericTrace
use udproxy.Generic.Trace.{send_frames-headed}
use udproxy.Macos.{Ticks, cpu_usage}
use udproxy.Macos.Stats.{later, cpu_usage-percent}

abbrev sender : Sender
sender = record { addr = 3232235777; port = 5000 }

abbrev fresh_server : Server
fresh_server = record { buffer = replicate 1024 0; frame_count = 0 }

abbrev notifier : Notifier
notifier = record { kq = true; notification_available = true }

abbrev vax_client : NetBsdVax.Sender
vax_client = record { packet = replicate 14 9; frame_count = 0 }

abbrev vax_round : Kevent → ℕ → Option ℕ → NetBsdVax.Round
vax_round e b errno = record {
  kevent = e;
  raw_data = replicate 128 0;
  memory = record { lseek_ok = true; read = some (replicate 128 b) };
  errno = errno;
}

-- SIGUSR1, a wake-up without an event, an interruption whose send would block, and SIGUSR1.
abbrev vax_rounds : List NetBsdVax.Round
vax_rounds =
    vax_round (event evfilt_signal 30) 1 none
    ∷ vax_round nothing 2 none
    ∷ vax_round interrupted 3 (some 35)
    ∷ vax_round (event evfilt_signal 30) 4 none
    ∷ []

notice_to_server_example :
    let o = handle_udp_clients fresh_server (
      arrivals sender
        (datagrams (send_frames_with_notification notifier vax_client vax_rounds).out)) in
    (o.lines ≡ shown VaxEnd.display 0 (VaxNotices.panels notifier vax_rounds))
    × (o.server.frame_count ≡ 0 + length (VaxNotices.panels notifier vax_rounds))
    × (o.ended ≡ false)
notice_to_server_example =
    notice_to_server notifier vax_client vax_rounds fresh_server sender refl (omega arith) refl

setup_panel_notification-exits_example :
    let n = (setup_panel_notification true false).0 in
    let result = send_frames_with_notification n vax_client vax_rounds in
    (result.exited ≡ true) × (datagrams result.out ≡ [])
setup_panel_notification-exits_example =
    setup_panel_notification-exits true false vax_client (vax_round (event evfilt_signal 30) 1 none)
      (vax_round nothing 2 none
        ∷ vax_round interrupted 3 (some 35)
        ∷ vax_round (event evfilt_signal 30) 4 none
        ∷ [])
      refl

abbrev pdp_client : Pdp.Sender
pdp_client = record {
  reader = record { panel = replicate 16 0; read_count = 0 };
  packet = replicate 22 0;
  frame_count = 0;
}

abbrev pdp_rounds : List Pdp.Round
pdp_rounds =
    record { memory = record { lseek_ok = true; read = some (replicate 16 5) }; errno = none }
    ∷ record { memory = record { lseek_ok = true; read = some (replicate 3 5) }; errno = none }
    ∷ []

pdp_to_server_example :
    let o =
      handle_udp_clients fresh_server
        (arrivals sender (datagrams (send_frames_loop pdp_client pdp_rounds).out)) in
    (o.lines ≡ shown (PdpTrace.display sender) 0 (PdpTrace.panels pdp_rounds))
    × (o.server.frame_count ≡ 0 + length (PdpTrace.panels pdp_rounds))
    × (o.ended ≡ false)
pdp_to_server_example = pdp_to_server pdp_client pdp_rounds fresh_server sender (refl, refl) refl

abbrev symbols : List Symbol
symbols =
    record { value = 2147500000; type = 84; name = codes "panel_init" }
    ∷ record { value = 2147600000; type = 68; name = codes "_panel" }
    ∷ []

find_panel-first_example : find_panel (2 ^ 32) (map nm_line symbols) ≡ first_panel symbols
unfolding print_hex starts_with_digit is_space print_hex_loop nm_line
find_panel-first_example = find_panel-first (2 ^ 32) symbols (omega arith) (
  record {
    fits = omega arith;
    high = refl;
    letter = refl;
    nonempty = λ e. cc;
    word = (refl, (refl, (refl, (refl, (refl, (refl, (refl, (refl, (refl, (refl, tt))))))))));
    whole = omega arith;
  },
  (
    record {
      fits = omega arith;
      high = refl;
      letter = refl;
      nonempty = λ e. cc;
      word = (refl, (refl, (refl, (refl, (refl, (refl, tt))))));
      whole = omega arith;
    },
    tt,
  ),
)

abbrev all_well : ServerMain.Binding
all_well = record { socket_ok = true; setsockopt_ok = true; bind_ok = true }

-- A signal in front of the assignment.
main-leaks_server_example : leaks socket (ServerMain.main all_well fresh_server [] (some 2)) ≡ true
unfolding same
main-leaks_server_example = main-leaks_server all_well fresh_server [] (some 2) socket

abbrev before_ticks : Ticks
before_ticks = record { user = 4294967290; system = 5; idle = 7; nice = 0 }

abbrev more_ticks : Ticks
more_ticks = record { user = 20; system = 5; idle = 75; nice = 0 }

cpu_usage-percent_example :
    (cpu_usage 0 (some before_ticks) (later before_ticks more_ticks) ≡ 25)
    × (cpu_usage 0 (some before_ticks) (later before_ticks more_ticks) ≤ 100)
cpu_usage-percent_example =
    cpu_usage-percent 0 before_ticks more_ticks (omega arith) (omega arith) (omega arith)

abbrev generic_client : Generic.Sender
generic_client = record { frame_count = 0; first_read = true }

-- A panel that looks like a header of its own, one that does not, and a short read.
abbrev generic_rounds : List Generic.Round
generic_rounds =
    record {
      answer = record { lseek_ok = true; read = some (10 ∷ replicate 15 0) };
      send_ok = true;
    }
    ∷ record { answer = record { lseek_ok = true; read = some (replicate 16 1) }; send_ok = true }
    ∷ record { answer = record { lseek_ok = true; read = some (replicate 9 1) }; send_ok = true }
    ∷ []

abbrev first_two : List ℕ → ℕ × ℕ
first_two bytes = (0, length bytes)

send_frames-headed_example :
    let o = handle_udp_clients fresh_server (
      arrivals sender (
        datagrams
          (Generic.send_frames 16 first_two Generic.kmem generic_client generic_rounds).out)) in
    (o.server.frame_count
      ≡ 0 + GenericTrace.headed 16 (GenericTrace.panels 16 Generic.kmem generic_rounds))
    × (o.ended ≡ false)
send_frames-headed_example =
    send_frames-headed 16 first_two Generic.kmem generic_client generic_rounds fresh_server sender
      (omega arith) (omega arith) refl
