-- ===== src/Examples/Browsers.antt =====
-- Panels of the clients on their way to a browser.
use udproxy.Base.{ℕ, ◌≡◌, sym, refl, arith, true, none, some, List, [], ◌∷◌, ◌++◌, map, replicate}
use udproxy.Base.Bytes.{put}
use udproxy.PanelState.{read_clockframe, read_vax_panel}
use udproxy.Client.{datagrams}
use udproxy.NetBsdX64
use udproxy.NetBsdX64.{Kvm}
use udproxy.NetBsdX64.Trace as X64Trace
use udproxy.NetBsdVax
use udproxy.NetBsdVax.{Kevent, evfilt_signal, event, Notifier, send_frames_with_notification}
use udproxy.NetBsdVax.Notices as VaxNotices
use udproxy.NetBsdVax.Sends.{send_frames_with_notification-sends}
use udproxy.Pdp
use udproxy.Pdp.{send_frames_loop}
use udproxy.Pdp.Trace as PdpTrace
use udproxy.Proxy.{Object}
use udproxy.Proxy.Panels.{
  read_pdp, pdp_json, vax_json, pdp_packet_to_json, amd64_packet_to_json, vax_packet_to_json,
}
use udproxy.Proxy.Loop.{
  Label, Runs, State, after_recv, count, datagram, here, json_text, next, received, recv, test,
  tested,
}
use udproxy.Proxy.Loop.Delivery.{stays, delivered, pending}
use udproxy.Proxy.Loop.Texts.{packets}
use udproxy.Proxy.FromX64.{registers, client_to_browser}
use udproxy.Proxy.FromVax.{notices_to_browser}
use udproxy.Proxy.FromPdp.{pdp_to_browser}
use udproxy.Examples.Web.{waiting, two_browsers-IsDistinct}

-- A text for each object, and the packet that arrives while the first browser is connected.
abbrev pub braces : Object → List ℕ
braces o = 123 ∷ 125 ∷ []

abbrev arrival : List ℕ → List Label
arrival d = tested ∷ received (datagram d) ∷ []

abbrev behind : (List ℕ → List ℕ) → List ℕ → State
behind text_of d = record waiting { thread = after_recv text_of (datagram d) }

packet_taken :
    (text_of : List ℕ → List ℕ) (d : List ℕ) → Runs text_of waiting (arrival d) (behind text_of d)
packet_taken text_of d = next (test refl) (next (recv (datagram d) refl) here)

abbrev kvm : Kvm
kvm = record { kd = true; n_value = 4096 }

abbrev x64_client : NetBsdX64.Sender
x64_client = record { packet = replicate 214 1; frame_count = 0; first_read = true }

abbrev x64_rounds : List NetBsdX64.Round
x64_rounds =
    record { kvm_read = some (replicate 208 7); send_ok = true }
    ∷ record { kvm_read = none; send_ok = true }
    ∷ []

x64_came :
    packets (arrival (X64Trace.wire (replicate 208 7)))
    ≡ datagrams (NetBsdX64.send_frames kvm x64_client x64_rounds).out
unfolding packets X64Trace.panels
x64_came = sym (X64Trace.send_frames-sends kvm x64_client x64_rounds refl).0

client_to_browser_example :
    let d = X64Trace.wire (replicate 208 7) in
    delivered 1 (arrival d)
      ++ pending (after_recv (json_text amd64_packet_to_json braces) (datagram d))
    ≡ map (λ p. braces (registers (read_clockframe p 0))) (X64Trace.panels kvm x64_rounds)
unfolding count stays
client_to_browser_example =
    let d = X64Trace.wire (replicate 208 7) in
    client_to_browser braces (λ o. refl) kvm x64_client x64_rounds refl
      (packet_taken (json_text amd64_packet_to_json braces) d) refl 1 two_browsers-IsDistinct refl
      refl x64_came

abbrev notifier : Notifier
notifier = record { kq = true; notification_available = true }

abbrev vax_client : NetBsdVax.Sender
vax_client = record { packet = replicate 14 0; frame_count = 0 }

-- SIGUSR1, whose panel is sent.
abbrev vax_rounds : List NetBsdVax.Round
vax_rounds =
    record {
      kevent = event evfilt_signal 30;
      raw_data = replicate 128 0;
      memory = record { lseek_ok = true; read = some (replicate 128 5) };
      errno = none;
    }
    ∷ []

vax_came :
    packets (arrival (VaxNotices.wire (replicate 8 5)))
    ≡ datagrams (send_frames_with_notification notifier vax_client vax_rounds).out
unfolding packets VaxNotices.panels VaxNotices.turn VaxNotices.is_fatal VaxNotices.is_notice
    VaxNotices.readable put
vax_came =
    sym (send_frames_with_notification-sends notifier vax_client vax_rounds refl (omega arith))

notices_to_browser_example :
    let d = VaxNotices.wire (replicate 8 5) in
    delivered 1 (arrival d)
      ++ pending (after_recv (json_text vax_packet_to_json braces) (datagram d))
    ≡ map (λ p. braces (vax_json (read_vax_panel p 0))) (VaxNotices.panels notifier vax_rounds)
unfolding count stays
notices_to_browser_example =
    let d = VaxNotices.wire (replicate 8 5) in
    notices_to_browser braces (λ o. refl) notifier vax_client vax_rounds refl (omega arith)
      (packet_taken (json_text vax_packet_to_json braces) d) refl 1 two_browsers-IsDistinct refl
      refl vax_came

abbrev pdp_client : Pdp.Sender
pdp_client = record {
  reader = record { panel = replicate 16 0; read_count = 0 };
  packet = replicate 22 0;
  frame_count = 0;
}

abbrev pdp_rounds : List Pdp.Round
pdp_rounds =
    record { memory = record { lseek_ok = true; read = some (replicate 16 5) }; errno = none }
    ∷ record { memory = record { lseek_ok = true; read = some (replicate 3 5) }; errno = none }
    ∷ []

pdp_came :
    packets (arrival (PdpTrace.wire (replicate 16 5)))
    ≡ datagrams (send_frames_loop pdp_client pdp_rounds).out
unfolding packets PdpTrace.panels
pdp_came = sym (PdpTrace.send_frames_loop-sends pdp_client pdp_rounds (refl, refl))

pdp_to_browser_example :
    let d = PdpTrace.wire (replicate 16 5) in
    delivered 1 (arrival d)
      ++ pending (after_recv (json_text pdp_packet_to_json braces) (datagram d))
    ≡ map (λ p. braces (pdp_json (read_pdp p))) (PdpTrace.panels pdp_rounds)
unfolding count stays
pdp_to_browser_example =
    let d = PdpTrace.wire (replicate 16 5) in
    pdp_to_browser braces (λ o. refl) pdp_client pdp_rounds (refl, refl)
      (packet_taken (json_text pdp_packet_to_json braces) d) refl 1 two_browsers-IsDistinct refl
      refl pdp_came
