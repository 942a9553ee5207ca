-- ===== src/NetBsdX64/Main.antt =====
-- `main` of socket/arch/NetBSDx64/client.c.
use udproxy.Base.{◌≡◌, arith, false, none, some, List, [], ◌∷◌, ◌++◌, if◌then◌else◌, not}
use udproxy.Client.{Output}
use udproxy.Client.Laws.{quits, loop-exited}
use udproxy.Startup.{
  Resource, socket, kmem, kvm, queue, pipe, Call, opens, closes, says, Program, exits, Opt, Network,
  create_udp_socket, with_options, around,
}
use udproxy.Startup.Held.{leaks}
use udproxy.NetBsdX64.{
  Kvm, KvmAnswers, KvmCall, kvm_open, kvm_close, open_kvm_and_find_panel, Sender, Round, send_frame,
  send_round, send_frames,
}

unfoldable pub kvm_calls : List KvmCall → List (Call (List Output))
kvm_calls [] = []
kvm_calls (kvm_open ∷ cs) = opens kvm ∷ kvm_calls cs
kvm_calls (kvm_close ∷ cs) = closes kvm ∷ kvm_calls cs

unfoldable pub main : List Opt → Network → KvmAnswers → Sender → List Round → Program (List Output)
main os n a sender rounds = with_options os (λ server_ip.
    let opened = open_kvm_and_find_panel a in
    let made = create_udp_socket {A = List Output} n 4001 server_ip in
    let result = send_frames opened.kvm sender rounds in
    let started : List (Call (List Output)) =
      says "NetBSD x64 Panel Client\n"
      ∷ says "Connecting to server at %s:%d via UDP\n"
      ∷ kvm_calls opened.calls in
    let close_kvm : List (Call (List Output)) = if opened.kvm.kd then closes kvm ∷ [] else [] in
    if not opened.found
    then exits 1 (started ++ (says "Failed to open kvm or find panel symbol\n" ∷ []))
    else elim made.result [
      | none ↦ exits 1 (
          started
          ++ (says "Panel symbol found at kernel address %p\n"
              ∷ says "This is the ADDRESS OF the panel structure in kernel memory\n"
              ∷ (made.calls ++ (says "Failed to create UDP socket\n" ∷ close_kvm))))
      | some address ↦
          around
            (started
              ++ (says "Panel symbol found at kernel address %p\n"
                  ∷ says "This is the ADDRESS OF the panel structure in kernel memory\n"
                  ∷ (made.calls
                      ++ (says "Connected successfully. Sending panel data at %d Hz...\n"
                          ∷ says "Packet size: %d bytes\n"
                          ∷ []))))
            result.out result.ended result.exited (closes socket ∷ close_kvm)
    ])

send_round-quits : (k : Kvm) (s : Sender) (r : Round) → quits (send_round k s r) ≡ false
unfolding send_round send_frame
send_round-quits k s r = ground arith

send_frames-exited :
    (k : Kvm) (s : Sender) (rounds : List Round) → (send_frames k s rounds).exited ≡ false
unfolding send_frames
send_frames-exited k s rounds = loop-exited (send_round k) (send_round-quits k) s rounds

-- However the client leaves, by its options, a failed set-up or the end of its loop, it holds
-- nothing that it opened.
pub main-leaks_netbsdx64 :
    (os : List Opt) (n : Network) (a : KvmAnswers) (sender : Sender) (rounds : List Round)
    (r : Resource)
    → leaks r (main os n a sender rounds) ≡ false
unfolding leaks main create_udp_socket open_kvm_and_find_panel kvm_calls
main-leaks_netbsdx64 os n a sender rounds socket =
    ground (arith, send_frames-exited (open_kvm_and_find_panel a).kvm sender rounds)
main-leaks_netbsdx64 os n a sender rounds kmem =
    ground (arith, send_frames-exited (open_kvm_and_find_panel a).kvm sender rounds)
main-leaks_netbsdx64 os n a sender rounds kvm =
    ground (arith, send_frames-exited (open_kvm_and_find_panel a).kvm sender rounds)
main-leaks_netbsdx64 os n a sender rounds queue =
    ground (arith, send_frames-exited (open_kvm_and_find_panel a).kvm sender rounds)
main-leaks_netbsdx64 os n a sender rounds pipe =
    ground (arith, send_frames-exited (open_kvm_and_find_panel a).kvm sender rounds)
