-- ===== src/Macos/Main.antt =====
-- `main` of socket/arch/macOS/client.c.
use udproxy.Base.{◌≡◌, arith, false, none, some, List, [], ◌∷◌, ◌++◌}
use udproxy.Client.{Output}
use udproxy.Client.Laws.{quits, loop-exited}
use udproxy.Startup.{
  Resource, socket, kmem, kvm, queue, pipe, closes, says, Program, exits, Opt, Network,
  create_udp_socket, with_options, around,
}
use udproxy.Startup.Held.{leaks}
use udproxy.Macos.{Sender, Round, send_round, send_frames}

unfoldable pub main : List Opt → Network → Sender → List Round → Program (List Output)
main os n sender rounds = with_options os (λ server_ip.
    let made = create_udp_socket {A = List Output} n 4000 server_ip in
    let result = send_frames sender rounds in
    elim made.result [
      | none ↦ exits 1 (says "macOS Panel Client (ARM64)\n" ∷ made.calls)
      | some address ↦
          around
            (says "macOS Panel Client (ARM64)\n"
              ∷ (made.calls
                  ++ (says "Connected to server at %s:%d\n" ∷ says "Packet size: %d bytes\n" ∷ [])))
            result.out result.ended result.exited (closes socket ∷ [])
    ])

send_round-quits : (s : Sender) (r : Round) → quits (send_round s r) ≡ false
unfolding send_round
send_round-quits s r = ground arith

send_frames-exited : (s : Sender) (rounds : List Round) → (send_frames s rounds).exited ≡ false
unfolding send_frames
send_frames-exited s rounds = loop-exited send_round send_round-quits s rounds

-- However the client leaves, by its options, a failed socket or the end of its loop, it holds nothing
-- that it opened.
pub main-leaks_macos :
    (os : List Opt) (n : Network) (sender : Sender) (rounds : List Round) (r : Resource)
    → leaks r (main os n sender rounds) ≡ false
unfolding leaks main create_udp_socket
main-leaks_macos os n sender rounds socket = ground (arith, send_frames-exited sender rounds)
main-leaks_macos os n sender rounds kmem = ground (arith, send_frames-exited sender rounds)
main-leaks_macos os n sender rounds kvm = ground (arith, send_frames-exited sender rounds)
main-leaks_macos os n sender rounds queue = ground (arith, send_frames-exited sender rounds)
main-leaks_macos os n sender rounds pipe = ground (arith, send_frames-exited sender rounds)
