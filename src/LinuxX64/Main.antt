-- ===== src/LinuxX64/Main.antt =====
-- `main` of socket/arch/LinuxX64/client.c.
use udproxy.Base.{◌≡◌, arith, false, none, some, List, [], ◌∷◌, ◌++◌}
use udproxy.Client.{Output}
use udproxy.Startup.{
  Resource, socket, kmem, kvm, queue, pipe, closes, says, Program, exits, Opt, Network,
  create_udp_socket, with_options, around,
}
use udproxy.Startup.Held.{leaks}
use udproxy.LinuxX64.Client.{Sender, Round, send_frames}

unfoldable pub main : List Opt → Network → Sender → List Round → Program (List Output)
main os n sender rounds = with_options os (λ server_ip.
    let made = create_udp_socket {A = List Output} n 4000 server_ip in
    let result = send_frames sender rounds in
    elim made.result [
      | none ↦ exits 1 (says "Linux Panel Client (x64)\n" ∷ made.calls)
      | some address ↦
          around
            (says "Linux Panel Client (x64)\n"
              ∷ (made.calls
                  ++ (says "Connected to server at %s:%d\n" ∷ says "Packet size: %d bytes\n" ∷ [])))
            result.out result.ended result.exited (closes socket ∷ [])
    ])

-- A client that does not leave inside its loop, for want of the kernel module, holds nothing when
-- it leaves.
pub main-leaks_linuxx64 :
    (os : List Opt) (n : Network) (sender : Sender) (rounds : List Round) (r : Resource)
    → (send_frames sender rounds).exited ≡ false
    → leaks r (main os n sender rounds) ≡ false
unfolding leaks main create_udp_socket
main-leaks_linuxx64 os n sender rounds socket stays = ground arith
main-leaks_linuxx64 os n sender rounds kmem stays = ground arith
main-leaks_linuxx64 os n sender rounds kvm stays = ground arith
main-leaks_linuxx64 os n sender rounds queue stays = ground arith
main-leaks_linuxx64 os n sender rounds pipe stays = ground arith
