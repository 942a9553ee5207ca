-- ===== src/Generic/Main.antt =====
-- `main` of socket/client.c.
use udproxy.Base.{arith, false, ◌≡◌, ℕ, none, some, List, [], ◌∷◌, ◌++◌, if◌then◌else◌, not}
use udproxy.Client.{Output}
use udproxy.Client.Laws.{quits, loop-exited}
use udproxy.Startup.Held.{leaks}
use udproxy.Startup.{
  Resource, socket, kmem, kvm, queue, pipe, Call, closes, says, Program, exits, Opt, Network,
  create_udp_socket, with_options, around,
}
use udproxy.Symbols.{Files, open_kmem}
use udproxy.NetBsdX64.{KvmAnswers, open_kvm_and_find_panel}
use udproxy.NetBsdX64.Main.{kvm_calls}
use udproxy.Generic
use udproxy.Generic.{Sender, Round, send_round, send_frames}

-- On a system with the kvm library.
unfoldable pub kvm_main :
    (state_size : ℕ) (fields : List ℕ → ℕ × ℕ)
    → List Opt
    → Network
    → KvmAnswers
    → Sender
    → List Round
    → Program (List Output)
kvm_main state_size fields os n a sender rounds = with_options os (λ server_ip.
    let opened = open_kvm_and_find_panel a in
    let made = create_udp_socket {A = List Output} n 4000 server_ip in
    let result = send_frames state_size fields (Generic.kvm opened.kvm) sender rounds in
    let close_kvm : List (Call (List Output)) = if opened.kvm.kd then closes kvm ∷ [] else [] in
    let started : List (Call (List Output)) =
      says "Connecting to server at %s:%d via UDP\n" ∷ kvm_calls opened.calls in
    let found : List (Call (List Output)) =
      says "Panel symbol found at kernel address %p\n"
      ∷ says "This is the ADDRESS OF the panel structure in kernel memory\n"
      ∷ made.calls in
    if not opened.found
    then exits 1 (started ++ (says "Failed to open kvm or find panel symbol\n" ∷ []))
    else elim made.result [
      | none ↦ exits 1 (started ++ (found ++ (says "Failed to create UDP socket\n" ∷ close_kvm)))
      | some address ↦
          around (started ++ found) result.out result.ended result.exited
            (closes socket ∷ close_kvm)
    ])

-- On the other systems. The search runs in `main`, and again in `send_frames`, whose static `kmem_fd`
-- starts as -1; `again` is what the files answer there. A `long` has `limit` values.
unfoldable pub kmem_main :
    (limit state_size : ℕ) (fields : List ℕ → ℕ × ℕ)
    → List Opt
    → Network
    → (files again : Files) → Sender
    → List Round
    → Program (List Output)
kmem_main limit state_size fields os n files again sender rounds = with_options os (λ server_ip.
    let opened = open_kmem {A = List Output} limit files in
    let made = create_udp_socket {A = List Output} n 4000 server_ip in
    let reopened = open_kmem {A = List Output} limit again in
    let result = send_frames state_size fields Generic.kmem sender rounds in
    let started : List (Call (List Output)) =
      says "Connecting to server at %s:%d via UDP\n" ∷ opened.calls in
    let found : List (Call (List Output)) =
      says "Panel symbol found at address %p\n" ∷ made.calls in
    elim opened.result [
      | none ↦ exits 1 (started ++ (says "Failed to open /dev/kmem or find panel symbol\n" ∷ []))
      | some panel_addr ↦ elim made.result [
        | none ↦
            exits 1
              (started ++ (found ++ (says "Failed to create UDP socket\n" ∷ closes kmem ∷ [])))
        | some address ↦ elim reopened.result [
          | none ↦ exits 0 (
              started
              ++ (found
                  ++ (reopened.calls
                      ++ (says "Cannot access kernel memory\n"
                          ∷ closes socket
                          ∷ closes kmem
                          ∷ []))))
          | some again_addr ↦
              around (started ++ (found ++ reopened.calls)) result.out result.ended result.exited
                (closes socket ∷ closes kmem ∷ [])
        ]
      ]
    ])

send_round-quits :
    (state_size : ℕ) (fields : List ℕ → ℕ × ℕ) (source : Generic.Source) (s : Sender) (r : Round)
    → quits (send_round state_size fields source s r) ≡ false
unfolding send_round
send_round-quits state_size fields source s r = ground arith

send_frames-exited :
    (state_size : ℕ) (fields : List ℕ → ℕ × ℕ) (source : Generic.Source) (s : Sender)
    (rounds : List Round)
    → (send_frames state_size fields source s rounds).exited ≡ false
unfolding send_frames
send_frames-exited state_size fields source s rounds =
    loop-exited (send_round state_size fields source) (send_round-quits state_size fields source) s
      rounds

-- However the client with the kvm library leaves, by its options, a failed set-up or the end of its
-- loop, it holds nothing that it opened.
pub main-leaks_kvm :
    (state_size : ℕ) (fields : List ℕ → ℕ × ℕ) (os : List Opt) (n : Network) (a : KvmAnswers)
    (sender : Sender) (rounds : List Round) (r : Resource)
    → leaks r (kvm_main state_size fields os n a sender rounds) ≡ false
unfolding leaks kvm_main create_udp_socket open_kvm_and_find_panel kvm_calls
main-leaks_kvm state_size fields os n a sender rounds socket = ground (
  arith,
  send_frames-exited state_size fields (Generic.kvm (open_kvm_and_find_panel a).kvm) sender rounds,
)
main-leaks_kvm state_size fields os n a sender rounds kmem = ground (
  arith,
  send_frames-exited state_size fields (Generic.kvm (open_kvm_and_find_panel a).kvm) sender rounds,
)
main-leaks_kvm state_size fields os n a sender rounds kvm = ground (
  arith,
  send_frames-exited state_size fields (Generic.kvm (open_kvm_and_find_panel a).kvm) sender rounds,
)
main-leaks_kvm state_size fields os n a sender rounds queue = ground (
  arith,
  send_frames-exited state_size fields (Generic.kvm (open_kvm_and_find_panel a).kvm) sender rounds,
)
main-leaks_kvm state_size fields os n a sender rounds pipe = ground (
  arith,
  send_frames-exited state_size fields (Generic.kvm (open_kvm_and_find_panel a).kvm) sender rounds,
)
