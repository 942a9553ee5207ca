-- ===== src/Pdp/Main.antt =====
-- `send_frames` and `main` of socket/arch/211BSD/client.c.
use udproxy.Base.{ℕ, Bool, true, false, none, some, List, [], ◌∷◌, ◌++◌}
use udproxy.Client.{Output}
use udproxy.Startup.{
  socket, kmem, Call, closes, says, runs, Program, exits, loops, Opt, Network, create_udp_socket,
  with_options,
}
use udproxy.Symbols.{Files, pdp_open_kmem}
use udproxy.Pdp.{Memory, test_memory, Sender, Round, send_frames_loop}

-- The answers to `send_frames` before its loop: the second search for the panel, and the trial reads.
pub record Trial : Type 0 where
  pub files : Files
  pub test_buf1 : List ℕ
  pub test_buf2 : List ℕ
  pub memory1 : Memory
  pub memory2 : Memory

-- The calls of `send_frames`, and whether it returns. Its static `kmem_fd` starts as -1.
unfoldable pub send_frames : Trial → Sender → List Round → List (Call (List Output)) × Bool
send_frames t sender rounds =
    let opened = pdp_open_kmem {A = List Output} t.files in
    let result = send_frames_loop sender rounds in
    let entered : List (Call (List Output)) =
      says "Entering send_frames function...\n"
      ∷ says "Socket fd: %d\n"
      ∷ says "Server address: %s:%d\n"
      ∷ says "Opening kmem and finding panel address...\n"
      ∷ opened.calls in
    elim opened.result [
      | none ↦ (entered ++ (says "Cannot access kernel memory\n" ∷ []), true)
      | some panel_addr ↦ (
        entered
            ++ (says "Kmem opened successfully, panel at %p\n"
                ∷ runs (test_memory t.test_buf1 t.test_buf2 t.memory1 t.memory2)
                ∷ says "Starting packet transmission loop...\n"
                ∷ runs result.out
                ∷ []),
        result.ended,
      )
    ]

unfoldable pub main :
    List Opt → Network → Files → Trial → Sender → List Round → Program (List Output)
main os n files t sender rounds = with_options os (λ server_ip.
    let opened = pdp_open_kmem {A = List Output} files in
    let made = create_udp_socket {A = List Output} n 4000 server_ip in
    let (frames, returns) = send_frames t sender rounds in
    let started : List (Call (List Output)) =
      says "PDP-11 2.11BSD Panel Client\n"
      ∷ says "Connecting to server at %s:%d via UDP\n"
      ∷ opened.calls in
    elim opened.result [
      | none ↦ exits 1 (started ++ (says "Failed to open /dev/kmem or find panel symbol\n" ∷ []))
      | some panel_addr ↦ elim made.result [
        | none ↦ exits 1 (
            started
            ++ (says "Panel symbol found at address %p\n"
                ∷ (made.calls ++ (says "Failed to create UDP socket\n" ∷ closes kmem ∷ []))))
        | some address ↦
            let running : List (Call (List Output)) =
              started
              ++ (says "Panel symbol found at address %p\n"
                  ∷ (made.calls
                      ++ (says "UDP socket created. Sending panel data to %s:%d at %d Hz...\n"
                          ∷ says "Packet size: %d bytes\n"
                          ∷ says
                              "Note: UDP is connectionless - errors will be reported during transmission\n"
                          ∷ frames))) in
            elim returns [
              | true ↦ exits 0 (running ++ (closes socket ∷ closes kmem ∷ []))
              | false ↦ loops running
            ]
      ]
    ])
