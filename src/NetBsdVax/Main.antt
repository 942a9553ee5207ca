-- ===== src/NetBsdVax/Main.antt =====
-- `main` of socket/arch/NetBSDVAX/client.c.
use udproxy.Base.{
  ℕ, ◌≡◌, arith, Bool, true, false, ◌&&◌, Option, none, some, List, [], ◌∷◌, ◌++◌, if◌then◌else◌,
  not,
}
use udproxy.Client.{Output, datagrams, loop}
use udproxy.Startup.{
  socket, kmem, queue, Call, opens, closes, says, runs, Program, exits, Opt, Network,
  create_udp_socket, with_options, around,
}
use udproxy.Symbols.{Files, vax_open_kmem}
use udproxy.NetBsdVax.{
  Notifier, setup_panel_notification, register_with_kernel, Sender, Round, notified_round,
  wait_for_panel_notification, send_frames_with_notification,
}

-- What the system answers before the loop: `kqueue`, `kevent`, the process's number, the two `sysctl`
-- commands, the network, the trial run of `nm`, and the files.
pub record System : Type 0 where
  pub kqueue_ok : Bool
  pub kevent_ok : Bool
  pub pid : ℕ
  pub registers : Bool
  pub enables : Bool
  pub network : Network
  pub trial : Option (List (List ℕ))
  pub files : Files

-- The queue's calls in `setup_panel_notification`.
unfoldable pub queue_calls : Bool → Bool → List (Call (List Output))
queue_calls kqueue_ok kevent_ok =
    if not kqueue_ok
    then []
    else if not kevent_ok
    then opens queue ∷ closes queue ∷ []
    else opens queue ∷ []

-- `cleanup_panel_notification`.
unfoldable pub close_queue : Notifier → List (Call (List Output))
close_queue n =
    (if n.kq then closes queue ∷ [] else [])
    ++ (says "Kernel notification system cleaned up\n" ∷ [])

unfoldable pub main : List Opt → System → Sender → List Round → Program (List Output)
main os y sender rounds = with_options os (λ server_ip.
    let (n, notes) = setup_panel_notification y.kqueue_ok y.kevent_ok in
    let opened = vax_open_kmem {A = List Output} y.trial y.files in
    let made = create_udp_socket {A = List Output} y.network 4002 server_ip in
    let result = send_frames_with_notification n sender rounds in
    let started : List (Call (List Output)) =
      says "NetBSD VAX Panel Client with Kernel Notification Support\n"
      ∷ says "Connecting to server at %s:%d via UDP\n"
      ∷ (queue_calls y.kqueue_ok y.kevent_ok
          ++ (runs notes
              ∷ ((if n.kq
                    then []
                    else says
                        "Warning: Kernel notification setup failed, falling back to polling mode\n"
                      ∷ [])
                  ++ (runs (register_with_kernel y.pid y.registers y.enables) ∷ opened.calls)))) in
    elim opened.result [
      | none ↦
          exits 1
            (started ++ (says "Failed to open /dev/kmem or find panel symbol\n" ∷ close_queue n))
      | some panel_addr ↦ elim made.result [
        | none ↦ exits 1 (
            started
            ++ (says "Panel symbol found at address %p\n"
                ∷ (made.calls ++ (says "Failed to create UDP socket\n" ∷ closes kmem ∷ []))))
        | some address ↦
            around (started ++ (says "Panel symbol found at address %p\n" ∷ made.calls)) result.out
              result.ended result.exited (closes socket ∷ closes kmem ∷ close_queue n)
      ]
    ])

-- If the notification cannot be set up, the loop ends the program at its first wait, whatever it is
-- answered, and sends nothing: it does not poll.
pub setup_panel_notification-exits :
    (kqueue_ok kevent_ok : Bool) (s : Sender) (r : Round) (rs : List Round)
    → (kqueue_ok && kevent_ok) ≡ false
    → let n = (setup_panel_notification kqueue_ok kevent_ok).0 in
      let result = send_frames_with_notification n s (r ∷ rs) in
      (result.exited ≡ true) × (datagrams result.out ≡ [])
unfolding setup_panel_notification send_frames_with_notification loop notified_round
    wait_for_panel_notification datagrams
setup_panel_notification-exits kqueue_ok kevent_ok s r rs failed = ground arith
