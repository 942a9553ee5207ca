-- ===== src/NetBsdVax.antt =====
-- The client of socket/arch/NetBSDVAX/client.c. The event queue, the kernel's memory and the socket
-- answer from outside.
pub mod Notices
pub mod Trace
pub mod Sends
pub mod EndToEnd
pub mod Main
use Prim.Native.String.{String}
use udproxy.Base.{
  ℕ, ◌+◌, Bool, true, false, ◌&&◌, ◌||◌, Option, none, some, List, [], ◌∷◌, ◌++◌, if◌then◌else◌,
  ◌==◌, not, take,
}
use udproxy.Base.Bytes.{put, window}
use udproxy.Layout.{vax}
use udproxy.Packet.{vax_shape, panel_vax, populate}
use udproxy.Client.{Output, sent, note, slept, Step, go, stop, quit, Result, loop, usec_per_frame}

-- `kq`, whether it holds a descriptor, and `notification_available`.
pub record Notifier : Type 0 where
  pub kq : Bool
  pub notification_available : Bool

abbrev pub unset : Notifier
unset = record { kq = false; notification_available = false }

-- The state that it leaves, with an open queue exactly if the result is 0, and what it prints.
unfoldable pub setup_panel_notification : (kqueue_ok kevent_ok : Bool) → Notifier × List Output
setup_panel_notification kqueue_ok kevent_ok =
    if not kqueue_ok
    then (unset, note "kqueue" [] ∷ [])
    else if not kevent_ok
    then (unset, note "kevent setup" [] ∷ [])
    else (
      record { kq = true; notification_available = true },
      note "Kernel notification system initialized with kqueue and signal fallback\n" [] ∷ [],
    )

-- The results of the two `sysctl` commands.
unfoldable pub register_with_kernel : (pid : ℕ) (registers enables : Bool) → List Output
register_with_kernel pid registers enables =
    note "Panel client PID %d registering for kernel notifications\n" (pid ∷ [])
    ∷ ((if registers
          then note "Successfully registered with kernel notification system\n" [] ∷ []
          else note "Warning: Could not register with kernel (sysctl failed)\n" []
            ∷ note "Panel notifications may not work - falling back to polling\n" []
            ∷ [])
        ++ (if enables then [] else note "Warning: Could not enable panel notifications\n" [] ∷ []))

-- `kev.filter`.
pub data Filter : Type 0 where
  evfilt_signal evfilt_user other : Filter

-- What `kevent` returns: an interruption, another error, 0, or an event.
pub data Kevent : Type 0 where
  interrupted kevent_failed nothing : Kevent
  event : Filter → (ident : ℕ) → Kevent

abbrev pub sigusr1 : ℕ
sigusr1 = 30

abbrev pub panel_update_ident : ℕ
panel_update_ident = 74565

-- The result of a wait, or `exit(1)`, after what it prints.
pub data Wait : Type 0 where
  returns : (result : ℕ) → List Output → Wait
  exits : List Output → Wait

unfoldable pub wait_for_panel_notification : Notifier → Kevent → Wait
wait_for_panel_notification n e =
    if not n.notification_available || not n.kq
    then exits (note "ERROR: Notification system not available, cannot proceed\n" [] ∷ [])
    else elim e [
      | interrupted ↦ returns 1 []
      | kevent_failed ↦ exits (note "kevent wait failed" [] ∷ [])
      | nothing ↦ returns 0 (note "ERROR: kevent returned 0 with NULL timeout\n" [] ∷ [])
      | event filter ident ↦ elim filter [
        | evfilt_signal ↦
            if ident == sigusr1
            then returns 1 []
            else returns 0
                (note "DEBUG: Received unexpected event: filter=%d, ident=%lu\n" (ident ∷ []) ∷ [])
        | evfilt_user ↦
            if ident == panel_update_ident
            then returns 1 []
            else returns 0
                (note "DEBUG: Received unexpected event: filter=%d, ident=%lu\n" (ident ∷ []) ∷ [])
        | other ↦
            returns 0
              (note "DEBUG: Received unexpected event: filter=%d, ident=%lu\n" (ident ∷ []) ∷ [])
      ]
    ]

unfoldable pub cleanup_panel_notification : Notifier → Notifier × List Output
cleanup_panel_notification n = (unset, note "Kernel notification system cleaned up\n" [] ∷ [])

-- What the kernel's memory answers: whether `lseek` succeeds, and the bytes that `read` delivers, up
-- to 128, `none` if it fails.
pub record Memory : Type 0 where
  pub lseek_ok : Bool
  pub read : Option (List ℕ)

pub data PanelRead : Type 0 where
  -- the result -1
  no_panel : List Output → PanelRead
  -- the panel's eight bytes
  panel : List ℕ → PanelRead

-- `raw_data` is a local array of 128 bytes that starts as what the stack held. A short read counts as
-- a read. The two fields are copied as words of the same machine.
unfoldable pub read_panel_from_kmem : (raw_data : List ℕ) → Memory → PanelRead
read_panel_from_kmem raw_data m =
    if not m.lseek_ok then no_panel (note "lseek" [] ∷ []) else elim m.read [
      | none ↦ no_panel (note "read" [] ∷ [])
      | some bytes ↦
          let data_read = put raw_data 0 (take 128 bytes) in
          panel (window data_read 0 4 ++ window data_read 4 4)
    ]

-- NetBSD's error numbers.
abbrev pub enetunreach : ℕ
enetunreach = 51

abbrev pub ehostunreach : ℕ
ehostunreach = 65

abbrev pub econnrefused : ℕ
econnrefused = 61

abbrev pub eagain : ℕ
eagain = 35

-- Whether the loop goes on after a failed `sendto`, and what it prints. EWOULDBLOCK is EAGAIN.
unfoldable pub send_failure : (errno frame_count : ℕ) → Bool × List Output
send_failure errno frame_count =
    let failed = note "sendto failed after %d packets: " (frame_count ∷ []) in
    if errno == enetunreach
    then (true, failed ∷ note "Network unreachable - check server IP address\n" [] ∷ [])
    else if errno == ehostunreach
    then (true, failed ∷ note "Host unreachable - server may be down\n" [] ∷ [])
    else if errno == econnrefused
    then (
      true,
      failed ∷ note "Connection refused - server not listening on port %d\n" (4002 ∷ []) ∷ [],
    )
    else if errno == eagain
    then (true, failed ∷ note "Warning: UDP send would block (frame %d)\n" (frame_count ∷ []) ∷ [])
    else (false, failed ∷ [])

-- The variables of the two send loops.
pub record Sender : Type 0 where
  pub packet : List ℕ
  pub frame_count : ℕ

-- The answers of one round: the event, the stack and the memory for the read, and the error of
-- `sendto`, `none` if it succeeds.
pub record Round : Type 0 where
  pub kevent : Kevent
  pub raw_data : List ℕ
  pub memory : Memory
  pub errno : Option ℕ

-- The rest of a round: `before` was printed, `pause` comes last.
unfoldable pub send_frame : Sender → List ℕ → Option ℕ → (before pause : List Output) → Step Sender
send_frame s bytes errno before pause =
    let packet = populate vax vax_shape panel_vax bytes s.packet in
    let counted : Sender = record { packet = packet; frame_count = s.frame_count + 1 } in
    elim errno [
      | none ↦ go counted (before ++ (sent packet ∷ pause))
      | some e ↦
          let (goes, notes) = send_failure e s.frame_count in
          if goes
          then go counted (before ++ (notes ++ pause))
          else stop (record { packet = packet; frame_count = s.frame_count }) (before ++ notes)
    ]

unfoldable pub read_and_send : Sender → Round → (before pause : List Output) → Step Sender
read_and_send s r before pause = elim (read_panel_from_kmem r.raw_data r.memory) [
  | no_panel notes ↦
      stop s (before ++ (notes ++ (note "Failed to read panel data from kernel\n" [] ∷ [])))
  | panel bytes ↦ send_frame s bytes r.errno before pause
]

-- A round of `send_frames_with_notification`.
unfoldable pub notified_round : Notifier → Sender → Round → Step Sender
notified_round n s r = elim (wait_for_panel_notification n r.kevent) [
  | exits notes ↦ quit s notes
  | returns result notes ↦ if result == 0 then go s notes else read_and_send s r notes []
]

unfoldable pub send_frames_with_notification : Notifier → Sender → List Round → Result Sender
send_frames_with_notification n s rounds =
    let r = loop (notified_round n) s rounds in
    record r {
      out =
          note "Starting PURE EVENT-DRIVEN panel monitoring (no polling)...\n" []
          ∷ note
              "Waiting for kernel signals at system interrupt rate (typically 100 Hz on NetBSD VAX)...\n"
              []
          ∷ r.out;
    }

-- `send_frames`, which polls, with `usleep` between rounds.
unfoldable pub polled_round : Sender → Round → Step Sender
polled_round s r = read_and_send s r [] (slept 0 usec_per_frame ∷ [])

unfoldable pub send_frames : Sender → List Round → Result Sender
send_frames s rounds = loop polled_round s rounds
