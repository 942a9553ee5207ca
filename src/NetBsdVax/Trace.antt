-- ===== src/NetBsdVax/Trace.antt =====
-- The datagrams of the VAX client's event-driven loop.
use udproxy.Base.{
  ℕ, ◌≡◌, arith, Bool, true, false, ◌&&◌, ◌||◌, not, Option, none, some, List, [], ◌∷◌, ◌++◌,
  length, Option-cases, inl, inr, if◌then◌else◌, ◌==◌,
}
use udproxy.Layout.{vax}
use udproxy.Packet.{vax_shape, panel_vax, populate}
use udproxy.Packet.Fields.{sizes_vax, length-populate}
use udproxy.Client.{Output, sent, note, Step, goes_on, state_of, out_of, datagrams}
use udproxy.Client.Laws.{datagrams-append}
use udproxy.NetBsdVax.{
  Notifier, evfilt_signal, evfilt_user, other, Kevent, interrupted, kevent_failed, nothing, event,
  Wait, returns, exits, wait_for_panel_notification, PanelRead, no_panel, panel,
  read_panel_from_kmem, send_failure, Sender, Round, send_frame, read_and_send, notified_round,
}
use udproxy.NetBsdVax.Notices.{
  is_notice, is_fatal, readable, is_tolerated, send_turn, turn, wire, populate-wire,
  read_panel-readable, readable-length,
}

-- The datagrams of a turn, and whether the loop goes on behind it.
abbrev pub turn_sends : Option (Option (List ℕ)) → List (List ℕ)
turn_sends none = []
turn_sends (some none) = []
turn_sends (some (some p)) = wire p ∷ []

abbrev pub turn_goes : Option (Option (List ℕ)) → Bool
turn_goes none = false
turn_goes (some t) = true

send_failure-plain :
    (e n : ℕ) → (datagrams (send_failure e n).1 ≡ []) × ((send_failure e n).0 ≡ is_tolerated e)
unfolding send_failure datagrams is_tolerated
send_failure-plain e n = ground arith

-- A round's end: a panel of eight bytes is sent, dropped, or ends the loop.
send_frame-turn :
    (s : Sender) (p : List ℕ) (errno : Option ℕ) (before : List Output)
    → length p ≡ 8
    → length s.packet ≡ 14
    → datagrams before ≡ []
    → let step = send_frame s p errno before [] in
      (goes_on step ≡ turn_goes (send_turn p errno))
      × (datagrams (out_of step) ≡ turn_sends (send_turn p errno))
      × (length (state_of step).packet ≡ 14)
unfolding send_frame datagrams
send_frame-turn s p none before h h' quiet = ground (
  arith,
  populate-wire p s.packet h h',
  length-populate vax vax_shape panel_vax p s.packet (omega (arith, sizes_vax))
      (omega (arith, sizes_vax)) (omega (arith, sizes_vax)),
  datagrams-append before (sent (populate vax vax_shape panel_vax p s.packet) ∷ []),
)
send_frame-turn s p (some e) before h h' quiet = ground (
  arith,
  send_failure-plain e s.frame_count,
  length-populate vax vax_shape panel_vax p s.packet (omega (arith, sizes_vax))
      (omega (arith, sizes_vax)) (omega (arith, sizes_vax)),
  datagrams-append before (send_failure e s.frame_count).1,
  datagrams-append before ((send_failure e s.frame_count).1 ++ []),
  datagrams-append (send_failure e s.frame_count).1 [],
)

abbrev outcome : Wait → Option Bool
outcome (returns result notes) = some (not (result == 0))
outcome (exits notes) = none

abbrev notes_of : Wait → List Output
notes_of (returns result notes) = notes
notes_of (exits notes) = notes

-- A wait tells notices from other events, and leaves the program without a queue or on an error.
wait-outcome :
    (n : Notifier) (e : Kevent)
    → (outcome (wait_for_panel_notification n e) ≡ (
        if not (n.notification_available && n.kq) || is_fatal e then none else some (is_notice e)))
      × (datagrams (notes_of (wait_for_panel_notification n e)) ≡ [])
unfolding wait_for_panel_notification is_notice is_fatal datagrams
wait-outcome n interrupted = ground arith
wait-outcome n kevent_failed = ground arith
wait-outcome n nothing = ground arith
wait-outcome n (event evfilt_signal ident) = ground arith
wait-outcome n (event evfilt_user ident) = ground arith
wait-outcome n (event other ident) = ground arith

read_notes : PanelRead → List Output
read_notes (no_panel notes) = notes
read_notes (panel bytes) = []

read_panel-plain :
    (r : Round) → datagrams (read_notes (read_panel_from_kmem r.raw_data r.memory)) ≡ []
unfolding read_panel_from_kmem read_notes datagrams
read_panel-plain r = elim (Option-cases r.memory.read) [
  | inl e ↦ ground (arith, e)
  | inr (bytes, e) ↦ ground (arith, e)
]

unfoldable pub Turns : Option (Option (List ℕ)) → Step Sender → Type 0
Turns t step =
    (goes_on step ≡ turn_goes t)
    × (datagrams (out_of step) ≡ turn_sends t)
    × (length (state_of step).packet ≡ 14)

read_and_send-turn :
    (s : Sender) (r : Round) (before : List Output)
    → length r.raw_data ≡ 128
    → length s.packet ≡ 14
    → datagrams before ≡ []
    → Turns
        (elim (readable r) [ none ↦ none | some p ↦ send_turn p r.errno ])
        (read_and_send s r before [])
unfolding read_and_send read_notes Turns datagrams
read_and_send-turn s r before full h quiet = elim (Option-cases (readable r)) [
  | inl e ↦ ground (
    arith,
    e,
    read_panel-readable r,
    read_panel-plain r,
    datagrams-append before (
        read_notes (read_panel_from_kmem r.raw_data r.memory)
        ++ (note "Failed to read panel data from kernel\n" [] ∷ [])),
    datagrams-append (read_notes (read_panel_from_kmem r.raw_data r.memory))
        (note "Failed to read panel data from kernel\n" [] ∷ []),
  )
  | inr (p, e) ↦ ground (
    arith,
    e,
    read_panel-readable r,
    send_frame-turn s p r.errno before (readable-length r p full e) h quiet,
  )
]

pub notified_round-turn :
    (n : Notifier) (s : Sender) (r : Round)
    → length r.raw_data ≡ 128
    → length s.packet ≡ 14
    → Turns (turn n r) (notified_round n s r)
unfolding notified_round turn Turns
notified_round-turn n s r full h = ground (
  arith,
  wait-outcome n r.kevent,
  read_and_send-turn s r (notes_of (wait_for_panel_notification n r.kevent)) full h,
)
