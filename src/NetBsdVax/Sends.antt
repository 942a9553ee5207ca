-- ===== src/NetBsdVax/Sends.antt =====
-- The event-driven loop of the VAX client as a whole.
use udproxy.Base.{◌≡◌, refl, arith, List, [], ◌∷◌, map, All, length}
use udproxy.Client.{state_of, loop, datagrams}
use udproxy.Client.Laws.{follow-out}
use udproxy.NetBsdVax.{Notifier, Sender, Round, notified_round, send_frames_with_notification}
use udproxy.NetBsdVax.Notices.{panels, wire}
use udproxy.NetBsdVax.Trace.{Turns, notified_round-turn}

loop-sends :
    (n : Notifier) (s : Sender) (rounds : List Round)
    → length s.packet ≡ 14
    → All (λ r. length r.raw_data ≡ 128) rounds
    → datagrams (loop (notified_round n) s rounds).out ≡ map wire (panels n rounds)
unfolding loop panels datagrams Turns
loop-sends n s [] h full = refl
loop-sends n s (r ∷ rs) h (f, fs) =
    let step = notified_round n s r in
    let rest = λ (s' : Sender). loop (notified_round n) s' rs in
    ground
      (arith, notified_round-turn n s r f h, follow-out step rest, loop-sends n (state_of step) rs)

-- With a packet variable of 14 bytes and a read array of 128, and whatever the event queue, the
-- kernel's memory and the socket answer: the client sends one datagram for each notice of the kernel
-- whose panel it can read and hand to the socket, in order, up to the event that ends it; events
-- that are no notices and the tolerated errors of the socket send nothing and end nothing.
pub send_frames_with_notification-sends :
    (n : Notifier) (s : Sender) (rounds : List Round)
    → length s.packet ≡ 14
    → All (λ r. length r.raw_data ≡ 128) rounds
    → datagrams (send_frames_with_notification n s rounds).out ≡ map wire (panels n rounds)
unfolding send_frames_with_notification datagrams
send_frames_with_notification-sends n s rounds h full = loop-sends n s rounds h full
