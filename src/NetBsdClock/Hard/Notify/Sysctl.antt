-- ===== src/NetBsdClock/Hard/Notify/Sysctl.antt =====
-- The settings of the notices under any requests and ticks.
use udproxy.Base.{◌^◌, ◌<◌, arith, List, [], ◌∷◌}
use udproxy.NetBsdClock.Hard.Notify.{
  Process, Notification, scan, panel_notify_userspace, panel_update_tick, Lookup, fails, reads,
  writes, sysctl_panel_notification_enabled, sysctl_panel_client_pid,
}

-- A request to one of the two handlers, or a tick.
pub data Change : Type 0 where
  set_enabled : Lookup → Change
  set_client_pid : Lookup → Change
  notify : List Process → Change

unfoldable pub change : Change → Notification → Notification
change (set_enabled l) n = (sysctl_panel_notification_enabled l n).0
change (set_client_pid l) n = (sysctl_panel_client_pid l n).0
change (notify procs) n = (panel_update_tick procs n).0

unfoldable pub changes : List Change → Notification → Notification
changes [] n = n
changes (c ∷ cs) n = changes cs (change c n)

-- The flag is 0 or 1, and the process number not negative.
abbrev pub IsValid : Notification → Type 0
IsValid n = (n.enabled < 2) × (n.client_pid < 2 ^ 31)

scan-IsValid : (procs : List Process) (n : Notification) → IsValid n → IsValid (scan procs n).0
unfolding scan
scan-IsValid [] n (e, p) = ground arith
scan-IsValid (q ∷ qs) n (e, p) = ground (arith, scan-IsValid qs n)

change-IsValid : (c : Change) (n : Notification) → IsValid n → IsValid (change c n)
unfolding change sysctl_panel_notification_enabled sysctl_panel_client_pid panel_update_tick
    panel_notify_userspace
change-IsValid (set_enabled (fails error)) n v = v
change-IsValid (set_enabled reads) n v = v
change-IsValid (set_enabled (writes value)) n (e, p) = ground arith
change-IsValid (set_client_pid (fails error)) n v = v
change-IsValid (set_client_pid reads) n v = v
change-IsValid (set_client_pid (writes value)) n (e, p) = ground arith
change-IsValid (notify procs) n (e, p) = ground (arith, scan-IsValid procs n)

-- From a valid state, no requests and ticks, in whatever order and with whatever values, leave the flag
-- another value than 0 or 1, or the process number negative.
pub changes-IsValid : (cs : List Change) (n : Notification) → IsValid n → IsValid (changes cs n)
unfolding changes
changes-IsValid [] n v = v
changes-IsValid (c ∷ cs) n v = changes-IsValid cs (change c n) (change-IsValid c n v)
