-- ===== src/NetBsdClock/Hard/Notify.antt =====
-- The notices to the panel's client, socket/arch/NetBSDVAX/kern_clock.c.
pub mod Life
pub mod Sysctl
use udproxy.Base.{
  ℕ, zero, suc, ◌+◌, ◌-◌, ◌%◌, ◌^◌, ◌≤◌, ◌<◌, ◌≡◌, ◌≢◌, ◌∙◌, ap, refl, arith, Bool, true, false,
  ◌&&◌, ◌||◌, not, Option, none, some, List, [], ◌∷◌, ◌++◌, if◌then◌else◌, ltb, leb, ◌==◌,
  Bool-cases, inl, inr,
}
use udproxy.NetBsdClock.{positive}

-- `p_pid`, and whether `p_stat` is SZOMB or SDEAD.
pub record Process : Type 0 where
  pub p_pid : ℕ
  pub dead : Bool

-- `panel_notification_enabled` and `panel_client_pid`.
pub record Notification : Type 0 where
  pub enabled : ℕ
  pub client_pid : ℕ

-- The process that SIGUSR1 goes to, where it is sent.
abbrev pub Sent : Type 0
Sent = Option ℕ

-- The scan of `allproc`.
unfoldable pub scan : List Process → Notification → Notification × Sent
scan [] n = (record n { client_pid = 0 }, none)
scan (p ∷ ps) n =
    let rest = scan ps n in
    if p.p_pid == n.client_pid
    then (if p.dead then (record n { client_pid = 0 }, none) else (n, some p.p_pid))
    else rest

unfoldable pub panel_notify_userspace : List Process → Notification → Notification × Sent
panel_notify_userspace allproc n =
    if (n.enabled == 0) || not (positive n.client_pid) then (n, none) else scan allproc n

unfoldable pub panel_update_tick : List Process → Notification → Notification × Sent
panel_update_tick allproc n = panel_notify_userspace allproc n

-- What `sysctl_lookup` says of a request, with the value that it leaves in the variable it is given,
-- and whether a new value was passed.
pub data Lookup : Type 0 where
  fails : (error : ℕ) → Lookup
  reads : Lookup
  writes : (value : ℕ) → Lookup

pub data Result : Type 0 where
  ok : Result
  einval : Result
  failed : (error : ℕ) → Result

unfoldable pub sysctl_panel_notification_enabled : Lookup → Notification → Notification × Result
sysctl_panel_notification_enabled (fails error) n = (n, failed error)
sysctl_panel_notification_enabled reads n = (n, ok)
sysctl_panel_notification_enabled (writes value) n =
    if not (value == 0) && not (value == 1) then (n, einval) else (record n { enabled = value }, ok)

unfoldable pub sysctl_panel_client_pid : Lookup → Notification → Notification × Result
sysctl_panel_client_pid (fails error) n = (n, failed error)
sysctl_panel_client_pid reads n = (n, ok)
sysctl_panel_client_pid (writes value) n =
    if leb (2 ^ 31) value then (n, einval) else (record n { client_pid = value }, ok)
