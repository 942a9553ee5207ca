-- ===== src/NetBsdClock/Registration.antt =====
-- What `initclocks` registers, and `panel_notification_init`: sysctl nodes, the time counter and the
-- sources of randomness. The kernel's answer to the creation of the node `panel` is an argument.
use udproxy.Base.{
  ℕ, ◌≡◌, refl, Bool, true, false, List, [], ◌∷◌, ◌++◌, if◌then◌else◌, ◌==◌, Bool-cases, inl, inr,
}

-- A node, by its name; `panel_node` is the parent of the two behind it.
pub data Node : Type 0 where
  clockrate : Node
  hardclock_ticks : Node
  panel_node : Node
  enabled : Node
  client_pid : Node

pub data Registration : Type 0 where
  tc_init : (frequency : ℕ) → Registration
  sysctl_createv : Node → Registration
  rnd_hardclock : Registration
  rnd_statclock : Registration

unfoldable pub panel_notification_init : (error : ℕ) → List Registration
panel_notification_init error =
    sysctl_createv panel_node
    ∷ (if error == 0 then sysctl_createv enabled ∷ sysctl_createv client_pid ∷ [] else [])

-- The two nodes of the clocks.
abbrev clock_nodes : List Registration
clock_nodes = sysctl_createv clockrate ∷ sysctl_createv hardclock_ticks ∷ []

-- The sources of randomness: one for each clock.
unfoldable pub rnd_sources : (stathz : ℕ) → List Registration
rnd_sources stathz = rnd_hardclock ∷ (if stathz == 0 then [] else rnd_statclock ∷ [])

-- On x64, where `initclocks` does not panic.
unfoldable pub registered : (hz stathz : ℕ) → List Registration
registered hz stathz = tc_init hz ∷ clock_nodes ++ rnd_sources stathz

-- On the VAX.
unfoldable pub registered_vax : (error hz stathz : ℕ) → List Registration
registered_vax error hz stathz =
    tc_init hz ∷ clock_nodes ++ panel_notification_init error ++ rnd_sources stathz

-- Whether a node is among them.
unfoldable pub has_client_pid : List Registration → Bool
has_client_pid [] = false
has_client_pid (sysctl_createv client_pid ∷ rs) = true
has_client_pid (r ∷ rs) = has_client_pid rs

sources_no_pid : (stathz : ℕ) → has_client_pid (rnd_sources stathz) ≡ false
unfolding has_client_pid rnd_sources
sources_no_pid stathz = elim (Bool-cases (stathz == 0)) [ inl e ↦ rw e refl | inr e ↦ rw e refl ]

-- On the VAX the client's number can be set exactly if the kernel created the node above it.
pub registered_vax-has_client_pid :
    (error hz stathz : ℕ) → has_client_pid (registered_vax error hz stathz) ≡ (error == 0)
unfolding has_client_pid registered_vax panel_notification_init rnd_sources
registered_vax-has_client_pid error hz stathz = elim (Bool-cases (error == 0)) [
  | inl e ↦ rw e refl
  | inr e ↦ rw e (sources_no_pid stathz)
]
