-- ===== src/Symbols/Held.antt =====
-- What the searches for the panel leave open.
use udproxy.Base.{ℕ, ◌≡◌, ◌≢◌, arith, Bool, true, false, Option, none, some, List}
use udproxy.Client.{Output}
use udproxy.Startup.{kmem, pipe}
use udproxy.Startup.Held.{held, same}
use udproxy.Symbols.{Files, find_panel, beyond, pdp_open_kmem, open_kmem, open_memory}

abbrev pub is_some {ℓ} : {A : Type ℓ} → Option A → Bool
is_some none = false
is_some (some _) = true

-- The searches of socket/client.c and of the 2.11BSD client, if no symbol is written beyond its array
-- and whatever else the files answer: the pipe to `nm` is closed, and the kernel's memory is open exactly if the search succeeds.
pub open_kmem-held :
    (limit : ℕ) (f : Files)
    → find_panel limit f.lines ≢ beyond
    → find_panel 4294967296 f.lines ≢ beyond
    → let made = open_kmem {A = List Output} limit f in
      let pdp = pdp_open_kmem {A = List Output} f in
      (held pipe false made.calls ≡ false)
      × (held kmem false made.calls ≡ is_some made.result)
      × (held pipe false pdp.calls ≡ false)
      × (held kmem false pdp.calls ≡ is_some pdp.result)
unfolding open_kmem pdp_open_kmem open_memory held same
open_kmem-held limit f h h' = ground arith
