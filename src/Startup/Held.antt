-- ===== src/Startup/Held.antt =====
-- What a program holds after its calls.
use udproxy.Base.{Bool, true, false, List, [], ◌∷◌}
use udproxy.Startup.{
  Resource, socket, kmem, kvm, queue, pipe, Call, opens, closes, says, runs, overruns, Program,
  exits, loops,
}

unfoldable pub same : Resource → Resource → Bool
same socket socket = true
same kmem kmem = true
same kvm kvm = true
same queue queue = true
same pipe pipe = true
same _ _ = false

module _ {ℓ} {A : Type ℓ} where
  -- Whether `r` is open after the calls; `was` tells whether it was before.
  unfoldable pub held : Resource → Bool → List (Call A) → Bool
  held r was [] = was
  held r was (opens q ∷ cs) = elim (same r q) [ true ↦ held r true cs | false ↦ held r was cs ]
  held r was (closes q ∷ cs) = elim (same r q) [ true ↦ held r false cs | false ↦ held r was cs ]
  held r was (says text ∷ cs) = held r was cs
  held r was (runs trace ∷ cs) = held r was cs
  held r was (overruns ∷ cs) = held r was cs

  -- Whether a program that has left still holds `r`.
  unfoldable pub leaks : Resource → Program A → Bool
  unfolding held same
  leaks r (exits code cs) = held r false cs
  leaks r (loops cs) = false
