-- ===== src/Client.antt =====
-- What the clients of socket/arch/ share: the output of a client, the shape of its send loop, and
-- the delays of socket/common.c.
pub mod Laws
use Prim.Native.String.{String}
use udproxy.Base.{ℕ, ◌*◌, ◌/◌, ◌%◌, Bool, true, false, List, [], ◌∷◌, ◌++◌}

abbrev pub frames_per_second : ℕ
frames_per_second = 60

abbrev pub usec_per_frame : ℕ
usec_per_frame = 1000000 / frames_per_second

-- What a client does outside itself: a datagram handed to `sendto` with success, a `printf` or
-- `fprintf` with its format and numbers, a delay in seconds and microseconds.
pub data Output : Type 0 where
  sent : List ℕ → Output
  note : String → List ℕ → Output
  slept : (sec usec : ℕ) → Output
  -- the system call `wait_for_panel`
  waited : Output

-- `select` with a timeout and no descriptors.
unfoldable pub precise_delay : ℕ → Output
precise_delay usec = slept (usec / 1000000) (usec % 1000000)

-- One round of a `while (1)` loop: it goes on, leaves the loop, or leaves the program by `exit(1)`.
pub data Step {ℓ} (S : Type ℓ) : Type ℓ where
  go : S → List Output → Step S
  stop : S → List Output → Step S
  quit : S → List Output → Step S

pub record Result {ℓ} (S : Type ℓ) : Type ℓ where
  pub state : S
  pub out : List Output
  pub ended : Bool
  pub exited : Bool

module _ {ℓ} {S : Type ℓ} where
  abbrev pub goes_on : Step S → Bool
  goes_on (go s os) = true
  goes_on (stop s os) = false
  goes_on (quit s os) = false

  abbrev pub state_of : Step S → S
  state_of (go s os) = s
  state_of (stop s os) = s
  state_of (quit s os) = s

  abbrev pub out_of : Step S → List Output
  out_of (go s os) = os
  out_of (stop s os) = os
  out_of (quit s os) = os

  abbrev pub follow : Step S → (S → Result S) → Result S
  follow (go s os) k =
      let r = k s in
      record { state = r.state; out = os ++ r.out; ended = r.ended; exited = r.exited }
  follow (stop s os) k = record { state = s; out = os; ended = true; exited = false }
  follow (quit s os) k = record { state = s; out = os; ended = true; exited = true }

module _ {ℓ κ} {S : Type ℓ} {R : Type κ} (round : S → R → Step S) where
  -- The loop over what its environment answers in each round.
  unfoldable pub loop : S → List R → Result S
  loop s [] = record { state = s; out = []; ended = false; exited = false }
  loop s (r ∷ rs) = follow (round s r) (λ s'. loop s' rs)

-- The datagrams among the outputs, in order.
unfoldable pub datagrams : List Output → List (List ℕ)
datagrams [] = []
datagrams (sent d ∷ os) = d ∷ datagrams os
datagrams (_ ∷ os) = datagrams os
