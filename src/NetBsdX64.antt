-- ===== src/NetBsdX64.antt =====
-- The client of socket/arch/NetBSDx64/client.c. The kvm library and the socket answer from outside:
-- their answers are arguments.
pub mod Trace
pub mod EndToEnd
pub mod Main
use Prim.Native.String.{String}
use udproxy.Base.{
  ℕ, ◌+◌, ◌*◌, ◌%◌, Bool, true, false, Option, none, some, List, [], ◌∷◌, ◌++◌, length,
  if◌then◌else◌, leb, ◌==◌, not,
}
use udproxy.Layout.{lp64}
use udproxy.Packet.{netbsdx64_shape, panel_netbsdx64, state_size, packet_size, populate}
use udproxy.PanelState.{Clockframe, read_clockframe}
use udproxy.Client.{
  Output, sent, note, Step, go, stop, Result, loop, precise_delay, frames_per_second,
  usec_per_frame,
}

-- `kd` and `nl[0].n_value`.
pub record Kvm : Type 0 where
  pub kd : Bool
  pub n_value : ℕ

-- The answers of `kvm_open` (whether it opened), `kvm_nlist` (whether it returned 0, and the symbol's value).
pub record KvmAnswers : Type 0 where
  pub opens : Bool
  pub nlist_zero : Bool
  pub value : ℕ

-- Calls that open and close the kvm descriptor.
pub data KvmCall : Type 0 where
  kvm_open kvm_close : KvmCall

pub record Opened : Type 0 where
  pub kvm : Kvm
  pub found : Bool
  pub calls : List KvmCall

unfoldable pub open_kvm_and_find_panel : KvmAnswers → Opened
open_kvm_and_find_panel a =
    let closed : Kvm = record { kd = false; n_value = a.value } in
    if not a.opens
    then record { kvm = record { kd = false; n_value = 0 }; found = false; calls = [] }
    else if not a.nlist_zero
    then record { kvm = closed; found = false; calls = kvm_open ∷ kvm_close ∷ [] }
    else if a.value == 0
    then record { kvm = closed; found = false; calls = kvm_open ∷ kvm_close ∷ [] }
    else record {
      kvm = record { kd = true; n_value = a.value };
      found = true;
      calls = kvm_open ∷ [];
    }

-- What `read_panel_from_kvm` leaves: `none` for its result -1, or the panel; and `first_read`.
pub record Read : Type 0 where
  pub panel : Option (List ℕ)
  pub first_read : Bool
  pub notes : List Output

-- `answer` holds the bytes that `kvm_read` delivered, `none` if it failed.
unfoldable pub read_panel_from_kvm : Kvm → Bool → Option (List ℕ) → Read
unfolding read_clockframe state_size
read_panel_from_kvm k first_read answer =
    let failure : String → Read =
      λ text. record { panel = none; first_read = first_read; notes = note text [] ∷ [] } in
    if not k.kd then failure "kvm not initialized\n" else elim answer [
      | none ↦ failure "kvm_read: %s\n"
      | some bytes ↦
          if not (length bytes == state_size lp64 netbsdx64_shape)
          then failure "kvm_read: %s\n"
          else record {
            panel = some bytes;
            first_read = false;
            notes =
                if first_read
                then note "DEBUG: Reading from kernel address 0x%lx\n" (k.n_value ∷ [])
                  ∷ note "DEBUG: Read %d bytes from kernel\n" (length bytes ∷ [])
                  ∷ note "DEBUG: Raw panel.ps_frame.cf_rip = 0x%lx (CONTENTS of cf_rip field)\n"
                      ((read_clockframe bytes 0).cf_rip ∷ [])
                  ∷ note "DEBUG: Raw panel.ps_frame.cf_rsp = 0x%lx (CONTENTS of cf_rsp field)\n"
                      ((read_clockframe bytes 0).cf_rsp ∷ [])
                  ∷ []
                else [];
          }
    ]

-- The variables of `send_frames` and the static of `read_panel_from_kvm`. `packet` starts as what the
-- stack held.
pub record Sender : Type 0 where
  pub packet : List ℕ
  pub frame_count : ℕ
  pub first_read : Bool

-- What the environment answers in one round: `kvm_read`, and whether `sendto` succeeds.
pub record Round : Type 0 where
  pub kvm_read : Option (List ℕ)
  pub send_ok : Bool

-- The reports after a send.
unfoldable pub reports : ℕ → List ℕ → List Output
unfolding read_clockframe packet_size
reports n panel =
    let frame = read_clockframe panel 0 in
    (if n % (frames_per_second * 1) == 0
      then note "Sent %d panel updates (cf_rip=0x%lx, cf_rsp=0x%lx)\n"
          (n ∷ frame.cf_rip ∷ frame.cf_rsp ∷ [])
        ∷ []
      else [])
    ++ (if leb n 5
        then note "DEBUG: Sent packet #%d, size=%d bytes\n"
            (n ∷ packet_size lp64 netbsdx64_shape ∷ [])
          ∷ (if n == 1
              then note "DEBUG: Panel contents - cf_rip=0x%lx, cf_rsp=0x%lx\n"
                  (frame.cf_rip ∷ frame.cf_rsp ∷ [])
                ∷ []
              else [])
        else [])

unfoldable pub send_frame : Sender → Bool → List ℕ → Bool → List Output → Step Sender
unfolding populate reports precise_delay
send_frame s first_read panel send_ok notes =
    let packet = populate lp64 netbsdx64_shape panel_netbsdx64 panel s.packet in
    if not send_ok
    then stop (record { packet = packet; frame_count = s.frame_count; first_read = first_read })
        (notes ++ (note "sendto" [] ∷ []))
    else go (record { packet = packet; frame_count = s.frame_count + 1; first_read = first_read })
        (notes
          ++ (sent packet
              ∷ (reports (s.frame_count + 1) panel ++ (precise_delay usec_per_frame ∷ []))))

unfoldable pub send_round : Kvm → Sender → Round → Step Sender
send_round k s r =
    let got = read_panel_from_kvm k s.first_read r.kvm_read in
    elim got.panel [
      | none ↦
          stop (record s { first_read = got.first_read })
            (got.notes ++ (note "Failed to read panel data from kernel\n" [] ∷ []))
      | some panel ↦ send_frame s got.first_read panel r.send_ok got.notes
    ]

unfoldable pub send_frames : Kvm → Sender → List Round → Result Sender
send_frames k s rounds = loop (send_round k) s rounds
