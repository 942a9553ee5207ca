-- ===== src/Generic.antt =====
-- The older client of socket/client.c, which sends the panel without a header. What the kernel's memory
-- or the kvm library and the socket answer comes from outside.
pub mod Main
pub mod Trace
use Prim.Native.String.{String}
use udproxy.Base.{
  ℕ, ◌+◌, ◌*◌, ◌/◌, ◌%◌, Bool, true, false, Option, none, some, List, [], ◌∷◌, ◌++◌, length,
  if◌then◌else◌, ◌==◌, not,
}
use udproxy.Client.{Output, sent, note, Step, go, stop, Result, loop, precise_delay}
use udproxy.NetBsdX64.{Kvm}

-- socket/client.c has a frame rate of its own, half that of socket/common.c.
abbrev pub frames_per_second : ℕ
frames_per_second = 30

abbrev pub usec_per_frame : ℕ
usec_per_frame = 1000000 / frames_per_second

-- How the panel is read: whether from /dev/kmem, by `lseek` and `read`, or by the kvm library.
pub data Source : Type 0 where
  kmem : Source
  kvm : Kvm → Source

-- What a read answers: whether `lseek` succeeds, and the bytes of `read` or `kvm_read`, `none` for an
-- error.
pub record Answer : Type 0 where
  pub lseek_ok : Bool
  pub read : Option (List ℕ)

-- The panel, `none` for -1, the static `first_read`, and what is printed.
pub record Read : Type 0 where
  pub panel : Option (List ℕ)
  pub first_read : Bool
  pub notes : List Output

unfoldable pub read_panel_from_kmem : (state_size : ℕ) → Bool → Answer → Read
read_panel_from_kmem state_size first_read a =
    let failure : String → Read =
      λ text. record { panel = none; first_read = first_read; notes = note text [] ∷ [] } in
    if not a.lseek_ok then failure "lseek" else elim a.read [
      | none ↦ failure "read"
      | some bytes ↦
          if not (length bytes == state_size)
          then failure "read"
          else record { panel = some bytes; first_read = first_read; notes = [] }
    ]

-- `fields` gives the address and the data of a panel.
unfoldable pub read_panel_from_kvm :
    (state_size : ℕ) (fields : List ℕ → ℕ × ℕ) → Kvm → Bool → Answer → Read
read_panel_from_kvm state_size fields k first_read a =
    let failure : String → Read =
      λ text. record { panel = none; first_read = first_read; notes = note text [] ∷ [] } in
    if not k.kd then failure "kvm not initialized\n" else elim a.read [
      | none ↦ failure "kvm_read: %s\n"
      | some bytes ↦ if not (length bytes == state_size) then failure "kvm_read: %s\n" else record {
        panel = some bytes;
        first_read = false;
        notes =
            if first_read
            then note "DEBUG: Reading from kernel address 0x%lx\n" (k.n_value ∷ [])
              ∷ note "DEBUG: Read %d bytes from kernel\n" (state_size ∷ [])
              ∷ note "DEBUG: Raw panel.ps_address = 0x%lx (CONTENTS of ps_address field)\n"
                  ((fields bytes).0 ∷ [])
              ∷ note "DEBUG: Raw panel.ps_data = 0x%lx (CONTENTS of ps_data field)\n"
                  ((fields bytes).1 ∷ [])
              ∷ []
            else [];
      }
    ]

pub record Sender : Type 0 where
  pub frame_count : ℕ
  pub first_read : Bool

pub record Round : Type 0 where
  pub answer : Answer
  pub send_ok : Bool

module _ (state_size : ℕ) (fields : List ℕ → ℕ × ℕ) (source : Source) where
  unfoldable pub read_panel : Bool → Answer → Read
  read_panel first_read a = elim source [
    | kmem ↦ read_panel_from_kmem state_size first_read a
    | kvm k ↦ read_panel_from_kvm state_size fields k first_read a
  ]

  unfoldable pub send_round : Sender → Round → Step Sender
  send_round s r =
      let got = read_panel s.first_read r.answer in
      elim got.panel [
        | none ↦
            stop (record s { first_read = got.first_read })
              (got.notes ++ (note "Failed to read panel data from kernel\n" [] ∷ []))
        | some panel ↦
            if not r.send_ok
            then stop (record s { first_read = got.first_read })
                (got.notes ++ (note "sendto" [] ∷ []))
            else go (record { frame_count = s.frame_count + 1; first_read = got.first_read })
                (got.notes
                  ++ (sent panel
                      ∷ ((if (s.frame_count + 1) % (frames_per_second * 1) == 0
                            then note
                                "Sent %d panel updates (CONTENTS: ps_address=0x%lx, ps_data=0x%x)\n"
                                ((s.frame_count + 1)
                                  ∷ (fields panel).0
                                  ∷ (fields panel).1 % 65536
                                  ∷ [])
                              ∷ []
                            else [])
                          ++ (precise_delay usec_per_frame ∷ []))))
      ]

  -- The loop of `send_frames`.
  unfoldable pub send_frames : Sender → List Round → Result Sender
  send_frames s rounds = loop send_round s rounds
