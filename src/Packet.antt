-- ===== src/Packet.antt =====
-- The datagram: socket/panel_packet.h, the panel_state.h files of socket/arch/, and the panel types
-- of socket/common.c. A packet is the header, padding, and the panel's bytes.
pub mod Fields
use udproxy.Base.{ℕ, ◌+◌, Bool, true, false, List, [], ◌∷◌, ◌++◌, length, if◌then◌else◌, replicate}
use udproxy.Base.Bytes.{put}
use udproxy.Layout.{
  Abi, CType, u16, u32, u64, short, long, struct_align, struct_size, round_up, offset_of, to_bytes,
  size, members_end,
}

abbrev pub panel_pdp1170 : ℕ
panel_pdp1170 = 1

abbrev pub panel_vax : ℕ
panel_vax = 2

abbrev pub panel_netbsdx64 : ℕ
panel_netbsdx64 = 3

abbrev pub panel_macos : ℕ
panel_macos = 4

abbrev pub panel_linuxx64 : ℕ
panel_linuxx64 = 5

-- `struct panel_packet_header` is packed: pp_byte_count at 0, pp_byte_flags at 2.
abbrev pub header_members : List CType
header_members = u16 ∷ u32 ∷ []

unfoldable pub header_size : Abi → ℕ
unfolding struct_size
header_size a = struct_size a true header_members

unfoldable pub flags_offset : Abi → ℕ
unfolding offset_of
flags_offset a = offset_of a true (u16 ∷ []) u32

-- A panel's state struct, with the packing of the struct and of the packet around it.
pub record Shape : Type 0 where
  pub members : List CType
  pub packed_state : Bool
  pub packed_packet : Bool

abbrev pub pdp_shape : Shape
pdp_shape = record {
  members = long ∷ short ∷ short ∷ short ∷ short ∷ short ∷ short ∷ [];
  packed_state = false;
  packed_packet = false;
}

abbrev pub vax_shape : Shape
vax_shape = record { members = u32 ∷ u32 ∷ []; packed_state = true; packed_packet = false }

-- `struct clockframe`, 26 registers.
abbrev pub netbsdx64_shape : Shape
netbsdx64_shape = record { members = replicate 26 u64; packed_state = true; packed_packet = true }

abbrev pub macos_shape : Shape
macos_shape = record {
  members = replicate 6 u64 ++ replicate 6 u32;
  packed_state = false;
  packed_packet = false;
}

-- `struct pt_regs`, 21 registers.
abbrev pub linuxx64_shape : Shape
linuxx64_shape = record { members = replicate 21 u64; packed_state = false; packed_packet = false }

module _ (a : Abi) (s : Shape) where
  unfoldable pub state_size : ℕ
  unfolding struct_size
  state_size = struct_size a s.packed_state s.members

  -- `panel_state` in the packet struct; the header before it is packed and has alignment 1.
  unfoldable pub state_align : ℕ
  unfolding struct_align
  state_align = if s.packed_packet then 1 else struct_align a s.packed_state s.members

  unfoldable pub state_offset : ℕ
  unfolding state_align header_size round_up
  state_offset = round_up (header_size a) state_align

  unfoldable pub packet_size : ℕ
  unfolding state_align state_offset state_size round_up
  packet_size = round_up (state_offset + state_size) state_align

  -- The assignments to `packet` before a send. `packet` is a local variable whose other bytes, the
  -- padding, keep what the stack held.
  unfoldable pub populate : ℕ → List ℕ → List ℕ → List ℕ
  unfolding to_bytes put flags_offset state_size state_offset
  populate flags state packet =
      put (put (put packet 0 (to_bytes a 2 state_size)) (flags_offset a) (to_bytes a 4 flags))
        state_offset state
