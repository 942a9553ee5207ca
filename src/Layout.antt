-- ===== src/Layout.antt =====
-- How a C compiler lays a struct out and stores its members: the part of the language that
-- panel_packet.h and the panel_state.h files of socket/ rely on.
pub mod Laws
use udproxy.Base.{
  ℕ, zero, suc, ◌+◌, ◌-◌, ◌*◌, ◌/◌, ◌%◌, Bool, true, false, ◌&&◌, List, [], ◌∷◌, ◌++◌, length, take,
  drop, if◌then◌else◌, ltb, ◌==◌,
}
use udproxy.Base.Bytes.{le_bytes, from_le, window}

-- The scalar types that the structs use. `short` and `long` are signed; a member is kept as the
-- unsigned number of its bit pattern.
pub data CType : Type 0 where
  u16 u32 u64 short long : CType

-- A target: the size of `long`, the largest alignment, and whether a 32-bit value is stored with
-- its high 16-bit word first (as 2.11BSD does on the PDP-11).
pub record Abi : Type 0 where
  pub long_size : ℕ
  pub max_align : ℕ
  pub high_word_first : Bool

-- The 64-bit hosts of the server (Linux and macOS), and of the x64 and ARM64 clients.
abbrev pub lp64 : Abi
lp64 = record { long_size = 8; max_align = 8; high_word_first = false }

abbrev pub pdp11 : Abi
pdp11 = record { long_size = 4; max_align = 2; high_word_first = true }

abbrev pub vax : Abi
vax = record { long_size = 4; max_align = 4; high_word_first = false }

unfoldable pub size : Abi → CType → ℕ
size a u16 = 2
size a u32 = 4
size a u64 = 8
size a short = 2
size a long = a.long_size

unfoldable pub align : Abi → CType → ℕ
unfolding size
align a t = if ltb (size a t) a.max_align then size a t else a.max_align

-- The least multiple of `a` that is at least `n`.
unfoldable pub round_up : ℕ → ℕ → ℕ
round_up n a = (n + a - 1) / a * a

-- `#pragma pack(1)` is `packed`: every alignment is then 1.
unfoldable pub member_align : Abi → Bool → CType → ℕ
unfolding align
member_align a packed t = if packed then 1 else align a t

unfoldable pub struct_align : Abi → Bool → List CType → ℕ
unfolding member_align
struct_align a packed [] = 1
struct_align a packed (t ∷ ts) =
    let rest = struct_align a packed ts in
    if ltb rest (member_align a packed t) then member_align a packed t else rest

-- The offset behind the last of the members, the first free byte being `off`.
unfoldable pub members_end : Abi → Bool → ℕ → List CType → ℕ
unfolding member_align round_up size
members_end a packed off [] = off
members_end a packed off (t ∷ ts) =
    members_end a packed (round_up off (member_align a packed t) + size a t) ts

unfoldable pub struct_size : Abi → Bool → List CType → ℕ
unfolding members_end struct_align round_up
struct_size a packed ts = round_up (members_end a packed 0 ts) (struct_align a packed ts)

-- The offset of the member behind the members `before`.
unfoldable pub offset_of : Abi → Bool → List CType → CType → ℕ
unfolding members_end member_align round_up
offset_of a packed before t = round_up (members_end a packed 0 before) (member_align a packed t)

-- An unsigned number of `w` bytes in memory.
unfoldable pub to_bytes : Abi → ℕ → ℕ → List ℕ
unfolding le_bytes
to_bytes a w v =
    if a.high_word_first && w == 4 then le_bytes 2 (v / 65536) ++ le_bytes 2 v else le_bytes w v

unfoldable pub from_bytes : Abi → List ℕ → ℕ
unfolding from_le
from_bytes a bytes =
    if a.high_word_first && length bytes == 4
    then from_le (take 2 bytes) * 65536 + from_le (drop 2 bytes)
    else from_le bytes

-- The member of type `t` at an offset of a buffer.
unfoldable pub load : Abi → CType → List ℕ → ℕ → ℕ
unfolding from_bytes window size
load a t buffer off = from_bytes a (window buffer off (size a t))
