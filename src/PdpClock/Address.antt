-- ===== src/PdpClock/Address.antt =====
-- `decode_phys_addr`: the physical address of the program counter, as the panel shows it.
pub mod Mmu
use Prim.Native.Nat.{bit_or}
use udproxy.Base.{ℕ, ◌+◌, ◌*◌, ◌/◌, ◌%◌, ◌^◌, Option, none, some, if◌then◌else◌, ◌==◌}

-- The index of the register that the mode selects, `none` for the mode that is unknown.
unfoldable pub apr_index : (pc ps : ℕ) → Option ℕ
apr_index pc ps =
    let mode = ps / 2 ^ 14 % 4 in
    let segnum = pc / 2 ^ 13 % 8 in
    if mode == 0
    then some segnum
    else if mode == 1
    then some (8 + segnum)
    else if mode == 3
    then some (8 + segnum)
    else none

-- `(seg_base << 6) | offset`, masked with 07777777.
unfoldable pub combine : (seg_reg offset : ℕ) → ℕ
combine seg_reg offset = bit_or (seg_reg * 64) offset % 2 ^ 21

-- `apr_regs` is what the registers at 0172300 hold, 16 bits each. APR_MASK is 077777 and OFFSET_MASK
-- is 07777.
unfoldable pub decode_phys_addr : (apr_regs : ℕ → ℕ) (pc ps : ℕ) → ℕ
decode_phys_addr apr_regs pc ps = elim (apr_index pc ps) [
  | none ↦ 0
  | some i ↦ combine (apr_regs i % 2 ^ 15) (pc % 4096)
]
