-- ===== src/Display.antt =====
-- The display functions of socket/server.c. A printed line is a value of `Line` with the arguments
-- of the `printf` call; a `%s` argument is the text before the NUL of its array.
pub mod Binary
use Prim.Native.String.{String}
use udproxy.Base.{
  ℕ, zero, suc, ◌+◌, ◌-◌, ◌/◌, ◌%◌, ◌^◌, Bool, List, [], ◌∷◌, if◌then◌else◌, ltb, ◌==◌, set,
  replicate,
}
use udproxy.Base.Text.{c_string}
use udproxy.Packet.{panel_pdp1170, panel_vax, panel_netbsdx64, panel_macos, panel_linuxx64}
use udproxy.PanelState.{PdpPanelState, VaxPanelState, Clockframe, PtRegs, MacosPanelState}

-- Where a datagram came from: `inet_ntoa` and `ntohs` print these two numbers.
pub record Sender : Type 0 where
  pub addr : ℕ
  pub port : ℕ

pub data Line : Type 0 where
  -- "[%s] "
  type_tag : String → Line
  -- "PDP-11: ADDR: %s, DATA: %s, PSW: %s, MMR0: %s, MMR3: %s"
  pdp : (addr data_bin psw mmr0 mmr3 : List ℕ) → Line
  -- "VAX: ADDR: %s, DATA: %s"
  vax : (addr data_bin : List ℕ) → Line
  -- the escape sequence that clears the screen
  clear_screen : Line
  -- "%-6s= %016llx %s"
  reg : String → ℕ → List ℕ → Line
  -- "macOS (ARM64): PC: %s, SP: %s, CPU: %s%%, MEM: %s%%, LOAD: %.2f, THR: %d", the load in hundredths
  macos : (pc sp cpu mem : List ℕ) (load threads : ℕ) → Line
  -- "[Incomplete header: got %d bytes, expected at least %d]"
  incomplete : (got expected : ℕ) → Line
  -- "[Packet size mismatch: got %d bytes, expected %d from %s:%d]"
  mismatch : (got expected : ℕ) → Sender → Line
  -- "[Unknown panel type: 0x%08lx, %d bytes from %s:%d]"
  unknown : (flags count : ℕ) → Sender → Line
  -- "--- Received %d frames ---"
  received : ℕ → Line
  -- "recvfrom packet: ..."
  recv_failed : ℕ → Line
  -- "Total panel updates received: %d"
  total : ℕ → Line

-- The loop of both formatters with `i + 1` rounds left: bit `i` goes to index bits - 1 - i.
format_loop : ℕ → ℕ → ℕ → ℕ → List ℕ → List ℕ
format_loop mark value bits zero buffer = buffer
format_loop mark value bits (suc i) buffer =
    format_loop mark value bits i
      (set buffer (bits - 1 - i) (if value / 2 ^ i % 2 == 1 then mark else b'.'))

unfoldable pub format_binary : ℕ → ℕ → List ℕ → List ℕ
unfolding format_loop
format_binary value bits buffer = set (format_loop b'O' value bits bits buffer) bits 0

unfoldable pub format_binary64 : ℕ → ℕ → List ℕ → List ℕ
unfolding format_loop
format_binary64 value bits buffer = set (format_loop b'*' value bits bits buffer) bits 0

unfoldable pub get_panel_type_name : ℕ → String
get_panel_type_name flags =
    if flags == panel_pdp1170
    then "PDP-11/70"
    else if flags == panel_vax
    then "VAX"
    else if flags == panel_netbsdx64
    then "NetBSD x64"
    else if flags == panel_macos
    then "macOS"
    else if flags == panel_linuxx64
    then "Linux x64"
    else "Unknown"

-- A local `char` array. What it held before does not matter: see `Display.Binary`.
abbrev pub char_array : ℕ → List ℕ
char_array n = replicate n 0

-- A `short`, given as its bit pattern, as an argument of type `uint32_t`.
unfoldable pub short_to_uint32 : ℕ → ℕ
short_to_uint32 v = if ltb v 0x8000 then v else v + 0xffff0000

unfoldable pub display_pdp_panel : PdpPanelState → List Line
unfolding format_binary short_to_uint32 c_string
display_pdp_panel panel =
    let addr_bin = format_binary (panel.ps_address % 2 ^ 22) 22 (char_array 23) in
    let data_bin = format_binary (short_to_uint32 panel.ps_data) 16 (char_array 17) in
    let psw_bin = format_binary (short_to_uint32 panel.ps_psw) 16 (char_array 17) in
    let mmr0_bin = format_binary (short_to_uint32 panel.ps_mmr0) 16 (char_array 17) in
    let mmr3_bin = format_binary (short_to_uint32 panel.ps_mmr3) 16 (char_array 17) in
    pdp (c_string addr_bin) (c_string data_bin) (c_string psw_bin) (c_string mmr0_bin)
      (c_string mmr3_bin)
    ∷ []

-- `PRINT_REG`; `bin` is overwritten by each call.
print_reg : String → ℕ → Line
unfolding format_binary64 c_string
print_reg name val = reg name val (c_string (format_binary64 val 64 (char_array 65)))

unfoldable pub display_netbsdx64_panel : Clockframe → List Line
unfolding print_reg
display_netbsdx64_panel cf =
    clear_screen
    ∷ print_reg "ESP" cf.cf_rsp
    ∷ print_reg "EIP" cf.cf_rip
    ∷ print_reg "RAX" cf.cf_rax
    ∷ print_reg "RBX" cf.cf_rbx
    ∷ print_reg "RCX" cf.cf_rcx
    ∷ print_reg "RDX" cf.cf_rdx
    ∷ print_reg "RSI" cf.cf_rsi
    ∷ print_reg "RDI" cf.cf_rdi
    ∷ print_reg "RBP" cf.cf_rbp
    ∷ print_reg "R8" cf.cf_r8
    ∷ print_reg "R9" cf.cf_r9
    ∷ print_reg "R10" cf.cf_r10
    ∷ print_reg "R11" cf.cf_r11
    ∷ print_reg "R12" cf.cf_r12
    ∷ print_reg "R13" cf.cf_r13
    ∷ print_reg "R14" cf.cf_r14
    ∷ print_reg "R15" cf.cf_r15
    ∷ print_reg "FLAGS" cf.cf_rflags
    ∷ print_reg "CS" cf.cf_cs
    ∷ print_reg "SS" cf.cf_ss
    ∷ print_reg "GS" cf.cf_gs
    ∷ print_reg "FS" cf.cf_fs
    ∷ print_reg "ES" cf.cf_es
    ∷ print_reg "DS" cf.cf_ds
    ∷ print_reg "TRAPNO" cf.cf_trapno
    ∷ print_reg "ERR" cf.cf_err
    ∷ []

unfoldable pub display_linuxx64_panel : PtRegs → List Line
unfolding print_reg
display_linuxx64_panel regs =
    clear_screen
    ∷ print_reg "RSP" regs.rsp
    ∷ print_reg "RIP" regs.rip
    ∷ print_reg "RAX" regs.rax
    ∷ print_reg "RBX" regs.rbx
    ∷ print_reg "RCX" regs.rcx
    ∷ print_reg "RDX" regs.rdx
    ∷ print_reg "RSI" regs.rsi
    ∷ print_reg "RDI" regs.rdi
    ∷ print_reg "RBP" regs.rbp
    ∷ print_reg "R8" regs.r8
    ∷ print_reg "R9" regs.r9
    ∷ print_reg "R10" regs.r10
    ∷ print_reg "R11" regs.r11
    ∷ print_reg "R12" regs.r12
    ∷ print_reg "R13" regs.r13
    ∷ print_reg "R14" regs.r14
    ∷ print_reg "R15" regs.r15
    ∷ print_reg "FLAGS" regs.eflags
    ∷ print_reg "CS" regs.cs
    ∷ print_reg "SS" regs.ss
    ∷ print_reg "ORIGAX" regs.orig_rax
    ∷ []

unfoldable pub display_vax_panel : VaxPanelState → List Line
unfolding format_binary c_string
display_vax_panel panel =
    let addr_bin = format_binary panel.ps_address 32 (char_array 33) in
    let data_bin = format_binary panel.ps_data 16 (char_array 17) in
    vax (c_string addr_bin) (c_string data_bin) ∷ []

unfoldable pub display_macos_panel : MacosPanelState → List Line
unfolding format_binary c_string
display_macos_panel panel =
    let pc_bin = format_binary (panel.pc % 2 ^ 32) 32 (char_array 33) in
    let sp_bin = format_binary (panel.sp % 2 ^ 32) 32 (char_array 33) in
    let cpu_bin = format_binary panel.cpu_usage 7 (char_array 8) in
    let mem_bin = format_binary panel.memory_usage 7 (char_array 8) in
    macos (c_string pc_bin) (c_string sp_bin) (c_string cpu_bin) (c_string mem_bin)
      panel.load_average panel.thread_count
    ∷ []
