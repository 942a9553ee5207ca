-- ===== src/LinuxX64/Client.antt =====
-- socket/arch/LinuxX64/client.c.
use udproxy.Base.{
  ℕ, zero, suc, ◌+◌, ◌*◌, ◌%◌, ◌^◌, Bool, true, false, Option, none, some, List, [], ◌∷◌, ◌++◌,
  length, get_or, if◌then◌else◌, ◌&&◌, ◌==◌, not,
}
use udproxy.Base.Bytes.{le_bytes}
use udproxy.Base.Text.{codes}
use udproxy.Layout.{lp64}
use udproxy.Packet.{linuxx64_shape, panel_linuxx64, populate}
use udproxy.PanelState.{PtRegs}
use udproxy.Scan.{match_literal, scan_ulong}
use udproxy.Client.{
  Output, sent, note, Step, go, stop, quit, Result, loop, precise_delay, frames_per_second,
  usec_per_frame,
}
use udproxy.LinuxX64.{labels}

-- `fgets` with a buffer of `left` + 1 characters: up to the first newline, which it keeps.
unfoldable pub fgets : ℕ → List ℕ → List ℕ
fgets zero text = []
fgets (suc left) [] = []
fgets (suc left) (c ∷ cs) = let rest = fgets left cs in if c == 10 then c ∷ [] else c ∷ rest

-- `strncmp` against a text, for as many characters as the text has.
unfoldable pub starts_with : List ℕ → List ℕ → Bool
starts_with [] text = true
starts_with (p ∷ ps) [] = false
starts_with (p ∷ ps) (c ∷ cs) = (p == c) && starts_with ps cs

-- The values that `sscanf` converts before its first failure.
unfoldable pub sscanf_fields : List (List ℕ) → List ℕ → List ℕ
sscanf_fields [] text = []
sscanf_fields (l ∷ ls) text = elim (match_literal l text) [
  | none ↦ []
  | some text' ↦ elim (scan_ulong 16 (2 ^ 64) text') [
    | none ↦ []
    | some (v, rest) ↦ v ∷ sscanf_fields ls rest
  ]
]

-- The registers that got a value are set; the others stay.
unfoldable pub set_regs : PtRegs → List ℕ → PtRegs
set_regs regs vs = record {
  r15 = get_or vs 16 regs.r15;
  r14 = get_or vs 15 regs.r14;
  r13 = get_or vs 14 regs.r13;
  r12 = get_or vs 13 regs.r12;
  rbp = get_or vs 2 regs.rbp;
  rbx = get_or vs 4 regs.rbx;
  r11 = get_or vs 12 regs.r11;
  r10 = get_or vs 11 regs.r10;
  r9 = get_or vs 10 regs.r9;
  r8 = get_or vs 9 regs.r8;
  rax = get_or vs 3 regs.rax;
  rcx = get_or vs 5 regs.rcx;
  rdx = get_or vs 6 regs.rdx;
  rsi = get_or vs 7 regs.rsi;
  rdi = get_or vs 8 regs.rdi;
  orig_rax = get_or vs 20 regs.orig_rax;
  rip = get_or vs 0 regs.rip;
  cs = get_or vs 18 regs.cs;
  eflags = get_or vs 17 regs.eflags;
  rsp = get_or vs 1 regs.rsp;
  ss = get_or vs 19 regs.ss;
}

pub data Capture : Type 0 where
  -- `exit(1)`, after the messages
  exits : List Output → Capture
  -- the result -1 and the panel it leaves, with a message or none
  retry : PtRegs → List Output → Capture
  captured : PtRegs → Capture

-- `file` is the content of /proc/panel_regs, `none` if it cannot be opened.
unfoldable pub capture_cpu_state : PtRegs → Option (List ℕ) → Capture
capture_cpu_state regs none = exits (
    note "Error: Cannot access /proc/panel_regs\n" []
    ∷ note "Please load the kernel module first: sudo make load\n" []
    ∷ [])
capture_cpu_state regs (some file) = elim (fgets 511 file) [
  | [] ↦ exits (note "Error: Could not read from /proc/panel_regs\n" [] ∷ [])
  | c ∷ cs ↦
      let buffer = c ∷ cs in
      let values = sscanf_fields labels buffer in
      if starts_with (codes "No register data captured yet") buffer
      then retry regs []
      else if not (length values == 21)
      then retry (set_regs regs values)
          (note "Error: Could not parse register data (got %d fields)\n" (length values ∷ []) ∷ [])
      else captured (set_regs regs values)
]

-- The variables of `send_frames`.
pub record Sender : Type 0 where
  pub panel : PtRegs
  pub packet : List ℕ
  pub frame_count : ℕ

pub record Round : Type 0 where
  pub file : Option (List ℕ)
  pub send_ok : Bool

unfoldable pub store_all : List ℕ → List ℕ
unfolding le_bytes
store_all [] = []
store_all (v ∷ vs) = le_bytes 8 v ++ store_all vs

-- The bytes of the panel: its members, of 8 bytes each, in the order of the struct.
unfoldable pub panel_bytes : PtRegs → List ℕ
panel_bytes r = store_all (
    r.r15 ∷ r.r14 ∷ r.r13 ∷ r.r12 ∷ r.rbp ∷ r.rbx ∷ r.r11 ∷ r.r10 ∷ r.r9 ∷ r.r8 ∷ r.rax ∷ r.rcx
    ∷ r.rdx ∷ r.rsi ∷ r.rdi ∷ r.orig_rax ∷ r.rip ∷ r.cs ∷ r.eflags ∷ r.rsp ∷ r.ss ∷ [])

unfoldable pub send_frame : Sender → PtRegs → Bool → Step Sender
send_frame s panel send_ok =
    let packet = populate lp64 linuxx64_shape panel_linuxx64 (panel_bytes panel) s.packet in
    let n = s.frame_count + 1 in
    if not send_ok
    then stop (record { panel = panel; packet = packet; frame_count = s.frame_count })
        (note "sendto" [] ∷ [])
    else go (record { panel = panel; packet = packet; frame_count = n })
        (sent packet
          ∷ ((if n % (frames_per_second * 2) == 0
                then note "Frame %d: RIP=0x%lx, RSP=0x%lx, RAX=0x%lx, RBX=0x%lx\n"
                    (n ∷ panel.rip ∷ panel.rsp ∷ panel.rax ∷ panel.rbx ∷ [])
                  ∷ []
                else [])
              ++ (precise_delay usec_per_frame ∷ [])))

unfoldable pub send_round : Sender → Round → Step Sender
send_round s r = elim (capture_cpu_state s.panel r.file) [
  | exits messages ↦ quit s messages
  | retry panel notes ↦
      go (record s { panel = panel }) (notes ++ (precise_delay usec_per_frame ∷ []))
  | captured panel ↦ send_frame s panel r.send_ok
]

unfoldable pub send_frames : Sender → List Round → Result Sender
send_frames s rounds = loop send_round s rounds
