-- ===== src/PanelState.antt =====
-- The panel states as the server's C code sees them: the structs of the panel_state.h files of
-- socket/arch/, read out of a byte buffer by the layout of the server's host.
use udproxy.Base.{ℕ, ◌+◌, List, [], ◌∷◌, ◌++◌, replicate, Bool, true, false}
use udproxy.Layout.{Abi, lp64, CType, u32, u64, short, long, load, offset_of}

-- The server runs on a 64-bit host.
abbrev pub host : Abi
host = lp64

-- The member behind the members `before` of a struct that starts at `base`.
unfoldable pub member : Bool → List CType → CType → List ℕ → ℕ → ℕ
unfolding load offset_of
member packed before t buffer base = load host t buffer (base + offset_of host packed before t)

pub record PdpPanelState : Type 0 where
  pub ps_address : ℕ
  pub ps_data : ℕ
  pub ps_psw : ℕ
  pub ps_mser : ℕ
  pub ps_cpu_err : ℕ
  pub ps_mmr0 : ℕ
  pub ps_mmr3 : ℕ

unfoldable pub read_pdp_panel : List ℕ → ℕ → PdpPanelState
unfolding member
read_pdp_panel buffer base = record {
  ps_address = member false [] long buffer base;
  ps_data = member false (long ∷ replicate 0 short) short buffer base;
  ps_psw = member false (long ∷ replicate 1 short) short buffer base;
  ps_mser = member false (long ∷ replicate 2 short) short buffer base;
  ps_cpu_err = member false (long ∷ replicate 3 short) short buffer base;
  ps_mmr0 = member false (long ∷ replicate 4 short) short buffer base;
  ps_mmr3 = member false (long ∷ replicate 5 short) short buffer base;
}

pub record VaxPanelState : Type 0 where
  pub ps_address : ℕ
  pub ps_data : ℕ

unfoldable pub read_vax_panel : List ℕ → ℕ → VaxPanelState
unfolding member
read_vax_panel buffer base = record {
  ps_address = member true [] u32 buffer base;
  ps_data = member true (u32 ∷ []) u32 buffer base;
}

pub record Clockframe : Type 0 where
  pub cf_rdi : ℕ
  pub cf_rsi : ℕ
  pub cf_rdx : ℕ
  pub cf_rcx : ℕ
  pub cf_r8 : ℕ
  pub cf_r9 : ℕ
  pub cf_r10 : ℕ
  pub cf_r11 : ℕ
  pub cf_r12 : ℕ
  pub cf_r13 : ℕ
  pub cf_r14 : ℕ
  pub cf_r15 : ℕ
  pub cf_rbp : ℕ
  pub cf_rbx : ℕ
  pub cf_rax : ℕ
  pub cf_gs : ℕ
  pub cf_fs : ℕ
  pub cf_es : ℕ
  pub cf_ds : ℕ
  pub cf_trapno : ℕ
  pub cf_err : ℕ
  pub cf_rip : ℕ
  pub cf_cs : ℕ
  pub cf_rflags : ℕ
  pub cf_rsp : ℕ
  pub cf_ss : ℕ

unfoldable pub read_clockframe : List ℕ → ℕ → Clockframe
unfolding member
read_clockframe buffer base = record {
  cf_rdi = member true (replicate 0 u64) u64 buffer base;
  cf_rsi = member true (replicate 1 u64) u64 buffer base;
  cf_rdx = member true (replicate 2 u64) u64 buffer base;
  cf_rcx = member true (replicate 3 u64) u64 buffer base;
  cf_r8 = member true (replicate 4 u64) u64 buffer base;
  cf_r9 = member true (replicate 5 u64) u64 buffer base;
  cf_r10 = member true (replicate 6 u64) u64 buffer base;
  cf_r11 = member true (replicate 7 u64) u64 buffer base;
  cf_r12 = member true (replicate 8 u64) u64 buffer base;
  cf_r13 = member true (replicate 9 u64) u64 buffer base;
  cf_r14 = member true (replicate 10 u64) u64 buffer base;
  cf_r15 = member true (replicate 11 u64) u64 buffer base;
  cf_rbp = member true (replicate 12 u64) u64 buffer base;
  cf_rbx = member true (replicate 13 u64) u64 buffer base;
  cf_rax = member true (replicate 14 u64) u64 buffer base;
  cf_gs = member true (replicate 15 u64) u64 buffer base;
  cf_fs = member true (replicate 16 u64) u64 buffer base;
  cf_es = member true (replicate 17 u64) u64 buffer base;
  cf_ds = member true (replicate 18 u64) u64 buffer base;
  cf_trapno = member true (replicate 19 u64) u64 buffer base;
  cf_err = member true (replicate 20 u64) u64 buffer base;
  cf_rip = member true (replicate 21 u64) u64 buffer base;
  cf_cs = member true (replicate 22 u64) u64 buffer base;
  cf_rflags = member true (replicate 23 u64) u64 buffer base;
  cf_rsp = member true (replicate 24 u64) u64 buffer base;
  cf_ss = member true (replicate 25 u64) u64 buffer base;
}

pub record PtRegs : Type 0 where
  pub r15 : ℕ
  pub r14 : ℕ
  pub r13 : ℕ
  pub r12 : ℕ
  pub rbp : ℕ
  pub rbx : ℕ
  pub r11 : ℕ
  pub r10 : ℕ
  pub r9 : ℕ
  pub r8 : ℕ
  pub rax : ℕ
  pub rcx : ℕ
  pub rdx : ℕ
  pub rsi : ℕ
  pub rdi : ℕ
  pub orig_rax : ℕ
  pub rip : ℕ
  pub cs : ℕ
  pub eflags : ℕ
  pub rsp : ℕ
  pub ss : ℕ

unfoldable pub read_pt_regs : List ℕ → ℕ → PtRegs
unfolding member
read_pt_regs buffer base = record {
  r15 = member false (replicate 0 u64) u64 buffer base;
  r14 = member false (replicate 1 u64) u64 buffer base;
  r13 = member false (replicate 2 u64) u64 buffer base;
  r12 = member false (replicate 3 u64) u64 buffer base;
  rbp = member false (replicate 4 u64) u64 buffer base;
  rbx = member false (replicate 5 u64) u64 buffer base;
  r11 = member false (replicate 6 u64) u64 buffer base;
  r10 = member false (replicate 7 u64) u64 buffer base;
  r9 = member false (replicate 8 u64) u64 buffer base;
  r8 = member false (replicate 9 u64) u64 buffer base;
  rax = member false (replicate 10 u64) u64 buffer base;
  rcx = member false (replicate 11 u64) u64 buffer base;
  rdx = member false (replicate 12 u64) u64 buffer base;
  rsi = member false (replicate 13 u64) u64 buffer base;
  rdi = member false (replicate 14 u64) u64 buffer base;
  orig_rax = member false (replicate 15 u64) u64 buffer base;
  rip = member false (replicate 16 u64) u64 buffer base;
  cs = member false (replicate 17 u64) u64 buffer base;
  eflags = member false (replicate 18 u64) u64 buffer base;
  rsp = member false (replicate 19 u64) u64 buffer base;
  ss = member false (replicate 20 u64) u64 buffer base;
}

pub record MacosPanelState : Type 0 where
  pub pc : ℕ
  pub sp : ℕ
  pub fp : ℕ
  pub lr : ℕ
  pub x0 : ℕ
  pub x1 : ℕ
  pub cpu_usage : ℕ
  pub memory_usage : ℕ
  pub load_average : ℕ
  pub thread_count : ℕ
  pub architecture : ℕ
  pub timestamp : ℕ

unfoldable pub read_macos_panel : List ℕ → ℕ → MacosPanelState
unfolding member
read_macos_panel buffer base = record {
  pc = member false (replicate 0 u64) u64 buffer base;
  sp = member false (replicate 1 u64) u64 buffer base;
  fp = member false (replicate 2 u64) u64 buffer base;
  lr = member false (replicate 3 u64) u64 buffer base;
  x0 = member false (replicate 4 u64) u64 buffer base;
  x1 = member false (replicate 5 u64) u64 buffer base;
  cpu_usage = member false (replicate 6 u64 ++ replicate 0 u32) u32 buffer base;
  memory_usage = member false (replicate 6 u64 ++ replicate 1 u32) u32 buffer base;
  load_average = member false (replicate 6 u64 ++ replicate 2 u32) u32 buffer base;
  thread_count = member false (replicate 6 u64 ++ replicate 3 u32) u32 buffer base;
  architecture = member false (replicate 6 u64 ++ replicate 4 u32) u32 buffer base;
  timestamp = member false (replicate 6 u64 ++ replicate 5 u32) u32 buffer base;
}
