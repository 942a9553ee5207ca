-- ===== src/Server/Panels.antt =====
-- The structs that the server reads out of its buffer depend only on their own bytes.
use udproxy.Base.{ℕ, ◌+◌, ◌≤◌, ◌≡◌, ◌∙◌, ap, sym, arith, Bool, true, List, [], ◌∷◌, replicate}
use udproxy.Base.Bytes.{window}
use udproxy.Layout.{CType, u32, u64, size, offset_of, from_bytes}
use udproxy.PanelState.{host, member, read_vax_panel, read_clockframe}
use udproxy.Server.Received.{window-window}

member-window :
    (packed : Bool) (before : List CType) (t : CType) (buffer : List ℕ) (base n : ℕ)
    → offset_of host packed before t + size host t ≤ n
    → member packed before t buffer base ≡ member packed before t (window buffer base n) 0
unfolding member
member-window packed before t buffer base n h = ap (from_bytes host) (
    sym (
      window-window buffer base n (0 + offset_of host packed before t) (size host t) (omega arith)
      ∙ ap (λ (o : ℕ). window buffer (base + o) (size host t)) {y = offset_of host packed before t}
          (omega arith)))

pub read_vax_panel-window :
    (buffer : List ℕ) (base : ℕ)
    → read_vax_panel buffer base ≡ read_vax_panel (window buffer base 8) 0
unfolding read_vax_panel
read_vax_panel-window buffer base = λ i. record {
  ps_address = member-window true [] u32 buffer base 8 (unfold offset_of size in omega arith) i;
  ps_data =
      member-window true (u32 ∷ []) u32 buffer base 8 (unfold offset_of size in omega arith) i;
}

pub read_clockframe-window :
    (buffer : List ℕ) (base : ℕ)
    → read_clockframe buffer base ≡ read_clockframe (window buffer base 208) 0
unfolding read_clockframe
read_clockframe-window buffer base = λ i. record {
  cf_rdi = reg 0 (unfold offset_of size in omega arith) i;
  cf_rsi = reg 1 (unfold offset_of size in omega arith) i;
  cf_rdx = reg 2 (unfold offset_of size in omega arith) i;
  cf_rcx = reg 3 (unfold offset_of size in omega arith) i;
  cf_r8 = reg 4 (unfold offset_of size in omega arith) i;
  cf_r9 = reg 5 (unfold offset_of size in omega arith) i;
  cf_r10 = reg 6 (unfold offset_of size in omega arith) i;
  cf_r11 = reg 7 (unfold offset_of size in omega arith) i;
  cf_r12 = reg 8 (unfold offset_of size in omega arith) i;
  cf_r13 = reg 9 (unfold offset_of size in omega arith) i;
  cf_r14 = reg 10 (unfold offset_of size in omega arith) i;
  cf_r15 = reg 11 (unfold offset_of size in omega arith) i;
  cf_rbp = reg 12 (unfold offset_of size in omega arith) i;
  cf_rbx = reg 13 (unfold offset_of size in omega arith) i;
  cf_rax = reg 14 (unfold offset_of size in omega arith) i;
  cf_gs = reg 15 (unfold offset_of size in omega arith) i;
  cf_fs = reg 16 (unfold offset_of size in omega arith) i;
  cf_es = reg 17 (unfold offset_of size in omega arith) i;
  cf_ds = reg 18 (unfold offset_of size in omega arith) i;
  cf_trapno = reg 19 (unfold offset_of size in omega arith) i;
  cf_err = reg 20 (unfold offset_of size in omega arith) i;
  cf_rip = reg 21 (unfold offset_of size in omega arith) i;
  cf_cs = reg 22 (unfold offset_of size in omega arith) i;
  cf_rflags = reg 23 (unfold offset_of size in omega arith) i;
  cf_rsp = reg 24 (unfold offset_of size in omega arith) i;
  cf_ss = reg 25 (unfold offset_of size in omega arith) i;
}
  where
    reg :
        (k : ℕ)
        → offset_of host true (replicate k u64) u64 + size host u64 ≤ 208
        → member true (replicate k u64) u64 buffer base
          ≡ member true (replicate k u64) u64 (window buffer base 208) 0
    reg k h = member-window true (replicate k u64) u64 buffer base 208 h
