-- ===== src/Server/Stale.antt =====
-- A datagram that is a header alone.
use udproxy.Base.{
  ℕ, ◌+◌, ◌≤◌, ◌≡◌, ◌∙◌, ap, arith, Bool, true, false, List, [], ◌∷◌, ◌++◌, replicate, length, take,
  take_all,
}
use udproxy.Base.Bytes.{put, window, from_le}
use udproxy.Layout.{CType, u32, u64, short, long, size, load, offset_of, from_bytes}
use udproxy.Packet.{
  pdp_shape, vax_shape, netbsdx64_shape, macos_shape, linuxx64_shape, state_offset,
}
use udproxy.PanelState.{
  host, member, read_pdp_panel, read_vax_panel, read_clockframe, read_pt_regs, read_macos_panel,
}
use udproxy.Display.{Sender}
use udproxy.Server.{Server, datagram, buffer_size, count_frame, process, serve_once}
use udproxy.Server.Delivery.{check_packet_lem, load_count, load_flags}
use udproxy.Server.Received.{window-received, window-kept}

module _ (s : Server) (bytes : List ℕ) (header_only : length bytes ≡ 6)
    (sized : length s.buffer ≡ buffer_size) where
  abbrev after : List ℕ
  after = put s.buffer 0 (take buffer_size bytes)

  length-taken : length (take buffer_size bytes) ≡ 6
  length-taken = ap length (take_all buffer_size bytes (omega arith)) ∙ header_only

  member-kept :
      (packed : Bool) (before : List CType) (t : CType) (base : ℕ)
      → 6 ≤ base
      → member packed before t after base ≡ member packed before t s.buffer base
  unfolding member load
  member-kept packed before t base h = ap (from_bytes host) (
      window-kept s.buffer bytes sized (base + offset_of host packed before t) (size host t)
        (omega (arith, length-taken)))

  pdp_panel-kept : (base : ℕ) → 6 ≤ base → read_pdp_panel after base ≡ read_pdp_panel s.buffer base
  unfolding read_pdp_panel
  pdp_panel-kept base h = λ i. record {
    ps_address = member-kept false [] long base h i;
    ps_data = member-kept false (long ∷ replicate 0 short) short base h i;
    ps_psw = member-kept false (long ∷ replicate 1 short) short base h i;
    ps_mser = member-kept false (long ∷ replicate 2 short) short base h i;
    ps_cpu_err = member-kept false (long ∷ replicate 3 short) short base h i;
    ps_mmr0 = member-kept false (long ∷ replicate 4 short) short base h i;
    ps_mmr3 = member-kept false (long ∷ replicate 5 short) short base h i;
  }

  vax_panel-kept : (base : ℕ) → 6 ≤ base → read_vax_panel after base ≡ read_vax_panel s.buffer base
  unfolding read_vax_panel
  vax_panel-kept base h = λ i. record {
    ps_address = member-kept true [] u32 base h i;
    ps_data = member-kept true (u32 ∷ []) u32 base h i;
  }

  clockframe-kept :
      (base : ℕ) → 6 ≤ base → read_clockframe after base ≡ read_clockframe s.buffer base
  unfolding read_clockframe
  clockframe-kept base h = λ i. record {
    cf_rdi = member-kept true (replicate 0 u64) u64 base h i;
    cf_rsi = member-kept true (replicate 1 u64) u64 base h i;
    cf_rdx = member-kept true (replicate 2 u64) u64 base h i;
    cf_rcx = member-kept true (replicate 3 u64) u64 base h i;
    cf_r8 = member-kept true (replicate 4 u64) u64 base h i;
    cf_r9 = member-kept true (replicate 5 u64) u64 base h i;
    cf_r10 = member-kept true (replicate 6 u64) u64 base h i;
    cf_r11 = member-kept true (replicate 7 u64) u64 base h i;
    cf_r12 = member-kept true (replicate 8 u64) u64 base h i;
    cf_r13 = member-kept true (replicate 9 u64) u64 base h i;
    cf_r14 = member-kept true (replicate 10 u64) u64 base h i;
    cf_r15 = member-kept true (replicate 11 u64) u64 base h i;
    cf_rbp = member-kept true (replicate 12 u64) u64 base h i;
    cf_rbx = member-kept true (replicate 13 u64) u64 base h i;
    cf_rax = member-kept true (replicate 14 u64) u64 base h i;
    cf_gs = member-kept true (replicate 15 u64) u64 base h i;
    cf_fs = member-kept true (replicate 16 u64) u64 base h i;
    cf_es = member-kept true (replicate 17 u64) u64 base h i;
    cf_ds = member-kept true (replicate 18 u64) u64 base h i;
    cf_trapno = member-kept true (replicate 19 u64) u64 base h i;
    cf_err = member-kept true (replicate 20 u64) u64 base h i;
    cf_rip = member-kept true (replicate 21 u64) u64 base h i;
    cf_cs = member-kept true (replicate 22 u64) u64 base h i;
    cf_rflags = member-kept true (replicate 23 u64) u64 base h i;
    cf_rsp = member-kept true (replicate 24 u64) u64 base h i;
    cf_ss = member-kept true (replicate 25 u64) u64 base h i;
  }

  pt_regs-kept : (base : ℕ) → 6 ≤ base → read_pt_regs after base ≡ read_pt_regs s.buffer base
  unfolding read_pt_regs
  pt_regs-kept base h = λ i. record {
    r15 = member-kept false (replicate 0 u64) u64 base h i;
    r14 = member-kept false (replicate 1 u64) u64 base h i;
    r13 = member-kept false (replicate 2 u64) u64 base h i;
    r12 = member-kept false (replicate 3 u64) u64 base h i;
    rbp = member-kept false (replicate 4 u64) u64 base h i;
    rbx = member-kept false (replicate 5 u64) u64 base h i;
    r11 = member-kept false (replicate 6 u64) u64 base h i;
    r10 = member-kept false (replicate 7 u64) u64 base h i;
    r9 = member-kept false (replicate 8 u64) u64 base h i;
    r8 = member-kept false (replicate 9 u64) u64 base h i;
    rax = member-kept false (replicate 10 u64) u64 base h i;
    rcx = member-kept false (replicate 11 u64) u64 base h i;
    rdx = member-kept false (replicate 12 u64) u64 base h i;
    rsi = member-kept false (replicate 13 u64) u64 base h i;
    rdi = member-kept false (replicate 14 u64) u64 base h i;
    orig_rax = member-kept false (replicate 15 u64) u64 base h i;
    rip = member-kept false (replicate 16 u64) u64 base h i;
    cs = member-kept false (replicate 17 u64) u64 base h i;
    eflags = member-kept false (replicate 18 u64) u64 base h i;
    rsp = member-kept false (replicate 19 u64) u64 base h i;
    ss = member-kept false (replicate 20 u64) u64 base h i;
  }

  macos_panel-kept :
      (base : ℕ) → 6 ≤ base → read_macos_panel after base ≡ read_macos_panel s.buffer base
  unfolding read_macos_panel
  macos_panel-kept base h = λ i. record {
    pc = member-kept false (replicate 0 u64) u64 base h i;
    sp = member-kept false (replicate 1 u64) u64 base h i;
    fp = member-kept false (replicate 2 u64) u64 base h i;
    lr = member-kept false (replicate 3 u64) u64 base h i;
    x0 = member-kept false (replicate 4 u64) u64 base h i;
    x1 = member-kept false (replicate 5 u64) u64 base h i;
    cpu_usage = member-kept false (replicate 6 u64 ++ replicate 0 u32) u32 base h i;
    memory_usage = member-kept false (replicate 6 u64 ++ replicate 1 u32) u32 base h i;
    load_average = member-kept false (replicate 6 u64 ++ replicate 2 u32) u32 base h i;
    thread_count = member-kept false (replicate 6 u64 ++ replicate 3 u32) u32 base h i;
    architecture = member-kept false (replicate 6 u64 ++ replicate 4 u32) u32 base h i;
    timestamp = member-kept false (replicate 6 u64 ++ replicate 5 u32) u32 base h i;
  }

  process-kept :
      (flags count : ℕ) (sender : Sender)
      → process after flags count sender ≡ process s.buffer flags count sender
  unfolding process
  process-kept flags count sender = ground (
    arith,
    pdp_panel-kept (state_offset host pdp_shape) (unfold state_offset in omega arith),
    vax_panel-kept (state_offset host vax_shape) (unfold state_offset in omega arith),
    clockframe-kept (state_offset host netbsdx64_shape) (unfold state_offset in omega arith),
    macos_panel-kept (state_offset host macos_shape) (unfold state_offset in omega arith),
    pt_regs-kept (state_offset host linuxx64_shape) (unfold state_offset in omega arith),
  )

  -- A datagram of six bytes whose count is 0 is counted as a frame, whatever its panel type, and the
  -- panel that is shown is read from what the buffer held before: an earlier packet's bytes.
  pub serve_once-header_only :
      (sender : Sender)
      → from_le (window bytes 0 2) ≡ 0
      → serve_once s (datagram bytes sender)
        ≡ count_frame after s.frame_count (process s.buffer (from_le (window bytes 2 4)) 0 sender)
  unfolding serve_once
  serve_once-header_only sender no_payload =
      check_packet_lem after s.frame_count (length (take buffer_size bytes)) sender
        (omega (arith, length-taken))
        (load_count after (window-received s.buffer bytes sized 0 2 (omega (arith, length-taken)))
          ∙ no_payload)
        (load_flags after (window-received s.buffer bytes sized 2 4 (omega (arith, length-taken))))
      ∙ rw length-taken (
          ap (λ ls. count_frame after s.frame_count ls)
            (process-kept (from_le (window bytes 2 4)) 0 sender))
