-- ===== src/LinuxX64/RoundTrip.antt =====
-- The kernel module and the client together: the registers that the probe captured are the
-- registers that the client gets.
use udproxy.Base.{
  ℕ, zero, suc, ◌+◌, ◌*◌, ◌/◌, ◌%◌, ◌≤◌, ◌<◌, ◌≡◌, ◌≢◌, ap, refl, arith, true, false, Option, none,
  some, List, [], ◌∷◌, ◌++◌, All, length, length-append, drop, take_all, if◌then◌else◌, ◌==◌, ne→==,
  le→ltb, Bool-cases, inl, inr,
}
use udproxy.Base.Text.{codes}
use udproxy.PanelState.{PtRegs}
use udproxy.Scan.{print_hex, print_hex_loop, hex_char}
use udproxy.Scan.Hex.{stops, hex_char_range}
use udproxy.LinuxX64.{labels, print_fields}
use udproxy.LinuxX64.Kprobe.{
  KernelRegs, Probe, handler_pre, register_values, output_text, proc_read, ReadResult, end_of_file,
  einval, efault, delivered, no_data,
}
use udproxy.LinuxX64.Client.{
  fgets, starts_with, sscanf_fields, set_regs, Capture, captured, retry, capture_cpu_state,
}
use udproxy.LinuxX64.Text.{Fits, labels-Chain, sscanf_fields-print}

-- The kernel's registers under the client's names.
unfoldable pub client_regs : KernelRegs → PtRegs
client_regs r = record {
  r15 = r.r15;
  r14 = r.r14;
  r13 = r.r13;
  r12 = r.r12;
  rbp = r.bp;
  rbx = r.bx;
  r11 = r.r11;
  r10 = r.r10;
  r9 = r.r9;
  r8 = r.r8;
  rax = r.ax;
  rcx = r.cx;
  rdx = r.dx;
  rsi = r.si;
  rdi = r.di;
  orig_rax = r.orig_ax;
  rip = r.ip;
  cs = r.cs;
  eflags = r.flags;
  rsp = r.sp;
  ss = r.ss;
}

-- What a read copies to the client.
unfoldable pub delivered_bytes : ReadResult → List ℕ
delivered_bytes (delivered bytes len) = bytes
delivered_bytes end_of_file = []
delivered_bytes einval = []
delivered_bytes efault = []

-- Lengths, and the absence of newlines, before the last character.
Line : ℕ → List ℕ → Type 0
Line most text = (length text ≤ most) × All (λ c. c ≢ 10) text

All-append :
    (xs ys : List ℕ) → All (λ c. c ≢ 10) xs → All (λ c. c ≢ 10) ys → All (λ c. c ≢ 10) (xs ++ ys)
All-append [] ys h g = g
All-append (x ∷ xs) ys (h, hs) g = (h, All-append xs ys hs g)

print_hex_loop-Line :
    (left v most : ℕ) (out : List ℕ)
    → Line most out
    → Line (left + most) (print_hex_loop left v out)
unfolding print_hex_loop Line
print_hex_loop-Line zero v most out (n, h) = (omega arith, h)
print_hex_loop-Line (suc left) v most out (n, h) =
    let longer : Line (suc most) (hex_char (v % 16) ∷ out) =
      (omega arith, (omega (arith, hex_char_range (v % 16) (omega arith)), h)) in
    let (n', h') = print_hex_loop-Line left (v / 16) (suc most) (hex_char (v % 16) ∷ out) longer in
    elim (Bool-cases (v / 16 == 0)) [
      | inl e ↦ rw e (omega arith, longer.1)
      | inr e ↦ rw e (omega arith, h')
    ]

print_hex-Line : (v : ℕ) → Line 16 (print_hex v)
unfolding print_hex
print_hex-Line v = print_hex_loop-Line 16 v 0 [] (unfold Line in (omega arith, tt))

-- The length of the literal parts.
abbrev total_length : List (List ℕ) → ℕ
total_length [] = 0
total_length (l ∷ ls) = length l + total_length ls

print_fields-Line :
    (ls : List (List ℕ)) (vs : List ℕ)
    → All (λ l. All (λ c. c ≢ 10) l) ls
    → Line (total_length ls + 16 * length ls) (print_fields ls vs)
unfolding Line print_fields
print_fields-Line [] vs h = (omega arith, tt)
print_fields-Line (l ∷ ls) [] h = (omega arith, tt)
print_fields-Line (l ∷ ls) (v ∷ vs) (h, hs) =
    let (n, plain) = print_hex-Line v in
    let (m, rest) = print_fields-Line ls vs hs in
    (
      omega (
        arith,
        length-append l (print_hex v ++ print_fields ls vs),
        length-append (print_hex v) (print_fields ls vs),
      ),
      All-append l (print_hex v ++ print_fields ls vs) h
          (All-append (print_hex v) (print_fields ls vs) plain rest),
    )

fgets-line :
    (left : ℕ) (body : List ℕ)
    → length body < left
    → All (λ c. c ≢ 10) body
    → fgets left (body ++ 10 ∷ []) ≡ body ++ 10 ∷ []
unfolding fgets
fgets-line zero body h plain = absurd (omega arith)
fgets-line (suc left) [] h plain = refl
fgets-line (suc left) (c ∷ cs) h (p, ps) =
    rw (ne→== c 10 p) (ap (λ t. c ∷ t) (fgets-line left cs (omega arith) ps))

abbrev FitsRegs : KernelRegs → Type 0
FitsRegs r = Fits (register_values r)

-- The text of the fields, without its newline.
fields : KernelRegs → List ℕ
fields r = print_fields labels (register_values r)

fields-Line : (r : KernelRegs) → Line 486 (fields r)
unfolding fields
fields-Line r = print_fields-Line labels (register_values r) (omega arith)

length-text : (r : KernelRegs) → length (fields r ++ 10 ∷ []) ≤ 487
unfolding Line
length-text r = omega (arith, length-append (fields r) (10 ∷ []), (fields-Line r).0)

output_text-valid :
    (r : KernelRegs)
    → output_text (record { captured_regs = r; regs_valid = true }) ≡ fields r ++ 10 ∷ []
unfolding output_text fields
output_text-valid r = refl

proc_read-invalid :
    (r : KernelRegs) (count : ℕ)
    → 30 ≤ count
    → delivered_bytes (proc_read (record { captured_regs = r; regs_valid = false }) count 0 true)
      ≡ no_data
unfolding proc_read delivered_bytes output_text
proc_read-invalid r count room = rw (le→ltb count 30 room) refl

capture-no_data : (old : PtRegs) → capture_cpu_state old (some no_data) ≡ retry old []
unfolding capture_cpu_state fgets starts_with
capture-no_data old = refl

-- A read of registers with room for the longest text delivers all of it.
proc_read-valid :
    (r : KernelRegs) (count : ℕ)
    → 487 ≤ count
    → delivered_bytes (proc_read (record { captured_regs = r; regs_valid = true }) count 0 true)
      ≡ fields r ++ 10 ∷ []
unfolding proc_read delivered_bytes
proc_read-valid r count room = rw (output_text-valid r) (
    rw (le→ltb count (length (fields r ++ 10 ∷ [])) (omega (arith, length-text r)))
      (take_all 511 (fields r ++ 10 ∷ []) (omega (arith, length-text r))))

fgets-fields : (r : KernelRegs) → fgets 511 (fields r ++ 10 ∷ []) ≡ fields r ++ 10 ∷ []
unfolding Line
fgets-fields r = let (n, plain) = fields-Line r in fgets-line 511 (fields r) (omega arith) plain

sscanf_fields-fields :
    (r : KernelRegs)
    → Fits (register_values r)
    → sscanf_fields labels (fields r ++ 10 ∷ []) ≡ register_values r
unfolding fields stops register_values
sscanf_fields-fields r fits =
    sscanf_fields-print labels (register_values r) (10 ∷ []) labels-Chain fits refl refl

set_regs-values : (old : PtRegs) (r : KernelRegs) → set_regs old (register_values r) ≡ client_regs r
unfolding set_regs client_regs register_values
set_regs-values old r = refl

-- How the client goes on behind a line of fields.
capture-line :
    (old : PtRegs) (cs : List ℕ) (r : KernelRegs)
    → fgets 511 (b'R' ∷ cs) ≡ b'R' ∷ cs
    → sscanf_fields labels (b'R' ∷ cs) ≡ register_values r
    → capture_cpu_state old (some (b'R' ∷ cs)) ≡ captured (client_regs r)
unfolding capture_cpu_state starts_with register_values set_regs client_regs fgets
capture-line old cs r f e = rw (f, e) refl

after_label : KernelRegs → List ℕ
after_label r =
    codes "IP=0x"
    ++ (print_hex r.ip ++ print_fields (drop 1 labels) (drop 1 (register_values r)))
    ++ (10 ∷ [])

fields-label : (r : KernelRegs) → fields r ++ 10 ∷ [] ≡ b'R' ∷ after_label r
unfolding fields after_label print_fields register_values
fields-label r = refl

capture-fields :
    (old : PtRegs) (r : KernelRegs)
    → Fits (register_values r)
    → capture_cpu_state old (some (fields r ++ 10 ∷ [])) ≡ captured (client_regs r)
capture-fields old r fits = rw (fields-label r) (
    capture-line old (after_label r) r (rw (fields-label r) at (fgets-fields r))
      (rw (fields-label r) at (sscanf_fields-fields r fits)))

-- The probe's hits, each with the CPU it was on, and the last one of them on CPU 0.
unfoldable pub run_probe : Probe → List (ℕ × KernelRegs) → Probe
run_probe p [] = p
run_probe p ((cpu, regs) ∷ hits) = run_probe (handler_pre cpu regs p) hits

unfoldable pub last_hit : Option KernelRegs → List (ℕ × KernelRegs) → Option KernelRegs
last_hit last [] = last
last_hit last ((cpu, regs) ∷ hits) = last_hit (if cpu == 0 then some regs else last) hits

abbrev FitsHits : List (ℕ × KernelRegs) → Type 0
FitsHits hits = All (λ hit. Fits (register_values hit.1)) hits

-- What the client makes of the probe's last hit.
unfoldable pub expected : PtRegs → Option KernelRegs → Capture
expected old none = retry old []
expected old (some r) = captured (client_regs r)

-- The probe's state for a last hit, from registers `r` before any.
abbrev probe_of : KernelRegs → Option KernelRegs → Probe
probe_of r none = record { captured_regs = r; regs_valid = false }
probe_of r (some regs) = record { captured_regs = regs; regs_valid = true }

abbrev FitsLast : Option KernelRegs → Type 0
FitsLast none = Unit
FitsLast (some r) = Fits (register_values r)

run_probe-last :
    (start : KernelRegs) (last : Option KernelRegs) (hits : List (ℕ × KernelRegs))
    → FitsLast last
    → FitsHits hits
    → (run_probe (probe_of start last) hits ≡ probe_of start (last_hit last hits))
      × FitsLast (last_hit last hits)
unfolding run_probe last_hit handler_pre
run_probe-last start last [] f fs = (refl, f)
run_probe-last start last ((cpu, regs) ∷ hits) f (g, fs) = elim (Bool-cases (cpu == 0)) [
  | inl e ↦ rw e (run_probe-last start (some regs) hits g fs)
  | inr e ↦ rw e (run_probe-last start last hits f fs)
]

-- A client with nothing captured yet, and one with a line of registers.
capture-expected :
    (start : KernelRegs) (last : Option KernelRegs) (count : ℕ) (old : PtRegs)
    → FitsLast last
    → 487 ≤ count
    → capture_cpu_state old (some (delivered_bytes (proc_read (probe_of start last) count 0 true)))
      ≡ expected old last
unfolding expected
capture-expected start none count old f room =
    rw (proc_read-invalid start count (omega arith)) (capture-no_data old)
capture-expected start (some r) count old f room =
    rw (proc_read-valid r count room) (capture-fields old r f)

-- For any hits of the probe, from none, with registers that fit their 64 bits, and a reader with room
-- for 487 bytes: before a hit on CPU 0 the client waits and keeps its panel, and after it the panel
-- holds exactly the registers of the last hit on CPU 0.
pub kprobe_to_client :
    (start : KernelRegs) (hits : List (ℕ × KernelRegs)) (count : ℕ) (old : PtRegs)
    → FitsHits hits
    → 487 ≤ count
    → capture_cpu_state old (
        some (
          delivered_bytes (
            proc_read
              (run_probe (record { captured_regs = start; regs_valid = false }) hits)
              count
              0
              true)))
      ≡ expected old (last_hit none hits)
kprobe_to_client start hits count old fits room =
    let (e, f) = run_probe-last start none hits tt fits in
    rw e (capture-expected start (last_hit none hits) count old f room)
