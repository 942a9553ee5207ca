-- ===== src/LinuxX64/Kprobe.antt =====
-- socket/arch/LinuxX64/kprobe.c: the probe handler, the read function of /proc/panel_regs, and the
-- module's start and end. The handler and the reader hold `regs_mutex`, so each is one step.
use udproxy.Base.{
  ℕ, ◌-◌, Bool, true, false, List, [], ◌∷◌, ◌++◌, length, take, if◌then◌else◌, ltb, ◌==◌, not,
}
use udproxy.Base.Text.{codes}
use udproxy.LinuxX64.{labels, print_fields}

-- `struct pt_regs` under the kernel's names.
pub record KernelRegs : Type 0 where
  pub ip : ℕ
  pub sp : ℕ
  pub bp : ℕ
  pub ax : ℕ
  pub bx : ℕ
  pub cx : ℕ
  pub dx : ℕ
  pub si : ℕ
  pub di : ℕ
  pub r8 : ℕ
  pub r9 : ℕ
  pub r10 : ℕ
  pub r11 : ℕ
  pub r12 : ℕ
  pub r13 : ℕ
  pub r14 : ℕ
  pub r15 : ℕ
  pub flags : ℕ
  pub cs : ℕ
  pub ss : ℕ
  pub orig_ax : ℕ

-- `captured_regs` and `regs_valid`.
pub record Probe : Type 0 where
  pub captured_regs : KernelRegs
  pub regs_valid : Bool

unfoldable pub handler_pre : ℕ → KernelRegs → Probe → Probe
handler_pre cpu regs p =
    if not (cpu == 0) then p else record { captured_regs = regs; regs_valid = true }

-- The arguments of the `snprintf`, in order.
unfoldable pub register_values : KernelRegs → List ℕ
register_values r =
    r.ip ∷ r.sp ∷ r.bp ∷ r.ax ∷ r.bx ∷ r.cx ∷ r.dx ∷ r.si ∷ r.di ∷ r.r8 ∷ r.r9 ∷ r.r10 ∷ r.r11
    ∷ r.r12 ∷ r.r13 ∷ r.r14 ∷ r.r15 ∷ r.flags ∷ r.cs ∷ r.ss ∷ r.orig_ax ∷ []

abbrev pub no_data : List ℕ
no_data = codes "No register data captured yet\n"

-- What the `snprintf` calls would write into an array of any size.
unfoldable pub output_text : Probe → List ℕ
output_text p =
    if not p.regs_valid
    then no_data
    else print_fields labels (register_values p.captured_regs) ++ codes "\n"

abbrev pub output_size : ℕ
output_size = 512

-- The results of a read.
pub data ReadResult : Type 0 where
  end_of_file : ReadResult
  einval : ReadResult
  efault : ReadResult
  -- the bytes copied, `len` of them, which is also the new position
  delivered : (bytes : List ℕ) (len : ℕ) → ReadResult

-- `snprintf` returns the length of the whole text, and leaves at most 511 characters in `output`.
-- `copies` is whether `copy_to_user` succeeds.
unfoldable pub proc_read : Probe → (count pos : ℕ) (copies : Bool) → ReadResult
proc_read p count pos copies =
    let text = output_text p in
    if ltb 0 pos
    then end_of_file
    else if ltb count (length text)
    then einval
    else if not copies
    then efault
    else delivered (take (output_size - 1) text) (length text)

-- What the module has registered, and the result of its start.
pub record Module : Type 0 where
  pub proc_entry : Bool
  pub kprobe : Bool

pub data Start : Type 0 where
  started enomem : Start
  register_failed : (ret : ℕ) → Start

-- `creates`: whether `proc_create` succeeds; `registers`: 0, or the negated error of
-- `register_kprobe`.
unfoldable pub my_kprobe_init : (creates : Bool) (registers : ℕ) → Start × Module
my_kprobe_init creates registers =
    if not creates
    then (enomem, record { proc_entry = false; kprobe = false })
    else if not (registers == 0)
    then (register_failed registers, record { proc_entry = false; kprobe = false })
    else (started, record { proc_entry = true; kprobe = true })

unfoldable pub my_kprobe_exit : Module → Module
my_kprobe_exit m = record { proc_entry = false; kprobe = false }
