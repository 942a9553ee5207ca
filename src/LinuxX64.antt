-- ===== src/LinuxX64.antt =====
-- The Linux x64 pair: the kernel module of socket/arch/LinuxX64/kprobe.c and the client of
-- socket/arch/LinuxX64/client.c. They meet in the text of /proc/panel_regs, whose format both spell out.
pub mod Kprobe
pub mod Client
pub mod Text
pub mod RoundTrip
pub mod Main
use udproxy.Base.{ℕ, zero, suc, ◌≡◌, List, [], ◌∷◌, ◌++◌}
use udproxy.Base.Text.{codes}
use udproxy.Scan.{print_hex}

-- The literal parts of the format before each `%lx`, the same in both files.
abbrev pub labels : List (List ℕ)
labels =
    codes "RIP=0x"
    ∷ codes " RSP=0x"
    ∷ codes " RBP=0x"
    ∷ codes " RAX=0x"
    ∷ codes " RBX=0x"
    ∷ codes " RCX=0x"
    ∷ codes " RDX=0x"
    ∷ codes " RSI=0x"
    ∷ codes " RDI=0x"
    ∷ codes " R8=0x"
    ∷ codes " R9=0x"
    ∷ codes " R10=0x"
    ∷ codes " R11=0x"
    ∷ codes " R12=0x"
    ∷ codes " R13=0x"
    ∷ codes " R14=0x"
    ∷ codes " R15=0x"
    ∷ codes " EFLAGS=0x"
    ∷ codes " CS=0x"
    ∷ codes " SS=0x"
    ∷ codes " ORIG_RAX=0x"
    ∷ []

-- The text of the fields, each behind its literal part.
unfoldable pub print_fields : List (List ℕ) → List ℕ → List ℕ
print_fields (l ∷ ls) (v ∷ vs) = l ++ (print_hex v ++ print_fields ls vs)
print_fields _ _ = []
