-- ===== src/PdpClock/Address/Mmu.antt =====
-- The decoded address beside the one that the memory management forms.
use Prim.Native.Nat.{bit_or-bitwise, digits, max}
use native.Mathlib.Nat.{pow-suc, mul_assoc}
use udproxy.Base.{
  ℕ, zero, suc, ◌+◌, ◌*◌, ◌/◌, ◌%◌, ◌^◌, ◌≤◌, ◌<◌, ◌≡◌, ◌∙◌, ap, sym, refl, arith, none, some,
}
use udproxy.PdpClock.Address.{apr_index, combine, decode_phys_addr}

digits_zero : (n a : ℕ) → a ≤ n → digits (λ b. b) max n a 0 ≡ a
digits_zero zero zero h = refl
digits_zero zero (suc a) h = absurd (omega arith)
digits_zero (suc n) zero h = refl
digits_zero (suc n) (suc a) h = omega (arith, digits_zero n (suc a / 2) (omega arith))

digits_double :
    (n m t r : ℕ)
    → suc m ≡ t + t
    → digits (λ b. b) max n t (r / 2) ≡ t + r / 2
    → digits (λ b. b) max (suc n) (suc m) r ≡ suc m + r
digits_double n m t r h e =
    let half : suc m / 2 ≡ t = omega arith in
    let even : suc m % 2 ≡ 0 = omega arith in rw (half, even, e) (omega arith)

twice : (k q : ℕ) → q * 2 ^ suc k ≡ q * 2 ^ k + q * 2 ^ k
twice k q = ap (λ t. q * t) (pow-suc 2 k) ∙ sym (mul_assoc q (2 ^ k) 2) ∙ omega arith

-- Digits of a multiple of 2 ^ k, and of a number below it, do not meet.
digits_apart :
    (k n q a r : ℕ) → a ≡ q * 2 ^ k → a ≤ n → r < 2 ^ k → digits (λ b. b) max n a r ≡ a + r
digits_apart zero n q a r e h small =
    let zero_r : r ≡ 0 = omega arith in rw (zero_r, digits_zero n a h) (omega arith)
digits_apart (suc k) zero q a r e h small = omega arith
digits_apart (suc k) (suc n) q zero r e h small = omega arith
digits_apart (suc k) (suc n) q (suc m) r e h small =
    digits_double n m (q * 2 ^ k) r (omega (arith, twice k q)) (
      digits_apart k n q (q * 2 ^ k) (r / 2) refl (omega (arith, twice k q))
        (omega (arith, pow-suc 2 k)))

-- The address that the memory management forms: the relocation register counts blocks of 64 bytes, to
-- which it adds the displacement in the page of 8 KB.
unfoldable pub relocate : (seg_reg pc : ℕ) → ℕ
relocate seg_reg pc = seg_reg * 64 + pc % 8192

combine-relocate :
    (seg_reg pc : ℕ)
    → seg_reg % 64 ≡ 0
    → pc % 8192 < 4096
    → relocate seg_reg pc < 2 ^ 21
    → combine seg_reg (pc % 4096) ≡ relocate seg_reg pc
unfolding combine relocate
combine-relocate seg_reg pc aligned low small = simp bit_or-bitwise (
    omega (
      arith,
      digits_apart 12 (seg_reg * 64) (seg_reg / 64) (seg_reg * 64) (pc % 4096) (omega arith)
          (omega arith) (omega arith),
    ))

-- Where the mode selects a register that holds, in its low 15 bits, a multiple of 64, the displacement
-- in the 8 KB page is below 4096 and the sum below 2 ^ 21: the decoded address is the one that the
-- memory management forms from those 15 bits.
pub decode-relocate :
    (apr_regs : ℕ → ℕ) (pc ps i : ℕ)
    → apr_index pc ps ≡ some i
    → apr_regs i % 2 ^ 15 % 64 ≡ 0
    → pc % 8192 < 4096
    → relocate (apr_regs i % 2 ^ 15) pc < 2 ^ 21
    → decode_phys_addr apr_regs pc ps ≡ relocate (apr_regs i % 2 ^ 15) pc
unfolding decode_phys_addr
decode-relocate apr_regs pc ps i e aligned low small =
    rw (e, decode_phys_addr) (combine-relocate (apr_regs i % 2 ^ 15) pc aligned low small)

apr_index-halves : (pc ps : ℕ) → pc % 8192 < 4096 → apr_index (pc + 4096) ps ≡ apr_index pc ps
unfolding apr_index
apr_index-halves pc ps low =
    let segment : (pc + 4096) / 2 ^ 13 ≡ pc / 2 ^ 13 = omega arith in rw (segment, apr_index) refl

-- The two halves of a page are not told apart: for a displacement below 4096 in its page, the program
-- counter and the one 4096 bytes on have the same decoded address, under every register and mode.
pub decode-halves :
    (apr_regs : ℕ → ℕ) (pc ps : ℕ)
    → pc % 8192 < 4096
    → decode_phys_addr apr_regs (pc + 4096) ps ≡ decode_phys_addr apr_regs pc ps
unfolding decode_phys_addr
decode-halves apr_regs pc ps low =
    let offset : (pc + 4096) % 4096 ≡ pc % 4096 = omega arith in
    rw (decode_phys_addr, apr_index-halves pc ps low)
      (ap (λ o. elim (apr_index pc ps) [ none ↦ 0 | some i ↦ combine (apr_regs i % 2 ^ 15) o ])
        offset)
