-- ===== src/Base/Bytes.antt =====
-- Little-endian integers and writes into a byte array.
use mathlib.Core.List.{List, [], ◌∷◌, ◌++◌}
use mathlib.Core.Path.{◌≡◌, refl, ap, ◌∙◌}
use Prim.Native.Nat.{ℕ, zero, suc, ◌+◌, ◌-◌, ◌*◌, ◌/◌, ◌%◌, ◌^◌, ◌≤◌, ◌<◌}
use native.Mathlib.Omega.{arith}
use native.Mathlib.Nat.{pow-suc}
use udproxy.Base.Lists.{
  length, take, drop, length-append, length-take, length-drop, take_exact, drop_exact,
  take-append_le, drop-append_le, drop-append_ge, take-drop-take, drop-drop,
}

-- The `w` bytes of `v`, lowest first; what does not fit is cut off.
unfoldable pub le_bytes : ℕ → ℕ → List ℕ
le_bytes zero v = []
le_bytes (suc w) v = v % 256 ∷ le_bytes w (v / 256)

unfoldable pub from_le : List ℕ → ℕ
from_le [] = 0
from_le (b ∷ bs) = b + 256 * from_le bs

pub length-le_bytes : (w v : ℕ) → length (le_bytes w v) ≡ w
unfolding le_bytes
length-le_bytes zero v = refl
length-le_bytes (suc w) v = ap suc (length-le_bytes w (v / 256))

pub from_le-le_bytes : (w v : ℕ) → v < 256 ^ w → from_le (le_bytes w v) ≡ v
unfolding le_bytes from_le
from_le-le_bytes zero v h = omega arith
from_le-le_bytes (suc w) v h =
    omega (arith, from_le-le_bytes w (v / 256) (omega (arith, pow-suc 256 w)))

-- `memcpy(buf + off, bytes, n)` inside the bounds of `buf`.
unfoldable pub put : List ℕ → ℕ → List ℕ → List ℕ
put buf off bytes = take off buf ++ (bytes ++ drop (off + length bytes) buf)

-- The `n` bytes at `off`.
unfoldable pub window : List ℕ → ℕ → ℕ → List ℕ
window buf off n = take n (drop off buf)

pub length-put :
    (buf : List ℕ) (off : ℕ) (bytes : List ℕ)
    → off + length bytes ≤ length buf
    → length (put buf off bytes) ≡ length buf
unfolding put
length-put buf off bytes h =
    length-append (take off buf) (bytes ++ drop (off + length bytes) buf)
    ∙ omega (
      arith,
      length-append bytes (drop (off + length bytes) buf),
      length-take off buf,
      length-drop (off + length bytes) buf,
    )

module _ (buf : List ℕ) (off : ℕ) (bytes : List ℕ) (fits : off + length bytes ≤ length buf) where
  length-prefix : off ≡ length (take off buf)
  length-prefix = omega (arith, length-take off buf)

  -- What was written is read back.
  pub window-put_self : (n : ℕ) → n ≡ length bytes → window (put buf off bytes) off n ≡ bytes
  unfolding put window
  window-put_self n e =
      ap (take n)
        (drop_exact (take off buf) (bytes ++ drop (off + length bytes) buf) off length-prefix)
      ∙ take_exact bytes _ n e

  -- Bytes before the write are kept.
  pub window-put_before : (k n : ℕ) → k + n ≤ off → window (put buf off bytes) k n ≡ window buf k n
  unfolding put window
  window-put_before k n h =
      ap (take n) (
        drop-append_le k (take off buf) (bytes ++ drop (off + length bytes) buf)
          (omega (arith, length-prefix)))
      ∙ take-append_le n (drop k (take off buf)) (bytes ++ drop (off + length bytes) buf)
          (omega (arith, length-prefix, length-drop k (take off buf)))
      ∙ take-drop-take n k off buf h

  -- And so are bytes after it.
  pub window-put_after :
      (k n : ℕ) → off + length bytes ≤ k → window (put buf off bytes) k n ≡ window buf k n
  unfolding put window
  window-put_after k n h = ap (take n) (
      drop-append_ge (take off buf) (bytes ++ drop (off + length bytes) buf) k (k - off)
        (omega (arith, length-prefix))
      ∙ drop-append_ge bytes (drop (off + length bytes) buf) (k - off) (k - off - length bytes)
          (omega arith)
      ∙ drop-drop (k - off - length bytes) (off + length bytes) k buf (omega arith))
