-- ===== src/Server/Received.antt =====
-- The buffer behind a `recvfrom`: the datagram, then what was there before.
use udproxy.Base.{
  ℕ, ◌+◌, ◌≤◌, ◌≡◌, ◌∙◌, ap, sym, refl, arith, List, length, take, drop, length-take, drop-drop,
  take-drop-take,
}
use udproxy.Base.Bytes.{put, window, length-put, window-put_self, window-put_after}
use udproxy.Server.{buffer_size}

module _ (buffer bytes : List ℕ) (sized : length buffer ≡ buffer_size) where
  abbrev got : List ℕ
  got = take buffer_size bytes

  abbrev after : List ℕ
  after = put buffer 0 got

  length-got : length got ≤ buffer_size
  length-got = omega (arith, length-take buffer_size bytes)

  pub length-after : length after ≡ buffer_size
  length-after = length-put buffer 0 got (omega (arith, length-got)) ∙ sized

-- A window of a window.
pub window-window :
    (buffer : List ℕ) (off size k n : ℕ)
    → k + n ≤ size
    → window (window buffer off size) k n ≡ window buffer (off + k) n
unfolding window
window-window buffer off size k n h =
    take-drop-take n k size (drop off buffer) h
    ∙ ap (take n) (drop-drop k off (off + k) buffer refl)

module _ (buffer bytes : List ℕ) (sized : length buffer ≡ buffer_size) where
  -- Inside the datagram the buffer holds the datagram.
  pub window-received :
      (k n : ℕ)
      → k + n ≤ length (take buffer_size bytes)
      → window (put buffer 0 (take buffer_size bytes)) k n ≡ window bytes k n
  window-received k n h =
      let room : 0 + length (take buffer_size bytes) ≤ length buffer =
        omega (arith, length-take buffer_size bytes) in
      ap (λ (j : ℕ). window (put buffer 0 (take buffer_size bytes)) j n) {x = k} {y = 0 + k}
        (omega arith)
      ∙ sym (
          window-window (put buffer 0 (take buffer_size bytes)) 0 (length (take buffer_size bytes))
            k n h)
      ∙ ap (λ (b : List ℕ). window b k n)
          (window-put_self buffer 0 (take buffer_size bytes) room (length (take buffer_size bytes))
            refl)
      ∙ (unfold window in
          take-drop-take n k buffer_size bytes (omega (arith, length-take buffer_size bytes)))

  -- Behind it the buffer holds what it held before.
  pub window-kept :
      (k n : ℕ)
      → length (take buffer_size bytes) ≤ k
      → window (put buffer 0 (take buffer_size bytes)) k n ≡ window buffer k n
  window-kept k n h =
      window-put_after buffer 0 (take buffer_size bytes)
        (omega (arith, length-take buffer_size bytes)) k n (omega arith)
