-- ===== src/NetBsdVax/Notices.antt =====
-- What the VAX client is to send: the notices of the kernel and the panels behind them.
use udproxy.Base.{
  ℕ, zero, suc, ◌+◌, ◌≡◌, ◌∙◌, ap, refl, arith, Bool, true, false, ◌&&◌, ◌||◌, not, Option, none,
  some, List, [], ◌∷◌, ◌++◌, All, length, length-take, take, drop, Option-cases, inl, inr,
  if◌then◌else◌, ◌==◌,
}
use udproxy.Base.Bytes.{le_bytes, put, window, length-put}
use udproxy.Layout.{vax, to_bytes}
use udproxy.Packet.{vax_shape, panel_vax, populate}
use udproxy.Packet.Fields.{sizes_vax, populate-packed}
use udproxy.NetBsdVax.{
  Notifier, evfilt_signal, evfilt_user, other, Kevent, interrupted, kevent_failed, nothing, event,
  PanelRead, no_panel, panel, read_panel_from_kmem, Round,
}

-- Whether an event means that the panel has new data: an interruption, SIGUSR1, or the panel's own
-- user event.
unfoldable pub is_notice : Kevent → Bool
is_notice interrupted = true
is_notice kevent_failed = false
is_notice nothing = false
is_notice (event evfilt_signal ident) = ident == 30
is_notice (event evfilt_user ident) = ident == 74565
is_notice (event other ident) = false

unfoldable pub is_fatal : Kevent → Bool
is_fatal kevent_failed = true
is_fatal interrupted = false
is_fatal nothing = false
is_fatal (event filter ident) = false

-- The first eight bytes of the array after the read.
unfoldable pub readable : Round → Option (List ℕ)
readable r = elim r.memory.read [
  | none ↦ none
  | some bytes ↦
      if r.memory.lseek_ok then some (take 8 (put r.raw_data 0 (take 128 bytes))) else none
]

-- Errors of `sendto` after which the loop goes on.
unfoldable pub is_tolerated : ℕ → Bool
is_tolerated errno = (errno == 51 || errno == 65) || (errno == 61 || errno == 35)

-- What a read panel comes to, by the error of `sendto`.
abbrev pub send_turn : List ℕ → Option ℕ → Option (Option (List ℕ))
send_turn p none = some (some p)
send_turn p (some e) = if is_tolerated e then some none else none

-- What a round comes to: `none` if the loop is left, and else the panel that was sent, if any.
unfoldable pub turn : Notifier → Round → Option (Option (List ℕ))
turn n r =
    if not (n.notification_available && n.kq) || is_fatal r.kevent
    then none
    else if not (is_notice r.kevent)
    then some none
    else elim (readable r) [ none ↦ none | some p ↦ send_turn p r.errno ]

-- The panels sent before the loop is left.
unfoldable pub panels : Notifier → List Round → List (List ℕ)
panels n [] = []
panels n (r ∷ rs) =
    let rest = panels n rs in
    elim (turn n r) [ none ↦ [] | some t ↦ elim t [ none ↦ rest | some p ↦ p ∷ rest ] ]

unfoldable pub wire : List ℕ → List ℕ
unfolding le_bytes
wire p = le_bytes 2 8 ++ (le_bytes 4 panel_vax ++ p)

pub populate-wire :
    (p packet : List ℕ)
    → length p ≡ 8
    → length packet ≡ 14
    → populate vax vax_shape panel_vax p packet ≡ wire p
unfolding wire to_bytes
populate-wire p packet h h' =
    populate-packed vax vax_shape panel_vax p packet (omega (arith, sizes_vax)) sizes_vax.1
      (omega (arith, sizes_vax))
    ∙ rw sizes_vax.0

take_add : (m n k : ℕ) (xs : List ℕ) → k ≡ m + n → take m xs ++ take n (drop m xs) ≡ take k xs
take_add zero n k xs h = ap (λ j. take j xs) (omega arith)
take_add (suc m) n zero xs h = absurd (omega arith)
take_add (suc m) zero (suc k) [] h = refl
take_add (suc m) (suc n) (suc k) [] h = refl
take_add (suc m) n (suc k) (x ∷ xs) h = ap (λ t. x ∷ t) (take_add m n k xs (omega arith))

eight : (xs : List ℕ) → window xs 0 4 ++ window xs 4 4 ≡ take 8 xs
unfolding window
eight xs = take_add 4 4 8 xs (omega arith)

abbrev pub panel_of : PanelRead → Option (List ℕ)
panel_of (no_panel notes) = none
panel_of (panel bytes) = some bytes

pub read_panel-readable :
    (r : Round) → panel_of (read_panel_from_kmem r.raw_data r.memory) ≡ readable r
unfolding read_panel_from_kmem readable
read_panel-readable r = elim (Option-cases r.memory.read) [
  | inl e ↦ ground (arith, e)
  | inr (bytes, e) ↦ ground (arith, e, eight (put r.raw_data 0 (take 128 bytes)))
]

taken-length :
    (raw bytes : List ℕ) → length raw ≡ 128 → length (take 8 (put raw 0 (take 128 bytes))) ≡ 8
taken-length raw bytes h = omega (
  arith,
  length-take 8 (put raw 0 (take 128 bytes)),
  length-put raw 0 (take 128 bytes) (omega (arith, length-take 128 bytes)),
)

some_inj : {p q : List ℕ} → some p ≡ some q → p ≡ q
some_inj e = cc

pub readable-length :
    (r : Round) (p : List ℕ) → length r.raw_data ≡ 128 → readable r ≡ some p → length p ≡ 8
unfolding readable
readable-length r p h e = elim (Option-cases r.memory.read) [
  | inl none_read ↦ absurd (ground (arith, none_read))
  | inr (bytes, read) ↦ ground (arith, read, taken-length r.raw_data bytes h)
]

turn-full :
    (n : Notifier) (r : Round) (p : List ℕ)
    → length r.raw_data ≡ 128
    → turn n r ≡ some (some p)
    → length p ≡ 8
unfolding turn
turn-full n r p full e = elim (Option-cases (readable r)) [
  | inl none_read ↦ absurd (ground (arith, none_read))
  | inr (q, read) ↦ ground (arith, read, readable-length r q full read)
]

pub panels-full :
    (n : Notifier) (rounds : List Round)
    → All (λ r. length r.raw_data ≡ 128) rounds
    → All (λ p. length p ≡ 8) (panels n rounds)
unfolding panels
panels-full n [] full = tt
panels-full n (r ∷ rs) (f, fs) = elim (Option-cases (turn n r)) [
  | inl e ↦ ground (arith, e)
  | inr (none, e) ↦ ground (arith, e, panels-full n rs fs)
  | inr (some p, e) ↦ ground (arith, e, panels-full n rs fs, turn-full n r p f e)
]
