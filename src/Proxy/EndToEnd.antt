-- ===== src/Proxy/EndToEnd.antt =====
-- The panels of the clients on their way through the proxy.
use udproxy.Base.{
  ℕ, true, ◌+◌, ◌<◌, ◌≤◌, ◌≡◌, ◌∙◌, ap, refl, arith, false, Option, some, List, [], ◌∷◌, ◌++◌, map,
  All, length, length-append, take, take_all, ◌==◌,
}
use udproxy.Base.Bytes.{le_bytes, length-le_bytes}
use udproxy.Proxy.{Object}
use udproxy.Proxy.Loop.{
  datagram, testing, sending, State, buffer_size, json_text, after_recv, Label, Runs,
}
use udproxy.Proxy.Loop.Texts.{packets, filled, texts_for, texts_for-cons, texts_sent-packets}
use udproxy.Proxy.Loop.Delivery.{
  texts_sent, pending, IsDistinct, connected, stays, delivered, delivered-texts_sent,
}

-- A packet of at most 2048 bytes that can be processed.
pub after_recv-sending :
    (text_of : List ℕ → List ℕ) (d json : List ℕ)
    → 0 < length d
    → length d ≤ 2048
    → text_of d ≡ json
    → (length json == 0) ≡ false
    → after_recv text_of (datagram d) ≡ sending json
unfolding after_recv
after_recv-sending text_of d json some_bytes fits e some_text =
    let whole : take buffer_size d ≡ d = take_all 2048 d fits in
    let filled : (length d == 0) ≡ false = ground arith in rw (whole, filled, e, some_text) refl

-- A packet with a header and a panel that the module makes an object of.
pub wire-sending :
    (to_json : List ℕ → Option Object) (dump : Object → List ℕ) (n a b c d : ℕ) (p : List ℕ)
    (o : Object)
    → n ≤ 2042
    → length p ≡ n
    → to_json (le_bytes 2 n ++ ((a ∷ b ∷ c ∷ d ∷ []) ++ p)) ≡ some o
    → (length (dump o) == 0) ≡ false
    → after_recv (json_text to_json dump) (datagram (le_bytes 2 n ++ ((a ∷ b ∷ c ∷ d ∷ []) ++ p)))
      ≡ sending (dump o)
unfolding json_text
wire-sending to_json dump n a b c d p o fits full e some_text =
    let rest = (a ∷ b ∷ c ∷ d ∷ []) ++ p in
    let size : length (le_bytes 2 n ++ rest) ≡ 6 + n =
      omega (arith, length-append (le_bytes 2 n) rest, length-le_bytes 2 n) in
    after_recv-sending (json_text to_json dump) (le_bytes 2 n ++ rest) (dump o)
      (omega (arith, size)) (omega (arith, size)) (rw (json_text, e) refl) some_text

module _ (text_of : List ℕ → List ℕ) (wire text : List ℕ → List ℕ) (size : ℕ)
    (carries : (p : List ℕ)
      → length p ≡ size
      → after_recv text_of (datagram (wire p)) ≡ sending (text p)) where
  texts_for-map :
      (ps : List (List ℕ))
      → All (λ p. length p ≡ size) ps
      → texts_for text_of (map wire ps) ≡ map text ps
  texts_for-map [] full = unfold texts_for in unfold filled in refl
  texts_for-map (p ∷ ps) (f, fs) =
      texts_for-cons text_of (wire p) (map wire ps)
      ∙ ap (λ t. pending t ++ texts_for text_of (map wire ps)) (carries p f)
      ∙ ap (λ t. text p ∷ t) (texts_for-map ps fs)

  arrivals-texts :
      (ps : List (List ℕ)) {s u : State} {ls : List Label}
      → All (λ p. length p ≡ size) ps
      → Runs text_of s ls u
      → s.thread ≡ testing
      → packets ls ≡ map wire ps
      → texts_sent ls ++ pending u.thread ≡ map text ps
  arrivals-texts ps {s} {u} {ls} full r e came =
      texts_sent-packets text_of r
      ∙ ap (λ t. pending t ++ texts_for text_of (packets ls)) e
      ∙ ap (texts_for text_of) came
      ∙ texts_for-map ps full

  -- What a browser receives that stays connected.
  pub browser-texts :
      (ps : List (List ℕ)) {s u : State} {ls : List Label} (c : ℕ)
      → All (λ p. length p ≡ size) ps
      → Runs text_of s ls u
      → s.thread ≡ testing
      → IsDistinct s.ws_clients
      → connected c s ≡ true
      → stays c ls ≡ true
      → packets ls ≡ map wire ps
      → delivered c ls ++ pending u.thread ≡ map text ps
  browser-texts ps {s} {u} c full r e distinct there same came =
      ap (λ t. t ++ pending u.thread) (delivered-texts_sent text_of c r distinct there same)
      ∙ arrivals-texts ps full r e came
