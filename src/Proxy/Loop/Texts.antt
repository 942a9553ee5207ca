-- ===== src/Proxy/Loop/Texts.antt =====
-- Which packets become texts.
use udproxy.Base.{
  ℕ, ◌≡◌, ◌∙◌, ap, sym, refl, arith, List, [], ◌∷◌, ◌++◌, length, take, map, if◌then◌else◌, ◌==◌,
}
use udproxy.Proxy.Loop.{
  Recv, again, fails, datagram, State, after_recv, Label, started, created, bound, opened, closed,
  errored, stopped, server_ended, joined, tested, received, sent, Runs,
}
use udproxy.Proxy.Loop.Delivery.{texts_sent, pending, texts_of, texts_sent-texts_of}

-- The packets that arrive.
abbrev arrived : Recv → List (List ℕ)
arrived (datagram d) = d ∷ []
arrived _ = []

unfoldable pub packets : List Label → List (List ℕ)
packets [] = []
packets (received r ∷ ls) = arrived r ++ packets ls
packets (_ ∷ ls) = packets ls

-- Those that are not empty.
unfoldable pub filled : List (List ℕ) → List (List ℕ)
filled [] = []
filled (d ∷ ds) = let rest = filled ds in if length d == 0 then rest else d ∷ rest

-- The texts of packets: of the first 2048 bytes of each that has any, without the empty ones.
unfoldable pub texts_for : (List ℕ → List ℕ) → List (List ℕ) → List (List ℕ)
unfolding filled
texts_for text_of ds = filled (map text_of (filled (map (take 2048) ds)))

pub texts_for-cons :
    (text_of : List ℕ → List ℕ) (d : List ℕ) (ds : List (List ℕ))
    → texts_for text_of (d ∷ ds) ≡ pending (after_recv text_of (datagram d)) ++ texts_for text_of ds
unfolding texts_for filled after_recv
texts_for-cons text_of d ds = ground arith

texts_of-packets :
    (text_of : List ℕ → List ℕ) (ls : List Label)
    → texts_of text_of ls ≡ texts_for text_of (packets ls)
unfolding texts_of packets after_recv
texts_of-packets text_of [] = unfold texts_for in unfold filled in refl
texts_of-packets text_of (started ok ∷ ls) = texts_of-packets text_of ls
texts_of-packets text_of (created ok ∷ ls) = texts_of-packets text_of ls
texts_of-packets text_of (bound ok ∷ ls) = texts_of-packets text_of ls
texts_of-packets text_of (opened c ∷ ls) = texts_of-packets text_of ls
texts_of-packets text_of (closed c ∷ ls) = texts_of-packets text_of ls
texts_of-packets text_of (errored c ∷ ls) = texts_of-packets text_of ls
texts_of-packets text_of (stopped ∷ ls) = texts_of-packets text_of ls
texts_of-packets text_of (server_ended ∷ ls) = texts_of-packets text_of ls
texts_of-packets text_of (joined ∷ ls) = texts_of-packets text_of ls
texts_of-packets text_of (tested ∷ ls) = texts_of-packets text_of ls
texts_of-packets text_of (sent json cs ∷ ls) = texts_of-packets text_of ls
texts_of-packets text_of (received again ∷ ls) = texts_of-packets text_of ls
texts_of-packets text_of (received fails ∷ ls) = texts_of-packets text_of ls
texts_of-packets text_of (received (datagram d) ∷ ls) =
    ap (λ t. pending (after_recv text_of (datagram d)) ++ t) (texts_of-packets text_of ls)
    ∙ sym (texts_for-cons text_of d (packets ls))

-- In any interleaving, the texts that are sent, with the one that is about to be, are in order those of
-- the packets that arrive, behind the one that was about to be sent at first: the text of the first
-- 2048 bytes of each packet that is not empty, if the text is not empty.
pub texts_sent-packets :
    (text_of : List ℕ → List ℕ) {s u : State} {ls : List Label}
    → Runs text_of s ls u
    → texts_sent ls ++ pending u.thread ≡ pending s.thread ++ texts_for text_of (packets ls)
texts_sent-packets text_of {s} {u} {ls} r =
    texts_sent-texts_of text_of r ∙ ap (λ t. pending s.thread ++ t) (texts_of-packets text_of ls)
