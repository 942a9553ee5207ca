-- ===== src/Client/Laws.antt =====
-- Laws of the send loops.
use udproxy.Base.{
  ◌≡◌, ap, sym, refl, Bool, true, false, List, [], ◌∷◌, ◌++◌, append-nil, if◌then◌else◌,
}
use udproxy.Client.{
  Output, sent, datagrams, Step, go, stop, quit, Result, loop, goes_on, state_of, out_of, follow,
}

pub datagrams-append : (os ps : List Output) → datagrams (os ++ ps) ≡ datagrams os ++ datagrams ps
unfolding datagrams
datagrams-append [] ps = refl
datagrams-append (sent d ∷ os) ps = ap (λ ds. d ∷ ds) (datagrams-append os ps)
datagrams-append (_ ∷ os) ps = datagrams-append os ps

module _ {ℓ} {S : Type ℓ} (r : Step S) (k : S → Result S) where
  pub follow-out :
      datagrams (follow r k).out
      ≡ datagrams (out_of r) ++ (if goes_on r then datagrams (k (state_of r)).out else [])
  follow-out = of r
    where
      of :
          (x : Step S)
          → datagrams (follow x k).out
            ≡ datagrams (out_of x) ++ (if goes_on x then datagrams (k (state_of x)).out else [])
      of (go s os) = datagrams-append os (k s).out
      of (stop s os) = sym (append-nil (datagrams os))
      of (quit s os) = sym (append-nil (datagrams os))

  pub follow-state : (follow r k).state ≡ (if goes_on r then (k (state_of r)).state else state_of r)
  follow-state = of r
    where
      of :
          (x : Step S)
          → (follow x k).state ≡ (if goes_on x then (k (state_of x)).state else state_of x)
      of (go s os) = refl
      of (stop s os) = refl
      of (quit s os) = refl

abbrev pub quits {ℓ} : {S : Type ℓ} → Step S → Bool
quits (go s os) = false
quits (stop s os) = false
quits (quit s os) = true

module _ {ℓ κ} {S : Type ℓ} {R : Type κ} (round : S → R → Step S) where
  follow-exited :
      (x : Step S) (k : S → Result S)
      → quits x ≡ false
      → ((s : S) → (k s).exited ≡ false)
      → (follow x k).exited ≡ false
  follow-exited (go s os) k h rest = rest s
  follow-exited (stop s os) k h rest = refl
  follow-exited (quit s os) k h rest = h

  -- A loop without a round that calls `exit` does not leave the program.
  pub loop-exited :
      ((s : S) (r : R) → quits (round s r) ≡ false)
      → (s : S) (rs : List R) → (loop round s rs).exited ≡ false
  unfolding loop
  loop-exited never s [] = refl
  loop-exited never s (r ∷ rs) =
      follow-exited (round s r) (λ s'. loop round s' rs) (never s r) (λ s'. loop-exited never s' rs)
