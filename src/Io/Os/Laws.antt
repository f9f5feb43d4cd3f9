-- ===== src/Io/Os/Laws.antt =====
-- Methods that make a list of calls of the system, and stop at the first error.
use itzo.Base.{
  ◌≡◌, refl, sym, ◌∙◌, Bool, true, false, if◌then◌else◌, Option, none, some, List, [], ◌∷◌, ◌++◌,
  append_assoc, append-nil, Error, ◌⊎◌, inl, inr,
}
use itzo.Io.{Io, Result, ok, err, panic, pure, raise, continue, check, ◌>>◌}
use itzo.Io.Os.{Os, Call, perform, traced}

module _ {W : Type 0} where
  -- Without an error it made all these calls, with one only the first ones of them.
  abbrev pub Made : List Call → Result (Unit {0}) × (W × List Call) → List Call → Type 0
  Made cs r before =
      ((r.0 ≡ ok tt) × (r.1.1 ≡ before ++ cs))
      ⊎ ((e : Error) × (done : List Call) × (rest : List Call) × (r.0 ≡ err e)
          × (cs ≡ done ++ rest)
          × (r.1.1 ≡ before ++ done))

  pub record Performs (m : Io (W × List Call) (Unit {0})) (cs : List Call) : Type 0 where
    pub at : (s : W × List Call) → Made cs (m s) s.1

  pub Performs-pure : Performs (pure tt) []
  Performs-pure = record { at = λ s. inl (refl, sym (append-nil s.1)) }

  pub Performs-raise : (e : Error) (cs : List Call) → Performs (raise e) cs
  Performs-raise e cs = record { at = λ s. inr (e, [], cs, refl, refl, sym (append-nil s.1)) }

  pub Performs-if :
      (b : Bool) (m k : Io (W × List Call) (Unit {0})) (cs ds : List Call)
      → Performs m cs
      → Performs k ds
      → Performs (if b then m else k) (if b then cs else ds)
  Performs-if true m k cs ds h h' = h
  Performs-if false m k cs ds h h' = h'

  after :
      (cs ds before mid : List Call) (r : Result (Unit {0}) × (W × List Call))
      → mid ≡ before ++ cs
      → Made ds r mid
      → Made (cs ++ ds) r before
  after cs ds before mid r h (inl (o, k)) = inl (o, k ∙ rw h (append_assoc before cs ds))
  after cs ds before mid r h (inr (e, done, rest, o, p, k)) = inr (
    e,
    cs ++ done,
    rest,
    o,
    rw p (sym (append_assoc cs done rest)),
    k ∙ rw h (append_assoc before cs done),
  )

  continue-Made :
      (cs ds before : List Call) (r : Result (Unit {0})) (s : W × List Call)
      (k : Io (W × List Call) (Unit {0}))
      → Made cs (r, s) before
      → Performs k ds
      → Made (cs ++ ds) (continue r (λ _. k) s) before
  continue-Made cs ds before (ok _) s k (inl (o, p)) h = after cs ds before s.1 (k s) p (h.at s)
  continue-Made cs ds before (err e) s k (inl (o, p)) h = cc
  continue-Made cs ds before panic s k (inl (o, p)) h = cc
  continue-Made cs ds before (err e) s k (inr (e', done, rest, o, p, q)) h =
      inr (e, done, rest ++ ds, refl, rw p (append_assoc done rest ds), q)
  continue-Made cs ds before (ok _) s k (inr (e', done, rest, o, p, q)) h = cc
  continue-Made cs ds before panic s k (inr (e', done, rest, o, p, q)) h = cc

  pub Performs-then :
      (m k : Io (W × List Call) (Unit {0})) (cs ds : List Call)
      → Performs m cs
      → Performs k ds
      → Performs (m >> k) (cs ++ ds)
  Performs-then m k cs ds h h' = record {
    at = λ s. continue-Made cs ds s.1 (m s).0 (m s).1 k (h.at s) h';
  }

  pub Performs-perform : (os : Os W) (c : Call) → Performs (perform (traced os) c) (c ∷ [])
  unfolding perform
  Performs-perform os c = record { at = λ s. go s (os.call c s.0).0 (os.call c s.0).1 }
    where
      go :
          (s : W × List Call) (o : Option Error) (w : W)
          → Made (c ∷ []) (check o (w, s.1 ++ c ∷ [])) s.1
      go s none w = inl (refl, refl)
      go s (some e) w = inr (e, c ∷ [], [], refl, refl, refl)

module _ {W : Type 0} (os : Os W) where
  check-ok : (o : Option Error) (w : W) → (check o w).0 ≡ ok tt → o ≡ none
  check-ok none w h = refl
  check-ok (some e) w h = cc

  check-state : (o : Option Error) (w : W) → (check o w).1 ≡ w
  check-state none w = refl
  check-state (some e) w = refl

  pub perform-ok : (c : Call) (w : W) → (perform os c w).0 ≡ ok tt → (os.call c w).0 ≡ none
  unfolding perform
  perform-ok c w h = check-ok (os.call c w).0 (os.call c w).1 h

  pub perform-state : (c : Call) (w : W) → (perform os c w).1 ≡ (os.call c w).1
  unfolding perform
  perform-state c w = check-state (os.call c w).0 (os.call c w).1
