-- ===== src/Io/Laws.antt =====
-- What a method without an error did before it returned.
use itzo.Base.{
  ◌≡◌, refl, sym, ap, subst, ◌∙◌, Bool, true, false, if◌then◌else◌, List, [], ◌∷◌, Error, arith,
}
use itzo.Io.{
  Result, ok, err, panic, Io, pure, raise, attempt, attempted, wrap, wrapped, continue, get,
  is_panic, ◌>>=◌, for_each,
}

module _ {S A B : Type 0} where
  pub continue-ok :
      (r : Result A) (f : A → Io S B) (s : S) {b : B}
      → (continue r f s).0 ≡ ok b
      → (a : A) × (r ≡ ok a) × (continue r f s ≡ f a s)
  continue-ok (ok a) f s h = (a, refl, refl)
  continue-ok (err e) f s h = cc
  continue-ok panic f s h = cc

  -- A `do` block without an error made its first action without one, and then the rest.
  pub bind-ok :
      (m : Io S A) (f : A → Io S B) (s : S) {b : B}
      → ((m >>= f) s).0 ≡ ok b
      → (a : A) × ((m s).0 ≡ ok a) × ((m >>= f) s ≡ f a (m s).1)
  bind-ok m f s h = continue-ok (m s).0 f (m s).1 h

-- A loop without an error made its first round without one, and then its other rounds.
pub for_each-ok :
    {S A : Type 0} (x : A) (xs : List A) (body : A → Io S (Unit {0})) (s : S)
    → (for_each (x ∷ xs) body s).0 ≡ ok tt
    → ((body x s).0 ≡ ok tt) × (for_each (x ∷ xs) body s ≡ for_each xs body (body x s).1)
unfolding for_each
for_each-ok x xs body s h = ground arith

module _ {S A : Type 0} (x : A) (xs : List A) (body : A → Io S (Unit {0})) (s : S) where
  pub for_each-cons_ok :
      (body x s).0 ≡ ok tt → for_each (x ∷ xs) body s ≡ for_each xs body (body x s).1
  unfolding for_each
  for_each-cons_ok h = ground arith

  pub for_each-cons_err :
      {e : Error} → (body x s).0 ≡ err e → for_each (x ∷ xs) body s ≡ (err e, (body x s).1)
  unfolding for_each
  for_each-cons_err h = ground arith

-- If `m` returns without an error, then `P` holds of the value and of the state left.
pub record Ensures {S A : Type 0} (m : Io S A) (P : A → S → Type 0) : Type 0 where
  pub at : (s : S) {a : A} → (m s).0 ≡ ok a → P a (m s).1

module _ {S A B : Type 0} (m : Io S A) (f : A → Io S B) (P : B → S → Type 0) where
  -- What the last part of a `do` block ensures.
  pub Ensures-last : ((a : A) → Ensures (f a) P) → Ensures (m >>= f) P
  Ensures-last h = record {
    at = λ s {a} q.
        let (a', _, same) = bind-ok m f s q in
        subst (λ r. P a r.1) (sym same) ((h a').at (m s).1 (ap (λ r. r.0) (sym same) ∙ q));
  }

-- A method that leaves the state as it is.
pub record Reads {S A : Type 0} (m : Io S A) : Type 0 where
  pub at : (s : S) → (m s).1 ≡ s

module _ {S A : Type 0} where
  pub Reads-pure : (a : A) → Reads {S = S} (pure a)
  Reads-pure a = record { at = λ s. refl }

  pub Reads-raise : (e : Error) → Reads {S = S} {A = A} (raise e)
  Reads-raise e = record { at = λ s. refl }

  pub Reads-if : (b : Bool) (m k : Io S A) → Reads m → Reads k → Reads (if b then m else k)
  Reads-if true m k h h' = h
  Reads-if false m k h h' = h'

  attempted-state : (r : Result A × S) → (attempted r).1 ≡ r.1
  attempted-state (ok a, s) = refl
  attempted-state (err e, s) = refl
  attempted-state (panic, s) = refl

  pub Reads-attempt : (m : Io S A) → Reads m → Reads (attempt m)
  Reads-attempt m h = record { at = λ s. attempted-state (m s) ∙ h.at s }

module _ {S A B : Type 0} where
  Reads-continue :
      (r : Result A) (f : A → Io S B) (s : S) → ((a : A) → Reads (f a)) → (continue r f s).1 ≡ s
  Reads-continue (ok a) f s h = (h a).at s
  Reads-continue (err e) f s h = refl
  Reads-continue panic f s h = refl

  pub Reads-bind :
      (m : Io S A) (f : A → Io S B) → Reads m → ((a : A) → Reads (f a)) → Reads (m >>= f)
  Reads-bind m f h k = record { at = λ s. Reads-continue (m s).0 f (m s).1 k ∙ h.at s }

pub ruleset reads_rules = (Reads-pure, Reads-raise, Reads-if, Reads-attempt, Reads-bind)

-- A method that never panics.
pub record NoPanic {S A : Type 0} (m : Io S A) : Type 0 where
  pub at : (s : S) → is_panic (m s).0 ≡ false

pub NoPanic-get : {S : Type 0} → NoPanic {S = S} get
NoPanic-get = record { at = λ s. refl }

module _ {S A : Type 0} where
  pub NoPanic-pure : (a : A) → NoPanic {S = S} (pure a)
  NoPanic-pure a = record { at = λ s. refl }

  pub NoPanic-for_each :
      (xs : List A) (body : A → Io S (Unit {0}))
      → ((x : A) → NoPanic (body x))
      → NoPanic (for_each xs body)
  unfolding for_each
  NoPanic-for_each [] body h = record { at = λ s. refl }
  NoPanic-for_each (x ∷ xs) body h = record {
    at = λ s. ground (arith, (h x).at s, (NoPanic-for_each xs body h).at (body x s).1);
  }

module _ {S A B : Type 0} where
  NoPanic-continue :
      (r : Result A) (f : A → Io S B) (s : S)
      → is_panic r ≡ false
      → ((a : A) → NoPanic (f a))
      → is_panic (continue r f s).0 ≡ false
  NoPanic-continue (ok a) f s q h = (h a).at s
  NoPanic-continue (err e) f s q h = refl
  NoPanic-continue panic f s q h = cc

  pub NoPanic-bind :
      (m : Io S A) (f : A → Io S B) → NoPanic m → ((a : A) → NoPanic (f a)) → NoPanic (m >>= f)
  NoPanic-bind m f h k = record { at = λ s. NoPanic-continue (m s).0 f (m s).1 (h.at s) k }

pub ruleset no_panic_rules = (NoPanic-pure, NoPanic-get, NoPanic-for_each, NoPanic-bind)

-- From a state with `P`, a return of `a` without an error leaves a state with `Q a`.
pub record Triple {S A : Type 0} (P : S → Type 0) (m : Io S A) (Q : A → S → Type 0) : Type 0 where
  pub at : (s : S) {a : A} → P s → (m s).0 ≡ ok a → Q a (m s).1

pub Triple-bind :
    {S A B : Type 0} {P : S → Type 0} (Q : A → S → Type 0) {R : B → S → Type 0} (m : Io S A)
    (f : A → Io S B)
    → Triple P m Q
    → ((a : A) → Triple (Q a) (f a) R)
    → Triple P (m >>= f) R
Triple-bind Q {R} m f h k = record {
  at = λ s {a} p q.
      let (a', ran, same) = bind-ok m f s q in
      subst (λ r. R a r.1) (sym same)
        ((k a').at (m s).1 (h.at s p ran) (ap (λ r. r.0) (sym same) ∙ q));
}

wrapped-ok :
    {S A : Type 0} (f : Error → Error) (r : Result A × S) {a : A}
    → (wrapped f r).0 ≡ ok a
    → (r.0 ≡ ok a) × ((wrapped f r).1 ≡ r.1)
wrapped-ok f (ok a, s) h = (h, refl)
wrapped-ok f (err e, s) h = cc
wrapped-ok f (panic, s) h = cc

pub Triple-wrap :
    {S A : Type 0} {P : S → Type 0} {Q : A → S → Type 0} (f : Error → Error) (m : Io S A)
    → Triple P m Q
    → Triple P (wrap f m) Q
Triple-wrap {Q} f m h = record {
  at = λ s {a} p q. let (ran, same) = wrapped-ok f (m s) q in subst (Q a) (sym same) (h.at s p ran);
}
