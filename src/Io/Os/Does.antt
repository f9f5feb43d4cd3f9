-- ===== src/Io/Os/Does.antt =====
-- Methods whose calls of the system are all of one kind, whether they fail or not.
use itzo.Base.{
  ◌≡◌, refl, sym, subst, ◌∙◌, Option, none, some, List, [], ◌∷◌, ◌++◌, append_assoc, append-nil,
  All, All-append, Error, ◌⊎◌, inl, inr,
}
use itzo.Io.{
  Io, Result, ok, err, panic, pure, raise, of_sum, continue, check, ignore, forgotten, attempt,
  attempted, ◌>>=◌, ◌>>◌, for_each,
}
use itzo.Io.Os.{Os, Call, perform, traced}

module _ (P : Call → Type 0) where
  abbrev pub Adds : List Call → List Call → Type 0
  Adds before now = (cs : List Call) × (now ≡ before ++ cs) × All P cs

  pub Adds-refl : (before : List Call) → Adds before before
  Adds-refl before = ([], sym (append-nil before), tt)

  pub Adds-trans : (a b c : List Call) → Adds a b → Adds b c → Adds a c
  Adds-trans a b c (cs, h, k) (ds, h', k') =
      (cs ++ ds, h' ∙ rw h (append_assoc a cs ds), All-append P cs ds k k')

abbrev pub Any : {A : Type 0} → A → Type 0
Any _ = Unit {0}

module _ {W : Type 0} (P : Call → Type 0) where
  -- All calls that are added satisfy `P`, and a value that is returned satisfies `Q`.
  pub record Does {A : Type 0} (Q : A → Type 0) (m : Io (W × List Call) A) : Type 0 where
    pub added : (s : W × List Call) → Adds P s.1 (m s).1.1
    pub value : (s : W × List Call) {a : A} → (m s).0 ≡ ok a → Q a

  module _ {A : Type 0} (Q : A → Type 0) where
    pub Does-pure : (a : A) → Q a → Does Q (pure a)
    Does-pure a q = record {
      added = λ s. Adds-refl P s.1;
      value = λ s {a = b} h. let same : a ≡ b = cc in subst Q same q;
    }

    pub Does-raise : (e : Error) → Does Q (raise e)
    Does-raise e = record { added = λ s. Adds-refl P s.1; value = λ s {a = b} h. cc }

    pub Does-of_sum : (r : Error ⊎ A) → ((a : A) → r ≡ inr a → Q a) → Does Q (of_sum r)
    Does-of_sum (inl e) h = Does-raise e
    Does-of_sum (inr a) h = Does-pure a (h a refl)

    -- A value that is looked up in the system.
    pub Does-view :
        (view : W × List Call → Error ⊎ A)
        → ((s : W × List Call) (a : A) → view s ≡ inr a → Q a)
        → Does Q (λ s. of_sum (view s) s)
    Does-view view h = record {
      added = λ s. (Does-of_sum (view s) (h s)).added s;
      value = λ s. (Does-of_sum (view s) (h s)).value s;
    }

    forgotten-state : (r : Result A × (W × List Call)) → (forgotten r).1 ≡ r.1
    forgotten-state (ok a, s) = refl
    forgotten-state (err e, s) = refl
    forgotten-state (panic, s) = refl

    attempted-state : (r : Result A × (W × List Call)) → (attempted r).1 ≡ r.1
    attempted-state (ok a, s) = refl
    attempted-state (err e, s) = refl
    attempted-state (panic, s) = refl

  module _ {A : Type 0} (Q : A → Type 0) (m : Io (W × List Call) A) where
    pub Does-ignore : Does Q m → Does Any (ignore m)
    Does-ignore h = record {
      added = λ s. subst (λ w. Adds P s.1 w.1) (sym (forgotten-state Q (m s))) (h.added s);
      value = λ s k. tt;
    }

    pub Does-attempt : Does Q m → Does Any (attempt m)
    Does-attempt h = record {
      added = λ s. subst (λ w. Adds P s.1 w.1) (sym (attempted-state Q (m s))) (h.added s);
      value = λ s k. tt;
    }

  Does-check : (c : Call) (o : Option Error) (w : W × List Call) → (check o w).1 ≡ w
  Does-check c none w = refl
  Does-check c (some e) w = refl

  pub Does-perform : (os : Os W) (c : Call) → P c → Does Any (perform (traced os) c)
  unfolding perform
  Does-perform os c p = record {
    added = λ s. (
      c ∷ [],
      rw (Does-check c (os.call c s.0).0 ((os.call c s.0).1, s.1 ++ c ∷ [])) refl,
      (p, tt),
    );
    value = λ s k. tt;
  }

  module _ {A B : Type 0} (Q : A → Type 0) (R : B → Type 0) (f : A → Io (W × List Call) B)
      (k : (a : A) → Q a → Does R (f a)) where
    continue-Adds :
        (r : Result A) (s : W × List Call)
        → ((a : A) → r ≡ ok a → Q a)
        → Adds P s.1 (continue r f s).1.1
    continue-Adds (ok a) s h = (k a (h a refl)).added s
    continue-Adds (err e) s h = Adds-refl P s.1
    continue-Adds panic s h = Adds-refl P s.1

    continue-value :
        (r : Result A) (s : W × List Call) {b : B}
        → ((a : A) → r ≡ ok a → Q a)
        → (continue r f s).0 ≡ ok b
        → R b
    continue-value (ok a) s h o = (k a (h a refl)).value s o
    continue-value (err e) s h o = cc
    continue-value panic s h o = cc

    pub Does-bind : (m : Io (W × List Call) A) → Does Q m → Does R (m >>= f)
    Does-bind m h = record {
      added = λ s.
          Adds-trans P s.1 (m s).1.1 ((m >>= f) s).1.1 (h.added s)
            (continue-Adds (m s).0 (m s).1 (λ a o. h.value s o));
      value = λ s o. continue-value (m s).0 (m s).1 (λ a q. h.value s q) o;
    }

  pub Does-try : (os : Os W) (c : Call) → P c → Does Any (ignore (perform (traced os) c))
  Does-try os c p = Does-ignore Any (perform (traced os) c) (Does-perform os c p)

  -- After a call, whatever comes of it.
  pub Does-after_try :
      {B : Type 0} (R : B → Type 0) (os : Os W) (c : Call) (k : Io (W × List Call) B)
      → P c
      → Does R k
      → Does R (ignore (perform (traced os) c) >> k)
  Does-after_try R os c k p h =
      Does-bind Any R (λ _. k) (λ _ _. h) (ignore (perform (traced os) c)) (Does-try os c p)

  -- After a call that returned no error.
  pub Does-after :
      {B : Type 0} (R : B → Type 0) (os : Os W) (c : Call) (k : Io (W × List Call) B)
      → P c
      → Does R k
      → Does R (perform (traced os) c >> k)
  Does-after R os c k p h =
      Does-bind Any R (λ _. k) (λ _ _. h) (perform (traced os) c) (Does-perform os c p)

  abbrev rounds : Io (W × List Call) (Unit {0}) → Result (Unit {0}) → Io (W × List Call) (Unit {0})
  rounds k r t = elim r [ ok _ ↦ k t | err e ↦ (err e, t) | panic ↦ (panic, t) ]

  rounds-Adds :
      (k : Io (W × List Call) (Unit {0})) (r : Result (Unit {0})) (t : W × List Call)
      → Does Any k
      → Adds P t.1 (rounds k r t).1.1
  rounds-Adds k (ok _) t h = h.added t
  rounds-Adds k (err e) t h = Adds-refl P t.1
  rounds-Adds k panic t h = Adds-refl P t.1

  pub Does-for_each :
      {A : Type 0} (Q : A → Type 0) (xs : List A) (body : A → Io (W × List Call) (Unit {0}))
      → ((x : A) → Q x → Does Any (body x))
      → All Q xs
      → Does Any (for_each xs body)
  unfolding for_each
  Does-for_each Q [] body k h = Does-pure Any tt tt
  Does-for_each Q (x ∷ xs) body k h = record {
    added = λ s.
        Adds-trans P s.1 (body x s).1.1 (for_each (x ∷ xs) body s).1.1 ((k x h.0).added s) (
          rounds-Adds (for_each xs body) (body x s).0 (body x s).1 (Does-for_each Q xs body k h.1));
    value = λ s o. tt;
  }
