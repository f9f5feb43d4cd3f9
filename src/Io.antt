-- ===== src/Io.antt =====
-- Methods with side effects: a method takes the state of the objects that it reaches and returns
-- its result and the new state. What was written before an error stays written.
pub mod Laws
pub mod Os
pub mod Paths
use itzo.Base.{Bool, true, false, Option, none, some, List, Error, ◌⊎◌, inl, inr}

-- A method returns, with an error or without, or it panics.
pub data Result {ℓ} (A : Type ℓ) : Type ℓ where
  ok : A → Result A
  err : Error → Result A
  panic : Result A

abbrev pub Io : Type 0 → Type 0 → Type 0
Io S A = S → Result A × S

module _ {S : Type 0} {A : Type 0} where
  abbrev pub pure : A → Io S A
  pure a s = (ok a, s)

  abbrev pub raise : Error → Io S A
  raise e s = (err e, s)

  abbrev pub nil_pointer : Io S A
  nil_pointer s = (panic, s)

  -- A value or an error, as the result of a method.
  abbrev pub of_sum : Error ⊎ A → Io S A
  of_sum (inl e) = raise e
  of_sum (inr a) = pure a

abbrev pub is_ok {ℓ} : {A : Type ℓ} → Result A → Bool
is_ok (ok _) = true
is_ok (err _) = false
is_ok panic = false

abbrev pub is_panic {ℓ} : {A : Type ℓ} → Result A → Bool
is_panic (ok _) = false
is_panic (err _) = false
is_panic panic = true

module _ {S : Type 0} where
  abbrev pub get : Io S S
  get s = (ok s, s)

  abbrev pub put : S → Io S (Unit {0})
  put s _ = (ok tt, s)

  -- `if err != nil { return err }`.
  abbrev pub check : Option Error → Io S (Unit {0})
  check none = pure tt
  check (some e) = raise e

module _ {S A B : Type 0} where
  abbrev pub continue : Result A → (A → Io S B) → Io S B
  continue (ok a) f s = f a s
  continue (err e) f s = (err e, s)
  continue panic f s = (panic, s)

  infixl 5 ◌>>=◌
  abbrev pub ◌>>=◌ : Io S A → (A → Io S B) → Io S B
  ◌>>=◌ m f s = let r = m s in continue r.0 f r.1

module _ {S B : Type 0} where
  infixl 5 ◌>>◌
  abbrev pub ◌>>◌ : Io S (Unit {0}) → Io S B → Io S B
  m >> k = m >>= λ _. k

-- `a, err := m()`, of a method whose error is looked at and not passed on at once.
module _ {S A : Type 0} where
  abbrev pub attempted : Result A × S → Result (Error ⊎ A) × S
  attempted (ok a, s) = (ok (inr a), s)
  attempted (err e, s) = (ok (inl e), s)
  attempted (panic, s) = (panic, s)

  abbrev pub attempt : Io S A → Io S (Error ⊎ A)
  attempt m s = attempted (m s)

-- A loop over a slice that an error leaves.
module _ {S A : Type 0} where
  unfoldable pub for_each : List A → (A → Io S (Unit {0})) → Io S (Unit {0})
  for_each List.[] body s = (ok tt, s)
  for_each (List.◌∷◌ x xs) body s =
      let rest = for_each xs body (body x s).1 in
      elim (body x s).0 [
        | ok _ ↦ rest
        | err e ↦ (err e, (body x s).1)
        | panic ↦ (panic, (body x s).1)
      ]

-- A method whose error is only logged.
module _ {S A : Type 0} where
  abbrev pub forgotten : Result A × S → Result (Unit {0}) × S
  forgotten (ok a, s) = (ok tt, s)
  forgotten (err e, s) = (ok tt, s)
  forgotten (panic, s) = (panic, s)

  abbrev pub ignore : Io S A → Io S (Unit {0})
  ignore m s = forgotten (m s)

-- An error with the text of what was tried put before it.
module _ {S A : Type 0} where
  abbrev pub wrapped : (Error → Error) → Result A × S → Result A × S
  wrapped f (ok a, s) = (ok a, s)
  wrapped f (err e, s) = (err (f e), s)
  wrapped f (panic, s) = (panic, s)

  abbrev pub wrap : (Error → Error) → Io S A → Io S A
  wrap f m s = wrapped f (m s)
