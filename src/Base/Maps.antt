-- ===== src/Base/Maps.antt =====
-- Go maps as association lists. A key that is inserted replaces its entry; the order of the
-- entries stands for the order in which `range` visits them.
use mathlib.Core.Path.{◌≡◌, refl}
use mathlib.Core.List.{List, [], ◌∷◌}
use mathlib.Core.Option.{Option, none, some}
use native.Mathlib.Omega.{arith}
use itzo.Base.Tests.{if◌then◌else◌, ◌==◌}
use itzo.Base.Strings.{Str, str_eq, str_beq, str_beq_iff, str_beq_refl}

abbrev pub Map {ℓ} : Type ℓ → Type ℓ
Map V = List (Str × V)

module _ {ℓ} {V : Type ℓ} where
  unfoldable pub lookup : Str → Map V → Option V
  lookup key [] = none
  lookup key (entry ∷ m) = if entry.0 == key then some entry.1 else lookup key m

  -- `delete(m, key)`.
  unfoldable pub remove : Str → Map V → Map V
  remove key [] = []
  remove key (entry ∷ m) = let rest = remove key m in if entry.0 == key then rest else entry ∷ rest

  -- `m[key] = new`.
  unfoldable pub insert : Str → V → Map V → Map V
  insert key new [] = (key, new) ∷ []
  insert key new (entry ∷ m) =
      let rest = insert key new m in if entry.0 == key then (key, new) ∷ m else entry ∷ rest

  pub lookup-remove :
      (key other : Str) (m : Map V)
      → lookup other (remove key m) ≡ (if key == other then none else lookup other m)
  unfolding lookup remove
  lookup-remove key other [] = ground arith
  lookup-remove key other (entry ∷ m) = ground (
    arith,
    str_beq_iff key other,
    str_beq_iff entry.0 key,
    str_beq_iff entry.0 other,
    lookup-remove key other m,
  )

  pub lookup-insert :
      (key other : Str) (new : V) (m : Map V)
      → lookup other (insert key new m) ≡ (if key == other then some new else lookup other m)
  unfolding insert lookup
  lookup-insert key other new [] = refl
  lookup-insert key other new (entry ∷ m) = ground (
    arith,
    str_beq_iff key other,
    str_beq_iff entry.0 key,
    str_beq_iff entry.0 other,
    lookup-insert key other new m,
  )

  pub lookup-insert_self : (k : Str) (v : V) (m : Map V) → lookup k (insert k v m) ≡ some v
  lookup-insert_self k v m = simp (lookup-insert, str_beq_refl)

pub ruleset map_laws = (lookup-insert, lookup-remove, str_beq_refl)
