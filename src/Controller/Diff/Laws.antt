-- ===== src/Controller/Diff/Laws.antt =====
-- The index loops of `diffUnits` against a comparison by position, and what a change type means.
use itzo.Base.{
  ℕ, zero, suc, ◌+◌, ◌≤◌, ◌<◌, ◌≡◌, refl, sym, ap, ap₂, ◌∙◌, Bool, true, false, none, some, List,
  [], ◌∷◌, ◌++◌, append-nil, append_assoc, arith, if◌then◌else◌, length, get_elem?, drop,
  drop-eq-nil, str_beq_iff, ◌↔◌, ◌⊎◌, inl, inr, Bool-cases, leb,
}
use native.Mathlib.Numerals.{add-one}
use itzo.Api.{UnitSpec, PodSpec}
use itzo.Controller.Diff.{
  units_equal, units_slices_equal, diff_units, add_round, add_loop, delete_round, delete_loop,
  detect_change_type, no_changes, pod_restart,
}

-- The units to add and to delete, position by position.
abbrev pub changes : List UnitSpec → List UnitSpec → List UnitSpec × List UnitSpec
changes [] status = ([], status)
changes (s ∷ spec) [] = (s ∷ spec, [])
changes (s ∷ spec) (t ∷ status) =
    let rest = changes spec status in if units_equal s t then rest else (s ∷ rest.0, t ∷ rest.1)

changes-nil : (spec : List UnitSpec) → changes spec [] ≡ (spec, [])
changes-nil [] = refl
changes-nil (s ∷ spec) = refl

module _ {ℓ} {A : Type ℓ} where
  -- Reading at an index is taking the head behind that many members.
  index_cases :
      (xs : List A) (i : ℕ)
      → ((get_elem? xs i ≡ none) × (drop i xs ≡ []) × (drop (suc i) xs ≡ []))
        ⊎ ((x : A) × (get_elem? xs i ≡ some x) × (drop i xs ≡ x ∷ drop (suc i) xs))
  index_cases [] zero = inl (refl, refl, refl)
  index_cases [] (suc i) = inl (refl, refl, refl)
  index_cases (x ∷ xs) zero = inr (x, refl, refl)
  index_cases (x ∷ xs) (suc i) = index_cases xs i

  length-drop_le : (xs : List A) (i n : ℕ) → length xs ≤ i + n → length (drop i xs) ≤ n
  length-drop_le xs zero n h = omega arith
  length-drop_le [] (suc i) n h = omega arith
  length-drop_le (x ∷ xs) (suc i) n h = length-drop_le xs i n (omega arith)

-- The pair of `changes`, behind what the loop has found before.
abbrev behind :
    List UnitSpec × List UnitSpec → List UnitSpec × List UnitSpec → List UnitSpec × List UnitSpec
behind acc found = (acc.0 ++ found.0, acc.1 ++ found.1)

behind-round :
    (b : Bool) (acc found : List UnitSpec × List UnitSpec) (s t : UnitSpec)
    → behind (if b then acc else (acc.0 ++ s ∷ [], acc.1 ++ t ∷ [])) found
      ≡ behind acc (if b then found else (s ∷ found.0, t ∷ found.1))
behind-round true acc found s t = refl
behind-round false acc found s t =
    ap₂ (λ a b. (a, b)) (append_assoc acc.0 (s ∷ []) found.0) (append_assoc acc.1 (t ∷ []) found.1)

units_equal_comm : (s t : UnitSpec) → units_equal s t ≡ units_equal t s
unfolding units_equal
units_equal_comm s t = ground (
  arith,
  str_beq_iff s.image t.image,
  str_beq_iff t.image s.image,
  str_beq_iff s.name t.name,
  str_beq_iff t.name s.name,
)

add_loop-eq-changes :
    (spec status : List UnitSpec) (i : ℕ) (acc : List UnitSpec × List UnitSpec)
    → length status ≤ i + length spec
    → add_loop spec status i acc ≡ behind acc (changes spec (drop i status))
unfolding add_loop
add_loop-eq-changes [] status i acc h = sym (
    ap₂ (λ a b. (a, b)) (append-nil acc.0)
      (ap (λ l. acc.1 ++ l) (drop-eq-nil status i (omega arith)) ∙ append-nil acc.1))
add_loop-eq-changes (s ∷ spec) status i acc h = elim (index_cases status i) [
  | inl (e, d, d') ↦
      rw (e, d)
        (add_loop-eq-changes spec status (i + 1) (acc.0 ++ s ∷ [], acc.1) (omega arith)
          ∙ rw add-one (rw (d', changes-nil spec, append_assoc acc.0 (s ∷ []) spec)))
  | inr (t, e, d) ↦
      rw (e, d)
        (add_loop-eq-changes spec status (i + 1) (add_round s (some t) acc) (omega arith)
          ∙ rw add-one
              (behind-round (units_equal s t) acc (changes spec (drop (suc i) status)) s t))
]

delete_loop-eq-changes :
    (status spec : List UnitSpec) (i : ℕ) (acc : List UnitSpec × List UnitSpec)
    → length spec ≤ i + length status
    → delete_loop status spec i acc ≡ behind acc (changes (drop i spec) status)
unfolding delete_loop
delete_loop-eq-changes [] spec i acc h =
    sym (rw (drop-eq-nil spec i (omega arith), append-nil acc.0, append-nil acc.1))
delete_loop-eq-changes (t ∷ status) spec i acc h = elim (index_cases spec i) [
  | inl (e, d, d') ↦
      rw (e, d)
        (delete_loop-eq-changes status spec (i + 1) (acc.0, acc.1 ++ t ∷ []) (omega arith)
          ∙ rw add-one (rw (d', append_assoc acc.1 (t ∷ []) status)))
  | inr (s, e, d) ↦
      rw (e, d)
        (delete_loop-eq-changes status spec (i + 1) (delete_round t (some s) acc) (omega arith)
          ∙ rw add-one (
              rw (units_equal_comm t s)
                (behind-round (units_equal s t) acc (changes (drop (suc i) spec) status) s t)))
]

-- For all specifications, the two index loops of `diffUnits` find what a comparison position by
-- position finds: at each position where the wanted unit and the present one differ in name or
-- image the one is added and the other deleted, units without a counterpart are added or deleted.
pub diff_units-eq-changes :
    (spec status : List UnitSpec) → diff_units spec status ≡ changes spec status
unfolding diff_units
diff_units-eq-changes spec status = elim (Bool-cases (leb (length status) (length spec))) [
  | inl le ↦ rw le (add_loop-eq-changes spec status 0 ([], []) (ground arith))
  | inr gt ↦ rw gt (delete_loop-eq-changes status spec 0 ([], []) (ground arith))
]

-- Adding and deleting balance: what is there, with the additions, is what is wanted, with the
-- deletions.
changes-balance :
    (spec status : List UnitSpec)
    → let found = changes spec status in
      length found.0 + length status ≡ length found.1 + length spec
changes-balance [] status = omega arith
changes-balance (s ∷ spec) [] = omega arith
changes-balance (s ∷ spec) (t ∷ status) = ground (arith, changes-balance spec status)

-- Nothing is found exactly if the lists have equal units at equal positions.
pub changes-empty_iff :
    (spec status : List UnitSpec)
    → (length (changes spec status).0 + length (changes spec status).1 ≡ 0)
      ↔ (units_slices_equal spec status ≡ true)
unfolding units_slices_equal
changes-empty_iff [] [] = ground arith
changes-empty_iff [] (t ∷ status) = ground arith
changes-empty_iff (s ∷ spec) [] = ground arith
changes-empty_iff (s ∷ spec) (t ∷ status) = ground (arith, changes-empty_iff spec status)

module _ (spec status : PodSpec) where
  -- An update changes nothing exactly if the units and the init units have the names and images of
  -- those that were applied last, in their order, and there were any.
  detect_change_type-no_changes_iff : (detect_change_type spec status ≡ no_changes) ↔ (
      (units_slices_equal spec.init_units status.init_units ≡ true)
      × (units_slices_equal spec.units status.units ≡ true)
      × (0 < length status.units + length status.init_units))
  unfolding detect_change_type
  detect_change_type-no_changes_iff = ground (
    arith,
    diff_units-eq-changes spec.units status.units,
    changes-empty_iff spec.units status.units,
  )

  -- The pod is restarted exactly if the init units differ.
  pub detect_change_type-pod_restart_iff :
      (detect_change_type spec status ≡ pod_restart)
      ↔ (units_slices_equal spec.init_units status.init_units ≡ false)
  unfolding detect_change_type
  detect_change_type-pod_restart_iff = ground arith
