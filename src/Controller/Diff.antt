-- ===== src/Controller/Diff.antt =====
-- How the controller compares the wanted specification with the one that it applied last:
-- `unitsEqual` to `detectChangeType` of pkg/server/pod_controller.go.
pub mod Laws
use itzo.Base.{
  ℕ, zero, suc, ◌+◌, Bool, true, false, not, ◌&&◌, Option, none, some, List, [], ◌∷◌, ◌++◌, ltb,
  leb, if◌then◌else◌, ◌==◌, nat_eq, str_eq, length, get_elem?,
}
use itzo.Api.{UnitSpec, PodSpec}

pub data UpdateType : Type 0 where
  no_changes pod_restart pod_create units_change : UpdateType

unfoldable pub units_equal : UnitSpec → UnitSpec → Bool
units_equal spec_unit status_unit =
    spec_unit.image == status_unit.image && spec_unit.name == status_unit.name

-- The loop of `unitsSlicesEqual` over two slices of one length.
all_equal : List UnitSpec → List UnitSpec → Bool
all_equal (s ∷ specs) (t ∷ statuses) = units_equal s t && all_equal specs statuses
all_equal specs statuses = true

unfoldable pub units_slices_equal : List UnitSpec → List UnitSpec → Bool
unfolding all_equal units_equal
units_slices_equal spec_units status_units =
    if length spec_units == length status_units then all_equal spec_units status_units else false

-- One round of the first loop of `diffUnits`: the unit `spec[i]` against `status[i]`.
add_round :
    UnitSpec → Option UnitSpec → List UnitSpec × List UnitSpec → List UnitSpec × List UnitSpec
add_round unit none acc = (acc.0 ++ unit ∷ [], acc.1)
add_round unit (some old) acc =
    if units_equal unit old then acc else (acc.0 ++ unit ∷ [], acc.1 ++ old ∷ [])

-- `for i, unit := range spec`, for `len(spec) >= len(status)`. The accumulator is toAdd, toDelete.
add_loop :
    List UnitSpec
    → List UnitSpec
    → ℕ
    → List UnitSpec × List UnitSpec
    → List UnitSpec × List UnitSpec
unfolding add_round
add_loop [] status i acc = acc
add_loop (unit ∷ rest) status i acc =
    add_loop rest status (i + 1) (add_round unit (get_elem? status i) acc)

-- One round of the second loop: the unit `status[i]` against `spec[i]`.
delete_round :
    UnitSpec → Option UnitSpec → List UnitSpec × List UnitSpec → List UnitSpec × List UnitSpec
delete_round unit none acc = (acc.0, acc.1 ++ unit ∷ [])
delete_round unit (some new) acc =
    if units_equal unit new then acc else (acc.0 ++ new ∷ [], acc.1 ++ unit ∷ [])

-- `for i, unit := range status`, for a specification with fewer units.
delete_loop :
    List UnitSpec
    → List UnitSpec
    → ℕ
    → List UnitSpec × List UnitSpec
    → List UnitSpec × List UnitSpec
unfolding delete_round
delete_loop [] spec i acc = acc
delete_loop (unit ∷ rest) spec i acc =
    delete_loop rest spec (i + 1) (delete_round unit (get_elem? spec i) acc)

-- The units to add and the units to delete.
unfoldable pub diff_units : List UnitSpec → List UnitSpec → List UnitSpec × List UnitSpec
unfolding add_loop delete_loop units_equal
diff_units spec status =
    if leb (length status) (length spec)
    then add_loop spec status 0 ([], [])
    else delete_loop status spec 0 ([], [])

unfoldable pub detect_change_type : PodSpec → PodSpec → UpdateType
detect_change_type spec status =
    if not (units_slices_equal spec.init_units status.init_units)
    then pod_restart
    else if length status.units == 0 && length status.init_units == 0
    then pod_create
    else (let diff = diff_units spec.units status.units in
        if ltb 0 (length diff.0 + length diff.1) then units_change else no_changes)
