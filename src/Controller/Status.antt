-- ===== src/Controller/Status.antt =====
-- `GetUnitName` and `GetStatus` of pkg/server/pod_controller.go.
pub mod Laws
use itzo.Base.{
  ℕ, Bool, true, false, not, ◌&&◌, Option, none, some, List, [], ◌∷◌, ◌++◌, if◌then◌else◌, is_some,
  is_zero, Str, lit, Map, lookup, Error,
}
use itzo.Api.{
  UnitSpec, PodSpec, UnitStatus, UnitState, UnitStateTerminated, make_still_creating_status,
}
use itzo.Controller.Runtime.{RuntimeService, Reply}
use itzo.Io.{Result, ok, err, panic}
use itzo.Controller.State.{PodController}

first_unit : List UnitSpec → Result Str
first_unit [] = err (Error.errorf "No running units on pod" [])
first_unit (unit ∷ _) = ok unit.name

-- An empty name stands for the first unit.
unfoldable pub get_unit_name : {W : Type 0} → PodController W → Str → Result Str
unfolding first_unit
get_unit_name pc unit_name = elim unit_name [
  | [] ↦ first_unit pc.pod_status.units
  | c ∷ rest ↦ ok (c ∷ rest)
]

-- `failedStatus, exists := pc.syncErrors[unit.Name]`, which goes before any other status.
or_sync_error : Option UnitStatus → Option UnitStatus → Option UnitStatus
or_sync_error (some failed) status = some failed
or_sync_error none status = status

module _ {W : Type 0} (rt : RuntimeService W) where
  -- The status of one unit after the runtime's answer; an error while the unit is restarting shows
  -- as "still creating". A nil pointer stays nil (`none`).
  unfoldable pub unit_status : PodController W → UnitSpec → Reply → Option UnitStatus
  unfolding or_sync_error lit
  unit_status pc unit reply = or_sync_error (lookup unit.name pc.sync_errors) (
      if is_some reply.err && is_some (lookup unit.name pc.currently_restarting_units)
      then some (make_still_creating_status unit.name unit.image (lit "ContainerCreating"))
      else reply.status)

  -- For an init unit a restart does not count.
  unfoldable pub init_status : PodController W → UnitSpec → Reply → Option UnitStatus
  unfolding or_sync_error
  init_status pc unit reply = or_sync_error (lookup unit.name pc.sync_errors) reply.status

  -- One of the two loops; `*unitStatus` panics on nil.
  unfoldable pub statuses :
      (UnitSpec → Reply → Option UnitStatus) → List UnitSpec → W → Option (List UnitStatus) × W
  statuses of_reply [] w = (some [], w)
  statuses of_reply (unit ∷ units) w =
      let r = rt.container_status w unit.name unit.image in
      let rest = statuses of_reply units r.1 in
      elim (of_reply unit r.0) [
        | none ↦ (none, r.1)
        | some status ↦ elim rest.0 [
          | none ↦ (none, rest.1)
          | some ss ↦ (some (status ∷ ss), rest.1)
        ]
      ]

pub exited_well : Option UnitStateTerminated → Bool
exited_well none = false
exited_well (some t) = is_zero t.exit_code

-- An init unit that ran to its end is reported as ready.
mark_ready : UnitStatus → UnitStatus
unfolding exited_well
mark_ready status =
    if exited_well status.state.terminated then record status { ready = true } else status

mark_all_ready : List UnitStatus → List UnitStatus
unfolding mark_ready
mark_all_ready [] = []
mark_all_ready (s ∷ ss) = mark_ready s ∷ mark_all_ready ss

module _ {W : Type 0} (rt : RuntimeService W) where
  -- The statuses of the units and of the init units.
  unfoldable pub get_status :
      PodController W → Result (List UnitStatus × List UnitStatus) × PodController W
  unfolding mark_all_ready
  get_status pc =
      let units = statuses rt (unit_status rt pc) pc.pod_status.units pc.runtime in
      let inits = statuses rt (init_status rt pc) pc.pod_status.init_units units.1 in
      elim units.0 [
        | none ↦ (panic, record pc { runtime = units.1 })
        | some ss ↦ elim inits.0 [
          | none ↦ (panic, record pc { runtime = inits.1 })
          | some is ↦ (ok (ss, mark_all_ready is), record pc { runtime = inits.1 })
        ]
      ]
