-- ===== src/Controller/Update.antt =====
-- The synchronous part of an update, up to where the goroutine starts that starts the containers:
-- `useImageOverlayRootfs`, `CreatePod`, `RestartPod`, `RestartUnits` and `SyncPodUnits` of
-- pkg/server/pod_controller.go.
pub mod Calls
pub mod Frame
pub mod Panics
pub mod Restart
mod Tests
use itzo.Base.{
  ℕ, ◌+◌, Bool, true, false, ◌||◌, Option, none, some, List, [], ◌∷◌, if◌then◌else◌, ◌==◌, str_eq,
  String, Str, lit, Map, lookup, insert, remove, Error,
}
use itzo.Api.{UnitSpec, PodSpec, PodPhase, RegistryCredentials, UnitStatus}
use itzo.Controller.Runtime.{RuntimeService, Reply}
use itzo.Controller.Diff.{
  UpdateType, no_changes, pod_restart, pod_create, units_change, diff_units, detect_change_type,
}
use itzo.Io.{Result, ok, err, panic, pure, raise, get, check, ◌>>=◌, ◌>>◌, for_each}
use itzo.Controller.State.{PodController, Exec}

is_one_of : Str → List String → Bool
unfolding lit
is_one_of s [] = false
is_one_of s (t ∷ ts) = s == lit t || is_one_of s ts

-- `strconv.ParseBool`; `none` is its error.
unfoldable pub parse_bool : Str → Option Bool
unfolding is_one_of
parse_bool s =
    if is_one_of s ("1" ∷ "t" ∷ "T" ∷ "TRUE" ∷ "true" ∷ "True" ∷ [])
    then some true
    else if is_one_of s ("0" ∷ "f" ∷ "F" ∷ "FALSE" ∷ "false" ∷ "False" ∷ [])
    then some false
    else none

-- A missing annotation and one that does not parse both mean true.
overlay_value : Option Str → Bool
unfolding parse_bool
overlay_value none = true
overlay_value (some val) = elim (parse_bool val) [ none ↦ true | some parsed ↦ parsed ]

unfoldable pub use_image_overlay_rootfs : Map Str → Bool
unfolding overlay_value lit
use_image_overlay_rootfs annotations =
    overlay_value (lookup (lit "pod.elotl.co/image-overlay-rootfs") annotations)

-- What the goroutine of an update has to start.
pub record Work : Type 0 where
  pub inits : List UnitSpec
  pub units : List UnitSpec

module _ {W : Type 0} where
  -- `pc.syncErrors[unit.Name] = *unitStatus; return err`, where the pointer may be nil.
  abbrev pub fail_unit : UnitSpec → Error → Option UnitStatus → Exec W (Unit {0})
  fail_unit unit e none pc = (panic, pc)
  fail_unit unit e (some status) pc =
      (err e, record pc { sync_errors = insert unit.name status pc.sync_errors })

  abbrev pub record_failure : UnitSpec → Reply → Option Error → Exec W (Unit {0})
  record_failure unit reply none = pure tt
  record_failure unit reply (some e) = fail_unit unit e reply.status

  unfoldable pub set_phase : PodPhase → Exec W (Unit {0})
  set_phase phase pc = (ok tt, record pc { spec = record pc.spec { phase = phase } })

  unfoldable pub count_restart : Exec W (Unit {0})
  count_restart pc = (ok tt, record pc { pod_restart_count = pc.pod_restart_count + 1 })

  unfoldable pub set_restarting : UnitSpec → Exec W (Unit {0})
  set_restarting unit pc = (
    ok tt,
    record pc {
      currently_restarting_units = insert unit.name unit.image pc.currently_restarting_units;
    },
  )

  unfoldable pub unset_restarting : UnitSpec → Exec W (Unit {0})
  unset_restarting unit pc = (
    ok tt,
    record pc { currently_restarting_units = remove unit.name pc.currently_restarting_units },
  )

module _ {W : Type 0} (rt : RuntimeService W) where
  unfoldable pub remove_container : UnitSpec → Exec W (Unit {0})
  remove_container unit pc =
      let r = rt.remove_container pc.runtime unit in check r.0 (record pc { runtime = r.1 })

  unfoldable pub create_container : UnitSpec → Exec W (Unit {0})
  create_container unit pc =
      let r =
        rt.create_container pc.runtime unit pc.spec pc.pod_name pc.all_creds
          (use_image_overlay_rootfs pc.annotations) in
      record_failure unit r.0 r.0.err (record pc { runtime = r.1 })

  unfoldable pub stop_pod_sandbox : PodSpec → Exec W (Unit {0})
  stop_pod_sandbox status pc =
      let r = rt.stop_pod_sandbox pc.runtime status in check r.0 (record pc { runtime = r.1 })

  unfoldable pub remove_pod_sandbox : PodSpec → Exec W (Unit {0})
  remove_pod_sandbox status pc =
      let r = rt.remove_pod_sandbox pc.runtime status in check r.0 (record pc { runtime = r.1 })

  unfoldable pub run_pod_sandbox : Exec W (Unit {0})
  run_pod_sandbox pc =
      let r = rt.run_pod_sandbox pc.runtime pc.spec in
      check r.0 (record pc { spec = r.1; runtime = r.2 })

  -- Only `spec.Units` get a container, not `spec.InitUnits`.
  unfoldable pub create_pod : Exec W (Unit {0})
  create_pod = do run_pod_sandbox; pc ← get; for_each pc.spec.units create_container

  unfoldable pub restart_pod : PodSpec → Exec W (Unit {0})
  restart_pod status = do
    for_each status.units remove_container
    stop_pod_sandbox status
    remove_pod_sandbox status
    run_pod_sandbox
    pc ← get
    for_each pc.spec.units create_container
    count_restart
    set_phase PodPhase.dispatching

  unfoldable pub delete_unit : UnitSpec → Exec W (Unit {0})
  delete_unit unit = do remove_container unit; set_restarting unit

  unfoldable pub add_unit : UnitSpec → Exec W (Unit {0})
  add_unit unit = do create_container unit; unset_restarting unit

  -- The result is the list of the units to start.
  unfoldable pub restart_units : PodSpec → Exec W (List UnitSpec)
  restart_units status = do
    pc ← get
    set_phase PodPhase.waiting
    for_each (diff_units pc.spec.units status.units).1 delete_unit
    for_each (diff_units pc.spec.units status.units).0 add_unit
    pure (diff_units pc.spec.units status.units).0

  -- The `switch` of `SyncPodUnits`; none where nothing has to be started.
  unfoldable pub apply_change : UpdateType → PodSpec → Exec W (Option Work)
  apply_change no_changes status = pure none
  apply_change units_change status = do
    add_units ← restart_units status
    pure (some (record { inits = []; units = add_units }))
  apply_change pod_create status = do
    create_pod
    pc ← get
    pure (some (record { inits = pc.spec.init_units; units = pc.spec.units }))
  apply_change pod_restart status = do
    restart_pod status
    pc ← get
    pure (some (record { inits = pc.spec.init_units; units = pc.spec.units }))

  -- `SyncPodUnits` up to where it cancels the previous update. An error is logged, and then there
  -- is nothing to start either.
  unfoldable pub begin_sync : PodSpec → Map RegistryCredentials → Exec W (Option Work)
  begin_sync status all_creds pc =
      let r =
        apply_change (detect_change_type pc.spec status) status
          (record pc { all_creds = all_creds }) in
      elim r.0 [ ok work ↦ (ok work, r.1) | err _ ↦ (ok none, r.1) | panic ↦ (panic, r.1) ]
