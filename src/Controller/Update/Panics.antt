-- ===== src/Controller/Update/Panics.antt =====
-- That an update does not panic.
use itzo.Base.{◌≡◌, ◌≢◌, refl, Bool, false, Option, none, some, Str, Map, Error, arith}
use itzo.Api.{UnitSpec, PodSpec, RegistryCredentials, PodPhase}
use itzo.Io.{is_panic}
use itzo.Io.Laws.{NoPanic, no_panic_rules}
use itzo.Controller.Runtime.{RuntimeService, Reply}
use itzo.Controller.Diff.{
  UpdateType, no_changes, pod_restart, pod_create, units_change, detect_change_type,
}
use itzo.Controller.State.{PodController}
use itzo.Controller.Update.{
  set_phase, count_restart, set_restarting, unset_restarting, remove_container, create_container,
  stop_pod_sandbox, remove_pod_sandbox, run_pod_sandbox, create_pod, restart_pod, delete_unit,
  add_unit, restart_units, apply_change, begin_sync, record_failure,
}

-- An error of the reply comes with a status.
abbrev pub Explained : Reply → Type 0
Explained reply = (e : Error) → reply.err ≡ some e → reply.status ≢ none

module _ {W : Type 0} where
  NoPanic-set_phase : (phase : PodPhase) → NoPanic {S = PodController W} (set_phase phase)
  unfolding set_phase
  NoPanic-set_phase phase = record { at = λ pc. refl }

  NoPanic-count_restart : NoPanic {S = PodController W} count_restart
  unfolding count_restart
  NoPanic-count_restart = record { at = λ pc. refl }

  NoPanic-set_restarting : (unit : UnitSpec) → NoPanic {S = PodController W} (set_restarting unit)
  unfolding set_restarting
  NoPanic-set_restarting unit = record { at = λ pc. refl }

  NoPanic-unset_restarting :
      (unit : UnitSpec) → NoPanic {S = PodController W} (unset_restarting unit)
  unfolding unset_restarting
  NoPanic-unset_restarting unit = record { at = λ pc. refl }

module _ {W : Type 0} (rt : RuntimeService W)
    (explained : (w : W) (unit : UnitSpec) (spec : PodSpec) (pod_name : Str)
        (all_creds : Map RegistryCredentials) (overlay : Bool)
      → Explained (rt.create_container w unit spec pod_name all_creds overlay).0) where
  NoPanic-remove_container : (unit : UnitSpec) → NoPanic (remove_container rt unit)
  unfolding remove_container
  NoPanic-remove_container unit = record { at = λ pc. ground arith }

  NoPanic-stop_pod_sandbox : (status : PodSpec) → NoPanic (stop_pod_sandbox rt status)
  unfolding stop_pod_sandbox
  NoPanic-stop_pod_sandbox status = record { at = λ pc. ground arith }

  NoPanic-remove_pod_sandbox : (status : PodSpec) → NoPanic (remove_pod_sandbox rt status)
  unfolding remove_pod_sandbox
  NoPanic-remove_pod_sandbox status = record { at = λ pc. ground arith }

  NoPanic-run_pod_sandbox : NoPanic (run_pod_sandbox rt)
  unfolding run_pod_sandbox
  NoPanic-run_pod_sandbox = record { at = λ pc. ground arith }

  record_failure-NoPanic :
      (unit : UnitSpec) (reply : Reply) (e : Option Error) (pc : PodController W)
      → reply.err ≡ e
      → Explained reply
      → is_panic (record_failure unit reply e pc).0 ≡ false
  record_failure-NoPanic unit reply none pc h k = refl
  record_failure-NoPanic unit reply (some e) pc h k = ground (arith, k e h)

  NoPanic-create_container : (unit : UnitSpec) → NoPanic (create_container rt unit)
  unfolding create_container
  NoPanic-create_container unit = record {
    at = λ pc. record_failure-NoPanic unit _ _ _ refl (explained _ _ _ _ _ _);
  }

  ruleset quiet_rules = (
    no_panic_rules, NoPanic-set_phase, NoPanic-count_restart, NoPanic-set_restarting,
    NoPanic-unset_restarting, NoPanic-remove_container, NoPanic-create_container,
    NoPanic-stop_pod_sandbox, NoPanic-remove_pod_sandbox, NoPanic-run_pod_sandbox,
  )

  NoPanic-restart_units : (status : PodSpec) → NoPanic (restart_units rt status)
  unfolding restart_units delete_unit add_unit
  NoPanic-restart_units status = search quiet_rules depth 30

  NoPanic-apply_change :
      (event : UpdateType) (status : PodSpec) → NoPanic (apply_change rt event status)
  unfolding apply_change create_pod restart_pod
  NoPanic-apply_change no_changes status = search quiet_rules
  NoPanic-apply_change units_change status = search (quiet_rules, NoPanic-restart_units)
  NoPanic-apply_change pod_create status = search quiet_rules depth 30
  NoPanic-apply_change pod_restart status = search quiet_rules depth 30

  -- If the runtime gives a status with every error of a container that it could not create, then
  -- the synchronous part of an update does not panic, whatever else the runtime answers.
  pub begin_sync-NoPanic :
      (status : PodSpec) (creds : Map RegistryCredentials) (pc : PodController W)
      → is_panic (begin_sync rt status creds pc).0 ≡ false
  unfolding begin_sync
  begin_sync-NoPanic status creds pc = ground (
    arith,
    (NoPanic-apply_change (detect_change_type pc.spec status) status).at
        (record pc { all_creds = creds }),
  )
