-- ===== src/Controller/Update/Frame.antt =====
-- What the synchronous part of an update leaves alone.
use itzo.Base.{◌≡◌, List, [], ◌∷◌, arith, Map}
use itzo.Api.{UnitSpec, PodSpec, RegistryCredentials, PodPhase}
use itzo.Controller.Runtime.{RuntimeService}
use itzo.Controller.Diff.{
  UpdateType, no_changes, pod_restart, pod_create, units_change, detect_change_type,
}
use itzo.Io.{Result, ok, err, panic, pure, get, continue, ◌>>=◌, for_each}
use itzo.Controller.State.{PodController, Exec}
use itzo.Controller.Update.{
  set_phase, count_restart, set_restarting, unset_restarting, remove_container, create_container,
  stop_pod_sandbox, remove_pod_sandbox, run_pod_sandbox, create_pod, restart_pod, delete_unit,
  add_unit, restart_units, apply_change, begin_sync,
}

-- The parts of the controller that belong to the update loop and not to the pod.
pub record SameFrame {W : Type 0} (a b : PodController W) : Type 0 where
  pub wait_group : a.wait_group ≡ b.wait_group
  pub update_chan : a.update_chan ≡ b.update_chan
  pub pod_status : a.pod_status ≡ b.pod_status
  pub annotations : a.annotations ≡ b.annotations
  pub pod_name : a.pod_name ≡ b.pod_name

record Keeps {W A : Type 0} (m : Exec W A) : Type 0 where
  at : (pc : PodController W) → SameFrame (m pc).1 pc

SameFrame-trans :
    {W : Type 0} {a b c : PodController W} → SameFrame a b → SameFrame b c → SameFrame a c
SameFrame-trans h k = ground arith

module _ {W A B : Type 0} where
  Keeps-continue :
      (r : Result A) (f : A → Exec W B) (pc : PodController W)
      → ((a : A) → Keeps (f a))
      → SameFrame (continue r f pc).1 pc
  Keeps-continue (ok a) f pc h = (h a).at pc
  Keeps-continue (err e) f pc h = ground arith
  Keeps-continue panic f pc h = ground arith

  Keeps-bind :
      (m : Exec W A) (f : A → Exec W B) → Keeps m → ((a : A) → Keeps (f a)) → Keeps (m >>= f)
  Keeps-bind m f h k = record {
    at = λ pc. SameFrame-trans (Keeps-continue (m pc).0 f (m pc).1 k) (h.at pc);
  }

module _ {W A : Type 0} where
  Keeps-pure : (a : A) → Keeps {W = W} (pure a)
  Keeps-pure a = record { at = λ pc. ground arith }

  Keeps-for_each :
      (xs : List A) (body : A → Exec W (Unit {0}))
      → ((x : A) → Keeps (body x))
      → Keeps (for_each xs body)
  unfolding for_each
  Keeps-for_each [] body h = record { at = λ pc. ground arith }
  Keeps-for_each (x ∷ xs) body h = record {
    at = λ pc. ground (arith, (h x).at pc, (Keeps-for_each xs body h).at (body x pc).1);
  }

Keeps-get : {W : Type 0} → Keeps {W = W} get
Keeps-get = record { at = λ pc. ground arith }

module _ {W : Type 0} where
  Keeps-set_phase : (phase : PodPhase) → Keeps {W = W} (set_phase phase)
  unfolding set_phase
  Keeps-set_phase phase = record { at = λ pc. ground arith }

  Keeps-count_restart : Keeps {W = W} count_restart
  unfolding count_restart
  Keeps-count_restart = record { at = λ pc. ground arith }

  Keeps-set_restarting : (unit : UnitSpec) → Keeps {W = W} (set_restarting unit)
  unfolding set_restarting
  Keeps-set_restarting unit = record { at = λ pc. ground arith }

  Keeps-unset_restarting : (unit : UnitSpec) → Keeps {W = W} (unset_restarting unit)
  unfolding unset_restarting
  Keeps-unset_restarting unit = record { at = λ pc. ground arith }

module _ {W : Type 0} (rt : RuntimeService W) where
  Keeps-remove_container : (unit : UnitSpec) → Keeps (remove_container rt unit)
  unfolding remove_container
  Keeps-remove_container unit = record { at = λ pc. ground arith }

  Keeps-create_container : (unit : UnitSpec) → Keeps (create_container rt unit)
  unfolding create_container
  Keeps-create_container unit = record { at = λ pc. ground arith }

  Keeps-stop_pod_sandbox : (status : PodSpec) → Keeps (stop_pod_sandbox rt status)
  unfolding stop_pod_sandbox
  Keeps-stop_pod_sandbox status = record { at = λ pc. ground arith }

  Keeps-remove_pod_sandbox : (status : PodSpec) → Keeps (remove_pod_sandbox rt status)
  unfolding remove_pod_sandbox
  Keeps-remove_pod_sandbox status = record { at = λ pc. ground arith }

  Keeps-run_pod_sandbox : Keeps (run_pod_sandbox rt)
  unfolding run_pod_sandbox
  Keeps-run_pod_sandbox = record { at = λ pc. ground arith }

  ruleset keeps_rules = (
    Keeps-bind, Keeps-pure, Keeps-get, Keeps-for_each, Keeps-set_phase, Keeps-count_restart,
    Keeps-set_restarting, Keeps-unset_restarting, Keeps-remove_container, Keeps-create_container,
    Keeps-stop_pod_sandbox, Keeps-remove_pod_sandbox, Keeps-run_pod_sandbox,
  )

  Keeps-create_pod : Keeps (create_pod rt)
  unfolding create_pod
  Keeps-create_pod = search keeps_rules

  Keeps-restart_pod : (status : PodSpec) → Keeps (restart_pod rt status)
  unfolding restart_pod
  Keeps-restart_pod status = search keeps_rules depth 20

  Keeps-delete_unit : (unit : UnitSpec) → Keeps (delete_unit rt unit)
  unfolding delete_unit
  Keeps-delete_unit unit = search keeps_rules

  Keeps-add_unit : (unit : UnitSpec) → Keeps (add_unit rt unit)
  unfolding add_unit
  Keeps-add_unit unit = search keeps_rules

  Keeps-restart_units : (status : PodSpec) → Keeps (restart_units rt status)
  unfolding restart_units
  Keeps-restart_units status = search (keeps_rules, Keeps-delete_unit, Keeps-add_unit) depth 20

  Keeps-apply_change :
      (event : UpdateType) (status : PodSpec) → Keeps (apply_change rt event status)
  unfolding apply_change
  Keeps-apply_change no_changes status = search keeps_rules
  Keeps-apply_change units_change status = search (keeps_rules, Keeps-restart_units)
  Keeps-apply_change pod_create status = search (keeps_rules, Keeps-create_pod)
  Keeps-apply_change pod_restart status = search (keeps_rules, Keeps-restart_pod)

  -- Whatever the runtime answers, applying a change leaves the counter of the wait group, the
  -- channel, the status that the next update is compared with, the pod's name and the annotations
  -- as they were.
  pub begin_sync-SameFrame :
      (status : PodSpec) (creds : Map RegistryCredentials) (pc : PodController W)
      → SameFrame (begin_sync rt status creds pc).1 pc
  unfolding begin_sync
  begin_sync-SameFrame status creds pc = ground (
    arith,
    (Keeps-apply_change (detect_change_type pc.spec status) status).at
        (record pc { all_creds = creds }),
  )
