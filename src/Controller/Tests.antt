-- ===== src/Controller/Tests.antt =====
-- The controller on a concrete pod and runtime, and its theorems at such inputs.
use itzo.Base.{
  ◌≡◌, refl, false, none, some, List, [], ◌∷◌, ◌++◌, arith, lookup, insert, remove, Error, str_beq,
  str_eq,
}
use itzo.Api.{UnitSpec, EnvVar}
use itzo.Controller.Runtime.{RuntimeService, traced, Call}
use itzo.Controller.Diff.{units_slices_equal, diff_units, detect_change_type}
use itzo.Controller.Diff.Laws.{changes, diff_units-eq-changes}
use itzo.Controller.Secrets.{Secrets, merge_secrets_into_spec}
use itzo.Io.{for_each}
use itzo.Controller.Update.{
  Work, begin_sync, apply_change, restart_units, create_pod, set_phase, delete_unit, add_unit,
  remove_container, create_container, set_restarting, unset_restarting, run_pod_sandbox,
  use_image_overlay_rootfs,
}
use itzo.Controller.Update.Calls.{calls, creations, overlay, create_pod-calls}
use itzo.Controller.Task.{Task}
use itzo.Controller.Loop.{System, idle, blocked, submit, round, wakeup, cancellation, run, prepare}
use itzo.Controller.Loop.Hang.{update_while_waiting-hangs}
use itzo.Controller.Loop.Channel.{IsSound, IsAlone, run-IsSound}
use itzo.Controller.Samples.{params_of, calm, controller, setup, web, new_web, old_spec, new_params}

abbrev init_task : Task
init_task = record {
  work = record { inits = []; units = web ∷ [] };
  spec = old_spec;
  waiting = some setup;
  cancelled = false;
}

-- The init unit runs, and an update of the image of the other unit waits.
abbrev updating : System (Unit {0})
updating = record {
  pc = record (controller tt old_spec) { update_chan = new_params ∷ [] };
  loop = idle;
  task = some init_task;
}

abbrev new_work : Work
new_work = record { inits = []; units = new_web ∷ [] }

update_while_waiting-hangs_example :
    let after =
      run calm (round ∷ cancellation ∷ wakeup ∷ submit new_params ∷ round ∷ []) updating in
    (after.loop ≡ blocked new_work new_params) × (after.pc.pod_status ≡ old_spec)
unfolding begin_sync apply_change detect_change_type diff_units units_slices_equal restart_units
    set_phase for_each delete_unit add_unit remove_container create_container set_restarting
    unset_restarting prepare merge_secrets_into_spec str_beq insert remove use_image_overlay_rootfs
    lookup
update_while_waiting-hangs_example =
    update_while_waiting-hangs calm new_work new_params (wakeup ∷ submit new_params ∷ round ∷ [])
      updating refl refl refl refl refl (omega arith)

updating-IsSound : IsSound updating
updating-IsSound = record { pending = omega arith; counts = refl }

run-IsSound_example :
    IsSound (run calm (round ∷ cancellation ∷ wakeup ∷ []) updating)
    × IsAlone calm (run calm (round ∷ cancellation ∷ wakeup ∷ []) updating)
run-IsSound_example =
    run-IsSound calm (round ∷ cancellation ∷ wakeup ∷ []) updating updating-IsSound

-- Two updates wait; the first is dropped.
abbrev two_updates : System (Unit {0})
two_updates = record updating {
  pc = record (controller tt old_spec) { update_chan = params_of old_spec ∷ new_params ∷ [] };
}

diff_units-eq-changes_example :
    diff_units (new_web ∷ setup ∷ []) (web ∷ []) ≡ changes (new_web ∷ setup ∷ []) (web ∷ [])
diff_units-eq-changes_example = diff_units-eq-changes (new_web ∷ setup ∷ []) (web ∷ [])

diff_of_new_image : diff_units (new_web ∷ []) (web ∷ []) ≡ (new_web ∷ [], web ∷ [])
unfolding diff_units str_beq
diff_of_new_image = refl

create_pod-calls_example :
    let pc = controller {W = Unit {0} × List Call} (tt, []) old_spec in
    calls (create_pod (traced calm) pc).1
    ≡ calls pc ++ Call.run_sandbox ∷ creations (overlay pc) (web ∷ [])
unfolding create_pod run_pod_sandbox for_each create_container
create_pod-calls_example = create_pod-calls calm (controller (tt, []) old_spec) refl

-- A runtime that has no status for a container that it does not know.
abbrev forgetful : RuntimeService (Unit {0})
forgetful = record calm {
  container_status = λ w name image. (
    record { status = none; err = some (Error.errorf "cannot find vm id for unit %s" (name ∷ [])) },
    w,
  );
}

abbrev some_secret : EnvVar
some_secret = record {
  name = 7 ∷ [];
  value = [];
  value_from = some (record { secret_key_ref = some (record { name = 8 ∷ []; key = 9 ∷ [] }) });
}

abbrev secret_unit : UnitSpec
secret_unit = record web { env = some_secret ∷ [] }

abbrev secrets : Secrets
secrets = (8 ∷ [], (9 ∷ [], 42 ∷ []) ∷ []) ∷ []

secret_is_put_in :
    merge_secrets_into_spec secrets (secret_unit ∷ [])
    ≡ record web { env = record { name = 7 ∷ []; value = 42 ∷ []; value_from = none } ∷ [] } ∷ []
unfolding merge_secrets_into_spec lookup str_beq
secret_is_put_in = refl
