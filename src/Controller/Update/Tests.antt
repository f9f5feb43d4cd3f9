-- ===== src/Controller/Update/Tests.antt =====
-- The theorems on updates at a concrete pod and runtime.
use itzo.Base.{lookup, ◌≡◌, refl, true, [], ◌∷◌}
use itzo.Io.{ok, for_each}
use itzo.Controller.Samples.{calm, controller, web, new_web, old_spec, spec_of}
use itzo.Controller.Runtime.{traced, stop_sandbox, remove_sandbox, run_sandbox, delete, create}
use itzo.Controller.Update.{
  restart_pod, remove_container, create_container, stop_pod_sandbox, remove_pod_sandbox,
  run_pod_sandbox, count_restart, set_phase, use_image_overlay_rootfs,
}
use itzo.Controller.Update.Calls.{calls}
use itzo.Controller.Update.Restart.{restart_pod-calls}

restarted :
    (restart_pod (traced calm) old_spec (controller (tt, []) (spec_of (new_web ∷ []) []))).0 ≡ ok tt
unfolding restart_pod remove_container create_container stop_pod_sandbox remove_pod_sandbox
    run_pod_sandbox count_restart set_phase for_each
restarted = refl

restart_pod-calls_example :
    calls (restart_pod (traced calm) old_spec (controller (tt, []) (spec_of (new_web ∷ []) []))).1
    ≡ delete web.name ∷ stop_sandbox ∷ remove_sandbox ∷ run_sandbox ∷ create new_web.name true ∷ []
unfolding restart_pod for_each remove_container stop_pod_sandbox remove_pod_sandbox run_pod_sandbox
    create_container count_restart set_phase use_image_overlay_rootfs lookup
restart_pod-calls_example =
    restart_pod-calls calm (controller (tt, []) (spec_of (new_web ∷ []) [])) old_spec restarted
