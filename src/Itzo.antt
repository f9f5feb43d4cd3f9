-- ===== src/Itzo.antt =====
-- The runtime that keeps each container in a directory of its own: pkg/runtime/itzo_linux.go, and
-- the interfaces of pkg/runtime/itzo.go that it calls.
pub mod Interfaces
pub mod Pull
pub mod Removal
pub mod Laws
mod Tests
use itzo.Base.{
  ℕ, Bool, true, false, Option, none, some, List, [], ◌∷◌, ◌++◌, map, if◌then◌else◌, Str, lit, Map,
  Error, pos, ◌⊎◌, inl, inr,
}
use itzo.Api.{
  UnitSpec, PodSpec, PodPhase, PodSecurityContext, NamespaceOption, SecurityContext, UnitStatus,
  EnvVar, VolumeMount, RegistryCredentials, make_failed_update_status, make_still_creating_status,
  no_state, Volume,
}
use itzo.Controller.Runtime.{RuntimeService, Reply}
use itzo.RunUnit.State.{UnitConfig, no_pod_security, no_security}
use itzo.Utils.Images.{translate_probe_ports}
use itzo.Itzo.Interfaces.{Act, Services, UnitPackage, and_then, each}

-- The fields of `ItzoRuntime` that change, and `world`, the state of what its services keep.
pub record ItzoRuntime (W : Type 0) : Type 0 where
  pub world : W
  pub net_ns : Str
  pub pod_ip : Str

unfoldable pub make_app_env : UnitSpec → List Str
make_app_env unit = map (λ (ev : EnvVar). ev.name ++ b'=' ∷ ev.value) unit.env

or_default {ℓ} : {A : Type ℓ} → A → Option A → A
or_default d none = d
or_default d (some a) = a

-- `UseOverlayfs` is not set, so it is false.
unfoldable pub unit_config_of : Str → UnitSpec → Option PodSecurityContext → UnitConfig
unfolding or_default
unit_config_of pod_ip unit pod_security_context = record {
  pod_security_context = or_default no_pod_security pod_security_context;
  security_context = or_default no_security unit.security_context;
  startup_probe = translate_probe_ports unit unit.startup_probe;
  readiness_probe = translate_probe_ports unit unit.readiness_probe;
  liveness_probe = translate_probe_ports unit unit.liveness_probe;
  termination_message_policy = unit.termination_message_policy;
  termination_message_path = unit.termination_message_path;
  pod_ip = pod_ip;
  use_overlayfs = false;
}

-- A method's result, as `return err` and as `return MakeFailedUpdateStatus(...), err` give it.
abbrev pub failed_reply : UnitSpec → Str → Error → Reply
failed_reply unit msg e = record {
  status = some (make_failed_update_status unit.name unit.image msg);
  err = some e;
}

abbrev pub no_reply : Reply
no_reply = record { status = none; err = none }

abbrev pub answer : UnitStatus → Option Error → Reply
answer status e = record { status = some status; err = e }

abbrev pub running_status : Str → Str → UnitStatus
running_status name image = record {
  name = name;
  state = record no_state { running = some (record { started_at = 0 }) };
  last_termination_state = no_state;
  restart_count = pos 0;
  image = image;
  ready = true;
  started = none;
}

module _ {W U : Type 0} (services : Services W) (units : UnitPackage W U) (error_text : Error → Str)
    (rootdir : Str) where
  unfoldable pub run_pod_sandbox : ItzoRuntime W → PodSpec → Option Error × PodSpec × ItzoRuntime W
  run_pod_sandbox i spec =
      let r = each services.create_mount spec.volumes i.world in
      elim r.0 [
        | some e ↦ (some e, spec, record i { world = r.1 })
        | none ↦ (none, record spec { phase = PodPhase.dispatching }, record i { world = r.1 })
      ]

  unfoldable pub stop_pod_sandbox : ItzoRuntime W → PodSpec → Option Error × ItzoRuntime W
  stop_pod_sandbox i spec = (none, i)

  -- Errors are logged, except those of the last step.
  detach_all : UnitSpec → List VolumeMount → W → W
  detach_all unit [] w = w
  detach_all unit (m ∷ ms) w = detach_all unit ms (services.detach_mount unit.name m.mount_path w).1

  unfoldable pub remove_unit_files : UnitSpec → Act W
  unfolding detach_all
  remove_unit_files unit w =
      services.remove_unit unit.name
        (detach_all unit unit.volume_mounts (services.stop_unit unit.name w).1)

  unfoldable pub remove_container : ItzoRuntime W → UnitSpec → Option Error × ItzoRuntime W
  remove_container i unit =
      let r = remove_unit_files unit i.world in (r.0, record i { world = r.1 })

  unfoldable pub remove_pod_sandbox : ItzoRuntime W → PodSpec → Option Error × ItzoRuntime W
  remove_pod_sandbox i spec =
      let r =
        and_then (each remove_unit_files (spec.init_units ++ spec.units))
          (each services.delete_mount spec.volumes) i.world in
      (r.0, record i { world = r.1 })

  opened_save : UnitSpec → UnitConfig → (Error ⊎ U) × W → Option Error × W
  opened_save unit config (inl e, w) =
      (some (Error.wrapf "opening unit %q for saving unit configuration: %v" (unit.name ∷ []) e), w)
  opened_save unit config (inr u, w) =
      let r = units.save_unit_config u config w in
      elim r.0 [
        | none ↦ r
        | some e ↦ (some (Error.wrapf "saving unit %q configuration: %v" (unit.name ∷ []) e), r.1)
      ]

  unfoldable pub save_unit_config : Str → UnitSpec → Option PodSecurityContext → Act W
  unfolding opened_save
  save_unit_config pod_ip unit pod_security_context w =
      opened_save unit (unit_config_of pod_ip unit pod_security_context)
        (units.open_unit rootdir unit.name w)

  -- The mounts of a container; the reply is that of the first one that failed.
  attach_all : UnitSpec → List VolumeMount → W → Reply × W
  unfolding lit
  attach_all unit [] w = (no_reply, w)
  attach_all unit (m ∷ ms) w =
      let r = services.attach_mount unit.name m.name m.mount_path w in
      let rest = attach_all unit ms r.1 in
      elim r.0 [
        | none ↦ rest
        | some e ↦ (
          failed_reply unit
              (lit "Error attaching mount "
                ++ m.name
                ++ lit " to unit "
                ++ unit.name
                ++ lit ": "
                ++ error_text e)
              e,
          r.1,
        )
      ]

  create_saved : UnitSpec → Option Error × W → Reply × W
  unfolding attach_all lit
  create_saved unit (some e, w) = (
    failed_reply unit
        (lit "Error saving unit " ++ unit.name ++ lit " configuration: " ++ error_text e) e,
    w,
  )
  create_saved unit (none, w) = attach_all unit unit.volume_mounts w

  create_pulled : Str → UnitSpec → PodSpec → Option Error × W → Reply × W
  unfolding create_saved lit
  create_pulled pod_ip unit spec (some e, w) = (
    failed_reply unit (lit "Bad image spec for unit " ++ unit.name ++ lit ": " ++ error_text e) e,
    w,
  )
  create_pulled pod_ip unit spec (none, w) =
      create_saved unit (save_unit_config pod_ip unit spec.security_context w)

  -- Pull the image, save the configuration, attach the mounts.
  unfoldable pub create_container :
      ItzoRuntime W
      → UnitSpec
      → PodSpec
      → Str
      → Map RegistryCredentials
      → Bool
      → Reply × ItzoRuntime W
  unfolding create_pulled
  create_container i unit spec pod_name registry_credentials use_overlayfs =
      let r = create_pulled i.pod_ip unit spec (
        services.pull_image rootdir unit.name unit.image registry_credentials use_overlayfs
          i.world) in
      (r.0, record i { world = r.1 })

  started_reply : UnitSpec → Option Error → Reply
  unfolding lit
  started_reply unit none = no_reply
  started_reply unit (some e) =
      failed_reply unit (lit "Error starting unit " ++ unit.name ++ lit ": " ++ error_text e) e

  unfoldable pub start_container : ItzoRuntime W → UnitSpec → PodSpec → Str → Reply × ItzoRuntime W
  unfolding make_app_env started_reply
  start_container i unit pod_spec pod_name =
      let r =
        services.start_unit pod_name pod_spec.hostname unit.name unit.working_dir i.net_ns
          unit.command unit.args (make_app_env unit) pod_spec.restart_policy i.world in
      (started_reply unit r.0, record i { world = r.1 })

  opened_status : Str → Str → (Error ⊎ U) × W → Reply
  unfolding lit
  opened_status name image (inl e, w) =
      answer (make_still_creating_status name image (lit "PodInitializing")) (some e)
  opened_status name image (inr u, w) = elim (units.get_status u w) [
    | inl e ↦ answer (make_still_creating_status name image (lit "PodInitializing")) none
    | inr status ↦ answer status none
  ]

  -- A unit that neither runs nor exists is still being created; opening one that exists may write.
  unfoldable pub container_status : ItzoRuntime W → Str → Str → Reply × ItzoRuntime W
  unfolding opened_status lit
  container_status i name image =
      let opened = units.open_unit rootdir name i.world in
      if services.unit_running name i.world
      then (answer (running_status name image) none, i)
      else if units.is_unit_exist rootdir name i.world
      then (opened_status name image opened, record i { world = opened.1 })
      else (answer (make_still_creating_status name image (lit "PodInitializing")) none, i)

  unfoldable pub set_pod_network : ItzoRuntime W → Str → Str → ItzoRuntime W
  set_pod_network i net_ns pod_ip = record i { net_ns = net_ns; pod_ip = pod_ip }

  -- `ItzoRuntime` as the runtime of the controller.
  abbrev pub itzo_runtime : RuntimeService (ItzoRuntime W)
  itzo_runtime = record {
    run_pod_sandbox = run_pod_sandbox;
    stop_pod_sandbox = stop_pod_sandbox;
    remove_pod_sandbox = remove_pod_sandbox;
    create_container = create_container;
    start_container = start_container;
    remove_container = remove_container;
    container_status = container_status;
    unit_running = λ i name. services.unit_running name i.world;
    get_pid = λ i name. services.get_pid name i.world;
    set_pod_network = set_pod_network;
  }
