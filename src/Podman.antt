-- ===== src/Podman.antt =====
-- The runtime over podman: pkg/runtime/podman/podman.go. Podman's client is a parameter; `none` of
-- a method's result is a Go panic.
pub mod Convert
pub mod Laws
pub mod Logs
mod Tests
use itzo.Base.{
  ℕ, zero, suc, Bool, true, false, not, Option, none, some, is_some, List, [], ◌∷◌, ◌++◌,
  if◌then◌else◌, ◌==◌, nat_eq, str_eq, Str, lit, str_beq, split, Map, insert, ℤ, pos, negsuc,
  is_zero, Error, ◌⊎◌, inl, inr,
}
use itzo.Api.{
  UnitSpec, PodSpec, RestartPolicy, EnvVar, VolumeMount, ContainerPort, Volume,
  HostPathVolumeSource, RegistryCredentials, UnitStatus, is_host_network,
  make_still_creating_status, make_failed_update_status, no_state,
}
use itzo.Controller.Runtime.{Reply}
use itzo.Io.Os.{Os}
use itzo.Io.Paths.{join_path}
use itzo.LogBuf.{LogBuffer, new_log_buffer, write, LogSource}
use itzo.Utils.Images.{parse_image_spec, get_repo_creds}
use itzo.Podman.Convert.{
  Container, ContainerData, KubeVolume, VolumeSource, PortMapping, packages, milpa_to_k8s_volume,
  unit_to_container, container_state_to_unit, unit_ports_to_podman_port_mapping,
}

-- What is set of `specgen.PodSpecGenerator`.
pub record PodSpecGenerator : Type 0 where
  pub name : Str
  pub hostname : Str
  pub host_network : Bool
  pub no_manage_resolv_conf : Bool
  pub no_manage_hosts : Bool
  pub port_mappings : List PortMapping

pub record BindMount : Type 0 where
  pub destination : Str
  pub source : Str

-- What is set of `specgen.SpecGenerator`.
pub record SpecGenerator : Type 0 where
  pub image : Str
  pub name : Str
  pub pod : Str
  pub command : List Str
  pub restart_policy : Str
  pub env : Map Str
  pub mounts : List BindMount

-- The packages of podman's client that are called. The report of `stop_pod` is its list of errors,
-- that of `remove_pod` its error, both behind a pointer.
pub record Client (W : Type 0) : Type 0 where
  pub create_pod : PodSpecGenerator → W → Option Error × W
  pub stop_pod : Str → W → Option (List Error) × Option Error × W
  pub remove_pod : Str → W → Option (Option Error) × Option Error × W
  pub image_exists : Str → W → Error ⊎ Bool
  pub pull : Str → Str × Str → W → Option Error × W
  pub create_container : SpecGenerator → W → Option Error × W
  pub start : Str → W → Option Error × W
  pub stop : Str → W → Option Error × W
  pub remove : Str → W → Option Error × W
  pub inspect : Str → W → Option ContainerData × Option Error

abbrev pub pod_name : Str
pod_name = lit "itzopod"

unfoldable pub unit_name_to_container_name : Str → Str
unfolding lit
unit_name_to_container_name unit_name = pod_name ++ b'-' ∷ unit_name

unfoldable pub restart_policy_text : RestartPolicy → Str
unfolding lit
restart_policy_text RestartPolicy.always = lit "always"
restart_policy_text RestartPolicy.on_failure = lit "on-failure"
restart_policy_text RestartPolicy.never = lit "no"

-- The port mappings of all units, up to the first error.
join_mappings : Error ⊎ List PortMapping → Error ⊎ List PortMapping → Error ⊎ List PortMapping
join_mappings (inl e) rest = inl e
join_mappings (inr ms) (inl e) = inl e
join_mappings (inr ms) (inr rest) = inr (ms ++ rest)

unfoldable pub pod_mappings : List UnitSpec → Error ⊎ List PortMapping
unfolding join_mappings
pod_mappings [] = inr []
pod_mappings (unit ∷ units) =
    join_mappings (unit_ports_to_podman_port_mapping unit.ports) (pod_mappings units)

or_pod : Str → Str
or_pod [] = pod_name
or_pod (c ∷ s) = c ∷ s

unfoldable pub pod_spec : PodSpec → List PortMapping → PodSpecGenerator
unfolding or_pod lit
pod_spec spec mappings = record {
  name = pod_name;
  hostname = or_pod spec.hostname;
  host_network = is_host_network spec.security_context;
  no_manage_resolv_conf = true;
  no_manage_hosts = true;
  port_mappings = mappings;
}

-- The environment as a map: a later value replaces an earlier one.
env_map : List EnvVar → Map Str → Map Str
unfolding insert
env_map [] m = m
env_map (e ∷ es) m = env_map es (elim e.value_from [ none ↦ insert e.name e.value m | some _ ↦ m ])

-- Where a volume is on the host; without a volume its zero value counts.
host_path_of_volume : Option KubeVolume → Str
unfolding lit join_path
host_path_of_volume none = join_path (packages ∷ [] ∷ [])
host_path_of_volume (some v) = elim v.source [
  | VolumeSource.host_path h ↦ h.path
  | _ ↦ join_path (packages ∷ v.name ∷ [])
]

with_sub_path : Str → Str → Str
unfolding join_path
with_sub_path path [] = path
with_sub_path path (c ∷ sub) = join_path (path ∷ (c ∷ sub) ∷ [])

bind_mount : VolumeMount → Option KubeVolume → BindMount
unfolding with_sub_path host_path_of_volume
bind_mount m v = record {
  destination = m.mount_path;
  source = with_sub_path (host_path_of_volume v) m.sub_path;
}

unfoldable pub find_volume : Str → List Volume → Option Volume
find_volume name [] = none
find_volume name (v ∷ vs) =
    let rest = find_volume name vs in if v.name == name then some v else rest

-- `for _, msg := range out`: the first word is the time, the others are joined without a space.
unfoldable pub concat : List Str → Str
concat [] = []
concat (s ∷ ss) = s ++ concat ss

record_line : Str → Str × List Str → LogBuffer → Option LogBuffer
unfolding concat write
record_line msg (first, []) lb = some lb
record_line msg (first, word ∷ words) lb =
    write lb [] LogSource.stdout (concat (word ∷ words) ++ b'\n' ∷ []) (some first)

abbrev pub unless_panic : Option LogBuffer → (LogBuffer → Option LogBuffer) → Option LogBuffer
unless_panic none f = none
unless_panic (some lb) f = f lb

unfoldable pub write_logs : List Str → LogBuffer → Option LogBuffer
unfolding record_line split
write_logs [] lb = some lb
write_logs (msg ∷ msgs) lb = unless_panic (record_line msg (split b' ' msg) lb) (write_logs msgs)

-- A length for `make`, which panics on a negative one.
unfoldable pub tail_of : ℤ → Option ℕ
tail_of (pos zero) = some 4096
tail_of (pos (suc n)) = some (suc n)
tail_of (negsuc n) = none

-- The messages are those that the channel delivers until podman closes it.
unfoldable pub get_log_buffer : ℤ → List Str → Option LogBuffer
unfolding tail_of write_logs new_log_buffer
get_log_buffer line_num msgs = elim (tail_of line_num) [
  | none ↦ none
  | some tail ↦ write_logs msgs (new_log_buffer tail)
]

abbrev pub running_of : Option UnitStatus → Option Bool
running_of none = none
running_of (some status) = some (is_some status.state.running)

module _ {W : Type 0} (os : Os W) (client : Client W) where
  unfoldable pub run_pod_sandbox : W → PodSpec → Option Error × PodSpec × W
  unfolding pod_mappings pod_spec
  run_pod_sandbox w spec = elim (pod_mappings spec.units) [
    | inl e ↦ (some e, spec, w)
    | inr mappings ↦ let r = client.create_pod (pod_spec spec mappings) w in (r.0, spec, r.1)
  ]

  stop_error : Option (List Error) → Option Error → Option Error
  stop_error (some (e ∷ es)) err = some (Error.errorf "TODO" [])
  stop_error (some []) err = err
  stop_error none err = err

  unfoldable pub stop_pod_sandbox : W → PodSpec → Option Error × W
  unfolding stop_error lit
  stop_pod_sandbox w spec = let r = client.stop_pod pod_name w in (stop_error r.0 r.1, r.2)

  remove_error : Option (Option Error) → Option Error → Option Error
  remove_error (some (some e)) err = some e
  remove_error (some none) err = err
  remove_error none err = err

  unfoldable pub remove_pod_sandbox : W → PodSpec → Option Error × W
  unfolding remove_error lit
  remove_pod_sandbox w spec = let r = client.remove_pod pod_name w in (remove_error r.0 r.1, r.2)

  pull_missing : Str → Map RegistryCredentials → Error ⊎ Bool → W → Option Error × W
  unfolding parse_image_spec get_repo_creds
  pull_missing image creds (inl e) w = (some e, w)
  pull_missing image creds (inr true) w = (none, w)
  pull_missing image creds (inr false) w =
      client.pull image (get_repo_creds (parse_image_spec image).0 creds) w

  unfoldable pub pull_image : Str → Map RegistryCredentials → W → Option Error × W
  unfolding pull_missing
  pull_image image creds w = pull_missing image creds (client.image_exists image w) w

  -- The mounts of a container: a nil volume panics.
  mount_of : VolumeMount → Option Volume → W → Option BindMount
  unfolding bind_mount
  mount_of m none w = some (bind_mount m none)
  mount_of m (some vol) w = elim (milpa_to_k8s_volume os vol w) [
    | none ↦ none
    | some v ↦ some (bind_mount m (some v))
  ]

  unfoldable pub mounts_of : List VolumeMount → List Volume → W → Option (List BindMount)
  unfolding mount_of find_volume
  mounts_of [] vols w = some []
  mounts_of (m ∷ ms) vols w =
      let rest = mounts_of ms vols w in
      elim (mount_of m (find_volume m.name vols) w) [
        | none ↦ none
        | some b ↦ elim rest [ none ↦ none | some bs ↦ some (b ∷ bs) ]
      ]

  unfoldable pub container_spec : UnitSpec → PodSpec → List BindMount → SpecGenerator
  unfolding env_map unit_to_container unit_name_to_container_name restart_policy_text lit
  container_spec unit spec mounts = record {
    image = (unit_to_container unit).image;
    name = unit_name_to_container_name unit.name;
    pod = pod_name;
    command = unit.command;
    restart_policy = restart_policy_text spec.restart_policy;
    env = env_map (unit_to_container unit).env [];
    mounts = mounts;
  }

  -- What podman answers is only logged.
  create_pulled : UnitSpec → PodSpec → List VolumeMount → Option Error × W → Option Reply × W
  unfolding container_spec mounts_of lit unit_to_container
  create_pulled unit spec ms (some e, w) = (
    some (record {
      status = some (make_failed_update_status unit.name unit.image (lit "Pulling image failed"));
      err = some e;
    }),
    w,
  )
  create_pulled unit spec ms (none, w) = elim (mounts_of ms spec.volumes w) [
    | none ↦ (none, w)
    | some mounts ↦ (
      some (record {
        status = some (make_still_creating_status unit.name unit.image (lit "Container created"));
        err = none;
      }),
      (client.create_container (container_spec unit spec mounts) w).1,
    )
  ]

  unfoldable pub create_container :
      UnitSpec → PodSpec → Map RegistryCredentials → W → Option Reply × W
  unfolding create_pulled pull_image unit_to_container
  create_container unit spec creds w =
      create_pulled unit spec (unit_to_container unit).volume_mounts (pull_image unit.image creds w)

  start_reply : UnitSpec → Option Error → Reply
  unfolding lit
  start_reply unit none = record { status = none; err = none }
  start_reply unit (some e) = record {
    status =
        some
          (make_failed_update_status unit.name unit.image (lit "runtime cannot start container"));
    err = some e;
  }

  unfoldable pub start_container : UnitSpec → W → Reply × W
  unfolding start_reply unit_name_to_container_name
  start_container unit w =
      let r = client.start (unit_name_to_container_name unit.name) w in (start_reply unit r.0, r.1)

  remove_stopped : Str → Option Error × W → Option Error × W
  remove_stopped name (some e, w) = (some e, w)
  remove_stopped name (none, w) = client.remove name w

  unfoldable pub remove_container : UnitSpec → W → Option Error × W
  unfolding remove_stopped unit_name_to_container_name
  remove_container unit w =
      let name = unit_name_to_container_name unit.name in remove_stopped name (client.stop name w)

  -- Both branches read through the pointer.
  status_of : Str → Str → Option ContainerData → Option Error → Option UnitStatus
  unfolding lit container_state_to_unit
  status_of unit_name unit_image none err = none
  status_of unit_name unit_image (some ctr) (some e) =
      some (make_still_creating_status unit_name ctr.image (lit "Container stopped"))
  status_of unit_name unit_image (some ctr) none = some (record {
    name = unit_name;
    state = (container_state_to_unit ctr).0;
    last_termination_state = no_state;
    restart_count = pos 0;
    image = unit_image;
    ready = (container_state_to_unit ctr).1;
    started = none;
  })

  -- The error of the method is always nil.
  unfoldable pub container_status : Str → Str → W → Option UnitStatus
  unfolding status_of unit_name_to_container_name
  container_status unit_name unit_image w =
      let r = client.inspect (unit_name_to_container_name unit_name) w in
      status_of unit_name unit_image r.0 r.1

  unfoldable pub unit_running : Str → W → Option Bool
  unfolding container_status
  unit_running unit_name w = running_of (container_status unit_name [] w)
