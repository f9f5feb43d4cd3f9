-- ===== src/Podman/Convert.antt =====
-- pkg/convert/convert.go: volumes, probes, units and ports as Kubernetes and podman take them. The
-- structs of Kubernetes that have the fields of those of pkg/api are the same records here.
use itzo.Base.{
  ℕ, ◌-◌, ◌%◌, Bool, true, false, Option, none, some, List, [], ◌∷◌, map, if◌then◌else◌, Str, lit,
  to_lower, ℤ, pos, negsuc, is_zero, Error, ◌⊎◌, inl, inr,
}
use itzo.Api.{
  UnitSpec, EnvVar, VolumeMount, ContainerPort, SecurityContext, Probe, Volume, StorageMedium,
  PackagePath, HostPathType, directory, file, HostPathVolumeSource, KeyToPath, SecretVolumeSource,
  ConfigMapVolumeSource, SecretProjection, ConfigMapProjection, VolumeProjection,
  ProjectedVolumeSource, UnitState, Time, no_state,
}
use itzo.Io.Os.{Os, FileInfo}
use itzo.Io.Paths.{join_path}

-- `v1.VolumeSource`, of which the conversion sets one field. The limit of an empty directory is a
-- pointer.
pub data VolumeSource : Type 0 where
  secret : SecretVolumeSource → VolumeSource
  host_path : HostPathVolumeSource → VolumeSource
  config_map : ConfigMapVolumeSource → VolumeSource
  empty_dir : StorageMedium → Option ℤ → VolumeSource
  projected : ProjectedVolumeSource → VolumeSource

pub record KubeVolume : Type 0 where
  pub name : Str
  pub source : VolumeSource

unfoldable pub key_to_path : KeyToPath → KeyToPath
key_to_path k = record { key = k.key; path = k.path; mode = k.mode }

secret_projection : SecretProjection → SecretProjection
unfolding key_to_path
secret_projection s = record {
  name = s.name;
  items = map key_to_path s.items;
  optional = s.optional;
}

config_map_projection : ConfigMapProjection → ConfigMapProjection
unfolding key_to_path
config_map_projection c = record {
  name = c.name;
  items = map key_to_path c.items;
  optional = c.optional;
}

-- A secret goes before a configuration map.
project : Option SecretProjection → Option ConfigMapProjection → VolumeProjection
unfolding secret_projection config_map_projection
project (some s) c = record { secret = some (secret_projection s); config_map = none }
project none (some c) = record { secret = none; config_map = some (config_map_projection c) }
project none none = record { secret = none; config_map = none }

unfoldable pub size_limit : ℤ → Option ℤ
size_limit n = if is_zero n then none else some n

package_path_type : FileInfo → HostPathType
package_path_type info = if info.is_dir then directory else file

-- The error is logged; the zero value of the source is used then.
host_path_of : Str → Error ⊎ FileInfo → HostPathVolumeSource
unfolding package_path_type
host_path_of path (inl e) = record { path = []; host_path_type = none }
host_path_of path (inr info) = record {
  path = path;
  host_path_type = some (package_path_type info);
}

abbrev pub packages : Str
packages = lit "/tmp/itzo/packages"

module _ {W : Type 0} (os : Os W) where
  unfoldable pub convert_package_path : PackagePath → Str → W → HostPathVolumeSource
  unfolding host_path_of join_path lit
  convert_package_path p volume_name w =
      let path = join_path (packages ∷ volume_name ∷ p.path ∷ []) in
      host_path_of path (os.stat path w)

  -- The sources that are tried after those of the clause before.
  source_of_package : Volume → W → Option VolumeSource
  unfolding convert_package_path
  source_of_package vol w = elim vol.package_path [
    | none ↦ none
    | some p ↦ some (host_path (convert_package_path p vol.name w))
  ]

  source_of_projected : Volume → W → Option VolumeSource
  unfolding source_of_package project
  source_of_projected vol w = elim vol.projected [
    | none ↦ source_of_package vol w
    | some p ↦ some (
        projected (record {
          sources = map (λ (s : VolumeProjection). project s.secret s.config_map) p.sources;
          default_mode = p.default_mode;
        }))
  ]

  source_of_empty_dir : Volume → W → Option VolumeSource
  unfolding source_of_projected size_limit
  source_of_empty_dir vol w = elim vol.empty_dir [
    | none ↦ source_of_projected vol w
    | some e ↦ some (empty_dir e.medium (size_limit e.size_limit))
  ]

  source_of_config_map : Volume → W → Option VolumeSource
  unfolding source_of_empty_dir key_to_path
  source_of_config_map vol w = elim vol.config_map [
    | none ↦ source_of_empty_dir vol w
    | some c ↦ some (config_map (record c { items = map key_to_path c.items }))
  ]

  source_of_host_path : Volume → W → Option VolumeSource
  unfolding source_of_config_map
  source_of_host_path vol w = elim vol.host_path [
    | none ↦ source_of_config_map vol w
    | some h ↦ some (host_path h)
  ]

  source_of : Volume → W → Option VolumeSource
  unfolding source_of_host_path key_to_path
  source_of vol w = elim vol.secret [
    | none ↦ source_of_host_path vol w
    | some s ↦ some (secret (record s { items = map key_to_path s.items }))
  ]

  -- `MilpaToK8sVolume`: nil for a volume without a source.
  unfoldable pub milpa_to_k8s_volume : Volume → W → Option KubeVolume
  unfolding source_of
  milpa_to_k8s_volume vol w = elim (source_of vol w) [
    | none ↦ none
    | some s ↦ some (record { name = vol.name; source = s })
  ]

-- The first handler that is there, in the order of the tests.
one_handler : Probe → Probe
one_handler p = elim p.exec [
  | some e ↦ record p { http_get = none; tcp_socket = none }
  | none ↦ elim p.http_get [ some h ↦ record p { tcp_socket = none } | none ↦ p ]
]

unfoldable pub milpa_probe_to_k8s_probe : Option Probe → Option Probe
unfolding one_handler
milpa_probe_to_k8s_probe none = none
milpa_probe_to_k8s_probe (some mp) = some (one_handler mp)

-- `v1.Container`, of the fields that are set; those of a mount are its name and path.
pub record Container : Type 0 where
  pub name : Str
  pub image : Str
  pub command : List Str
  pub args : List Str
  pub working_dir : Str
  pub env : List EnvVar
  pub ports : List ContainerPort
  pub security_context : Option SecurityContext
  pub volume_mounts : List VolumeMount
  pub startup_probe : Option Probe
  pub readiness_probe : Option Probe
  pub liveness_probe : Option Probe

plain_env : EnvVar → EnvVar
plain_env e = record { name = e.name; value = e.value; value_from = none }

unfoldable pub plain_mount : VolumeMount → VolumeMount
plain_mount m = record { name = m.name; mount_path = m.mount_path; sub_path = [] }

-- `UnitToContainer(unit, nil)`, the only call.
unfoldable pub unit_to_container : UnitSpec → Container
unfolding plain_env plain_mount milpa_probe_to_k8s_probe
unit_to_container unit = record {
  name = unit.name;
  image = unit.image;
  command = unit.command;
  args = unit.args;
  working_dir = unit.working_dir;
  env = map plain_env unit.env;
  ports = unit.ports;
  security_context = unit.security_context;
  volume_mounts = map plain_mount unit.volume_mounts;
  startup_probe = milpa_probe_to_k8s_probe unit.startup_probe;
  readiness_probe = milpa_probe_to_k8s_probe unit.readiness_probe;
  liveness_probe = milpa_probe_to_k8s_probe unit.liveness_probe;
}

-- `define.InspectContainerState` and what is read of the data around it.
pub record ContainerState : Type 0 where
  pub running : Bool
  pub dead : Bool
  pub status : Str
  pub error : Str
  pub exit_code : ℤ
  pub started_at : Time
  pub finished_at : Time

pub record ContainerData : Type 0 where
  pub state : Option ContainerState
  pub image : Str

state_of : ContainerState → UnitState × Bool
state_of s =
    if s.running
    then (record no_state { running = some (record { started_at = s.started_at }) }, true)
    else if s.dead
    then (
      record no_state {
        terminated = some (record {
          exit_code = s.exit_code;
          finished_at = s.finished_at;
          reason = s.status;
          message = s.error;
          started_at = s.started_at;
        });
      },
      false,
    )
    else (
      record no_state { waiting = some (record { reason = s.status; start_failure = false }) },
      false,
    )

unfoldable pub container_state_to_unit : ContainerData → UnitState × Bool
unfolding state_of lit
container_state_to_unit ctr_data = elim ctr_data.state [
  | none ↦ (
    record no_state {
      waiting =
          some (record { reason = lit "waiting for container status"; start_failure = false });
    },
    false,
  )
  | some s ↦ state_of s
]

pub record PortMapping : Type 0 where
  pub container_port : ℕ
  pub host_port : ℕ
  pub protocol : Str

-- `uint16(i)`: the lowest 16 bits of the two's complement.
unfoldable pub to_uint16 : ℤ → ℕ
to_uint16 (pos n) = n % 65536
to_uint16 (negsuc n) = 65535 - n % 65536

-- The same port on the host, if none is given.
unfoldable pub mapping_of : ContainerPort → PortMapping
unfolding to_uint16 to_lower
mapping_of port = record {
  container_port = to_uint16 port.container_port;
  host_port = to_uint16 (if is_zero port.host_port then port.container_port else port.host_port);
  protocol = to_lower port.protocol;
}

unfoldable pub add_mapping : ContainerPort → Error ⊎ List PortMapping → Error ⊎ List PortMapping
unfolding mapping_of
add_mapping port (inl e) = inl e
add_mapping port (inr mappings) = inr (mapping_of port ∷ mappings)

unfoldable pub unit_ports_to_podman_port_mapping : List ContainerPort → Error ⊎ List PortMapping
unfolding add_mapping
unit_ports_to_podman_port_mapping [] = inr []
unit_ports_to_podman_port_mapping (port ∷ ports) =
    let rest = unit_ports_to_podman_port_mapping ports in
    if is_zero port.container_port
    then inl (Error.errorf "container port has to be set" [])
    else add_mapping port rest
