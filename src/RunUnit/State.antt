-- ===== src/RunUnit/State.antt =====
-- The data of pkg/unit/unit.go, and what it asks of encoding/json and of the file system.
use itzo.Base.{Bool, false, none, [], Option, List, Str, Error, ◌⊎◌}
use itzo.Api.{UnitStatus, Probe, SecurityContext, TerminationMessagePolicy, PodSecurityContext}

-- `Config`, of which the agent reads these fields; `volumes` are the keys of `Volumes`.
pub record Config : Type 0 where
  pub user : Str
  pub env : List Str
  pub cmd : List Str
  pub working_dir : Str
  pub entrypoint : List Str
  pub volumes : List Str

pub record UnitConfig : Type 0 where
  pub pod_security_context : PodSecurityContext
  pub security_context : SecurityContext
  pub startup_probe : Option Probe
  pub readiness_probe : Option Probe
  pub liveness_probe : Option Probe
  pub termination_message_policy : TerminationMessagePolicy
  pub termination_message_path : Str
  pub pod_ip : Str
  pub use_overlayfs : Bool

-- `Unit` without its pipes, and with the status file as the state that goes along with it.
pub record RunnableUnit : Type 0 where
  pub name : Str
  pub image : Str
  pub config : Option Config
  pub unit_config : UnitConfig

-- What a read of the status file finds.
pub data StatusFile : Type 0 where
  missing : StatusFile
  unreadable : Error → StatusFile
  text : Str → StatusFile

-- encoding/json at `UnitStatus`, and what `WriteFile` makes of the status file.
pub record Files : Type 0 where
  pub marshal : UnitStatus → Error ⊎ Str
  pub unmarshal : Str → Error ⊎ UnitStatus
  pub write_file : Str → StatusFile → Option Error × StatusFile

-- The zero values of the two contexts and of the configuration.
abbrev pub no_pod_security : PodSecurityContext
no_pod_security = record {
  namespace_options = none;
  run_as_user = none;
  run_as_group = none;
  supplemental_groups = [];
  sysctls = [];
}

abbrev pub no_security : SecurityContext
no_security = record { capabilities = none; run_as_user = none; run_as_group = none }

abbrev pub no_unit_config : UnitConfig
no_unit_config = record {
  pod_security_context = no_pod_security;
  security_context = no_security;
  startup_probe = none;
  readiness_probe = none;
  liveness_probe = none;
  termination_message_policy = TerminationMessagePolicy.other;
  termination_message_path = [];
  pod_ip = [];
  use_overlayfs = false;
}
