-- ===== src/Api/Units.antt =====
-- A unit (a container) and what it is made of: pkg/api/types.go.
use itzo.Base.{List, Option, Str, ℤ}
use itzo.Api.Probes.{Probe}

pub record SecretKeySelector : Type 0 where
  pub name : Str
  pub key : Str

pub record EnvVarSource : Type 0 where
  pub secret_key_ref : Option SecretKeySelector

pub record EnvVar : Type 0 where
  pub name : Str
  pub value : Str
  pub value_from : Option EnvVarSource

pub record VolumeMount : Type 0 where
  pub name : Str
  pub mount_path : Str
  pub sub_path : Str

pub record ContainerPort : Type 0 where
  pub name : Str
  pub host_port : ℤ
  pub container_port : ℤ
  pub protocol : Str
  pub host_ip : Str

pub record Capabilities : Type 0 where
  pub add : List Str
  pub drop : List Str

pub record SecurityContext : Type 0 where
  pub capabilities : Option Capabilities
  pub run_as_user : Option ℤ
  pub run_as_group : Option ℤ

-- `read_file` is `TerminationMessageReadFile`; `other` is every other text.
pub data TerminationMessagePolicy : Type 0 where
  read_file fallback_to_logs_on_error other : TerminationMessagePolicy

pub record UnitSpec : Type 0 where
  pub name : Str
  pub image : Str
  pub command : List Str
  pub args : List Str
  pub env : List EnvVar
  pub volume_mounts : List VolumeMount
  pub ports : List ContainerPort
  pub working_dir : Str
  pub security_context : Option SecurityContext
  pub liveness_probe : Option Probe
  pub readiness_probe : Option Probe
  pub startup_probe : Option Probe
  pub termination_message_path : Str
  pub termination_message_policy : TerminationMessagePolicy
