-- ===== src/Api/Pods.antt =====
-- A pod, as the client specifies it: pkg/api/types.go and internal.go. The fields of `PodSpec`
-- that this agent only stores (spot, resources, placement, DNS, host aliases) are left out.
use itzo.Base.{List, Option, Str, Map, ℤ, Bool, true, false, none, some}
use itzo.Api.Units.{UnitSpec}
use itzo.Api.Volumes.{Volume}

pub data PodPhase : Type 0 where
  waiting dispatching running succeeded failed terminated : PodPhase

pub data RestartPolicy : Type 0 where
  always on_failure never : RestartPolicy

pub data NamespaceMode : Type 0 where
  pod container node : NamespaceMode

pub record NamespaceOption : Type 0 where
  pub network : NamespaceMode
  pub pid : NamespaceMode
  pub ipc : NamespaceMode

pub record Sysctl : Type 0 where
  pub name : Str
  pub value : Str

pub record PodSecurityContext : Type 0 where
  pub namespace_options : Option NamespaceOption
  pub run_as_user : Option ℤ
  pub run_as_group : Option ℤ
  pub supplemental_groups : List ℤ
  pub sysctls : List Sysctl

pub record PodSpec : Type 0 where
  pub phase : PodPhase
  pub restart_policy : RestartPolicy
  pub units : List UnitSpec
  pub init_units : List UnitSpec
  pub volumes : List Volume
  pub security_context : Option PodSecurityContext
  pub hostname : Str

pub record RegistryCredentials : Type 0 where
  pub server : Str
  pub username : Str
  pub password : Str

pub record PodParameters : Type 0 where
  pub secrets : Map (Map Str)
  pub credentials : Map RegistryCredentials
  pub spec : PodSpec
  pub annotations : Map Str
  pub pod_name : Str
  pub node_name : Str
  pub pod_ip : Str
  pub pod_hostname : Str

is_node : NamespaceMode → Bool
is_node node = true
is_node _ = false

network_of : Option NamespaceOption → Bool
unfolding is_node
network_of none = false
network_of (some o) = is_node o.network

unfoldable pub is_host_network : Option PodSecurityContext → Bool
unfolding network_of
is_host_network none = false
is_host_network (some c) = network_of c.namespace_options
