-- ===== src/Controller/State.antt =====
-- `PodController` of pkg/server/pod_controller.go, and the actions of its methods.
use itzo.Base.{ℕ, Bool, List, Str, Map}
use itzo.Io.{Io}
use itzo.Api.{PodSpec, PodParameters, UnitStatus, RegistryCredentials}

-- `runtime` is the state of the runtime object, `cancel_func` tells whether it is not nil, and
-- `wait_group` is the counter of the wait group. `spec` is what the parameter `spec` of the update
-- methods points to: they and the runtime write its phase, and after an error too it stays written.
pub record PodController (W : Type 0) : Type 0 where
  pub pod_name : Str
  pub pod_hostname : Str
  pub runtime : W
  pub pod_status : PodSpec
  pub spec : PodSpec
  pub update_chan : List PodParameters
  pub all_creds : Map RegistryCredentials
  pub sync_errors : Map UnitStatus
  pub cancel_func : Bool
  pub wait_group : ℕ
  pub net_ns : Str
  pub pod_ip : Str
  pub pod_restart_count : ℕ
  pub currently_restarting_units : Map Str
  pub annotations : Map Str

-- The methods of the controller.
abbrev pub Exec : Type 0 → Type 0 → Type 0
Exec W A = Io (PodController W) A
