-- ===== src/Controller/Runtime.antt =====
-- pkg/runtime/runtime.go: what the controller asks of a container runtime. A runtime is an object
-- with a state `W`; each method returns its results and the new state.
use itzo.Base.{ℕ, Bool, Option, List, [], ◌∷◌, ◌++◌, Str, Map, Error}
use itzo.Api.{UnitSpec, PodSpec, UnitStatus, RegistryCredentials}

-- A `*UnitStatus`, which may be nil, with an `error`.
pub record Reply : Type 0 where
  pub status : Option UnitStatus
  pub err : Option Error

-- `RunPodSandbox` gets a pointer to the specification and may change it; it is returned.
-- Of the other methods none writes through its pointer.
pub record RuntimeService (W : Type 0) : Type 0 where
  pub run_pod_sandbox : W → PodSpec → Option Error × PodSpec × W
  pub stop_pod_sandbox : W → PodSpec → Option Error × W
  pub remove_pod_sandbox : W → PodSpec → Option Error × W
  pub create_container : W → UnitSpec → PodSpec → Str → Map RegistryCredentials → Bool → Reply × W
  pub start_container : W → UnitSpec → PodSpec → Str → Reply × W
  pub remove_container : W → UnitSpec → Option Error × W
  pub container_status : W → Str → Str → Reply × W
  pub unit_running : W → Str → Bool
  pub get_pid : W → Str → Option ℕ
  pub set_pod_network : W → Str → Str → W

-- A call that changes the containers, with the name of the unit that it is about, and whether a
-- container is created over an overlay file system.
pub data Call : Type 0 where
  run_sandbox stop_sandbox remove_sandbox : Call
  create : Str → Bool → Call
  start : Str → Call
  delete : Str → Call

-- Any runtime, with a record of the calls that it got, the oldest first.
abbrev pub traced : {W : Type 0} → RuntimeService W → RuntimeService (W × List Call)
traced rt = record {
  run_pod_sandbox =
      λ w spec. let r = rt.run_pod_sandbox w.0 spec in (r.0, r.1, (r.2, w.1 ++ run_sandbox ∷ []));
  stop_pod_sandbox =
      λ w spec. let r = rt.stop_pod_sandbox w.0 spec in (r.0, (r.1, w.1 ++ stop_sandbox ∷ []));
  remove_pod_sandbox =
      λ w spec. let r = rt.remove_pod_sandbox w.0 spec in (r.0, (r.1, w.1 ++ remove_sandbox ∷ []));
  create_container = λ w unit spec pod_name creds overlay.
      let r = rt.create_container w.0 unit spec pod_name creds overlay in
      (r.0, (r.1, w.1 ++ create unit.name overlay ∷ []));
  start_container = λ w unit spec pod_name.
      let r = rt.start_container w.0 unit spec pod_name in
      (r.0, (r.1, w.1 ++ start unit.name ∷ []));
  remove_container =
      λ w unit. let r = rt.remove_container w.0 unit in (r.0, (r.1, w.1 ++ delete unit.name ∷ []));
  container_status =
      λ w name image. let r = rt.container_status w.0 name image in (r.0, (r.1, w.1));
  unit_running = λ w name. rt.unit_running w.0 name;
  get_pid = λ w name. rt.get_pid w.0 name;
  set_pod_network = λ w ns ip. (rt.set_pod_network w.0 ns ip, w.1);
}
