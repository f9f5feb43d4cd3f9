-- ===== src/Controller/Samples.antt =====
-- A pod, a runtime and a controller to run the tests of the controller on.
use itzo.Base.{true, none, some, List, [], ◌∷◌, Str, pos}
use itzo.Api.{UnitSpec, PodSpec, PodPhase, PodParameters, always, UnitStatus, no_state, read_file}
use itzo.Controller.Runtime.{RuntimeService, Reply}
use itzo.Controller.State.{PodController}

abbrev pub unit_of : Str → Str → UnitSpec
unit_of name image = record {
  name = name;
  image = image;
  command = [];
  args = [];
  env = [];
  volume_mounts = [];
  ports = [];
  working_dir = [];
  security_context = none;
  liveness_probe = none;
  readiness_probe = none;
  startup_probe = none;
  termination_message_path = [];
  termination_message_policy = read_file;
}

abbrev pub spec_of : List UnitSpec → List UnitSpec → PodSpec
spec_of units init_units = record {
  phase = PodPhase.running;
  restart_policy = always;
  units = units;
  init_units = init_units;
  volumes = [];
  security_context = none;
  hostname = [];
}

abbrev pub params_of : PodSpec → PodParameters
params_of spec = record {
  secrets = [];
  credentials = [];
  spec = spec;
  annotations = [];
  pod_name = [];
  node_name = [];
  pod_ip = [];
  pod_hostname = [];
}

-- A runtime where all goes well and no container has ended.
abbrev pub running_status : Str → Str → UnitStatus
running_status name image = record {
  name = name;
  state = no_state;
  last_termination_state = no_state;
  restart_count = pos 0;
  image = image;
  ready = true;
  started = none;
}

abbrev pub good : Reply
good = record { status = none; err = none }

abbrev pub calm : RuntimeService (Unit {0})
calm = record {
  run_pod_sandbox = λ w spec. (none, spec, w);
  stop_pod_sandbox = λ w spec. (none, w);
  remove_pod_sandbox = λ w spec. (none, w);
  create_container = λ w unit spec name creds b. (good, w);
  start_container = λ w unit spec name. (good, w);
  remove_container = λ w unit. (none, w);
  container_status =
      λ w name image. (record { status = some (running_status name image); err = none }, w);
  unit_running = λ w name. true;
  get_pid = λ w name. none;
  set_pod_network = λ w ns ip. w;
}

abbrev pub controller : {W : Type 0} → W → PodSpec → PodController W
controller w status = record {
  pod_name = [];
  pod_hostname = [];
  runtime = w;
  pod_status = status;
  spec = status;
  update_chan = [];
  all_creds = [];
  sync_errors = [];
  cancel_func = true;
  wait_group = 1;
  net_ns = [];
  pod_ip = [];
  pod_restart_count = 0;
  currently_restarting_units = [];
  annotations = [];
}

abbrev pub setup : UnitSpec
setup = unit_of (1 ∷ []) (2 ∷ [])

abbrev pub web : UnitSpec
web = unit_of (3 ∷ []) (4 ∷ [])

abbrev pub new_web : UnitSpec
new_web = unit_of (3 ∷ []) (5 ∷ [])

abbrev pub old_spec : PodSpec
old_spec = spec_of (web ∷ []) (setup ∷ [])

abbrev pub new_params : PodParameters
new_params = params_of (spec_of (new_web ∷ []) (setup ∷ []))
