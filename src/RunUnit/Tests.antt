-- ===== src/RunUnit/Tests.antt =====
-- A unit and its loop on concrete rounds, and the theorems of the unit at such inputs.
use itzo.Base.{
  ℕ, ◌≡◌, refl, Bool, true, false, Option, none, some, List, [], ◌∷◌, All, ◌⊎◌, inr, Error, Str, ℤ,
  pos,
}
use itzo.Api.{UnitStatus, UnitState, UnitStateTerminated, no_state, on_failure, never, Probe, other}
use itzo.RunUnit.State.{Files, text, RunnableUnit, UnitConfig}
use itzo.RunUnit.Watch.{CmdError, exited, cmd_done, Watched, not_exist}
use itzo.RunUnit.Watch.Laws.{ended_state, cleared, ended}
use itzo.RunUnit.Loop.{Attempt, Job, returned, attempt, run_unit_loop, run_command_loop}
use itzo.RunUnit.Loop.{maybe_back_off}
use itzo.RunUnit.Status.{get_status, set_state, set_status, update_status_attr}
use itzo.RunUnit.Watch.{watch_running_cmd, handle_cmd_cleanup}
use itzo.RunUnit.Loop.Laws.{IsBounded, run_unit_loop-Ends, run_unit_loop-IsBounded}

abbrev unit_config : UnitConfig
unit_config = record {
  pod_security_context = record {
    namespace_options = none;
    run_as_user = none;
    run_as_group = none;
    supplemental_groups = [];
    sysctls = [];
  };
  security_context = record { capabilities = none; run_as_user = none; run_as_group = none };
  startup_probe = none;
  readiness_probe = none;
  liveness_probe = none;
  termination_message_policy = other;
  termination_message_path = [];
  pod_ip = [];
  use_overlayfs = false;
}

abbrev web : RunnableUnit
web = record { name = b'w' ∷ []; image = b'i' ∷ []; config = none; unit_config = unit_config }

-- A status that is ready, with three restarts.
abbrev ready_status : UnitStatus
ready_status = record {
  name = b'w' ∷ [];
  state = no_state;
  last_termination_state = no_state;
  restart_count = pos 3;
  image = b'i' ∷ [];
  ready = true;
  started = some true;
}

abbrev exited_with_2 : Watched
exited_with_2 = record { cmd_err = some (exited (pos 2)); probe_err = none }

abbrev end_state : UnitState
end_state = ended_state web exited_with_2 10 20 not_exist

-- A text for each of three statuses: the one after the end, the one that is not ready, any other.
abbrev code : Bool → Option UnitStateTerminated → Str
code ready (some t) = b'e' ∷ b'n' ∷ []
code true none = []
code false none = b'c' ∷ []

abbrev decode : Str → Error ⊎ UnitStatus
decode [] = inr ready_status
decode (c ∷ []) = inr (cleared ready_status)
decode (c ∷ d ∷ rest) = inr (ended end_state ready_status)

abbrev files : Files
files = record {
  marshal = λ s. inr (code s.ready s.state.terminated);
  unmarshal = decode;
  write_file = λ t file. (none, text t);
}

abbrev no_restarts : Option ℤ
no_restarts = none

abbrev some_probe : Probe
some_probe = record {
  exec = none;
  http_get = none;
  tcp_socket = none;
  initial_delay_seconds = pos 0;
  timeout_seconds = pos 1;
  period_seconds = pos 1;
  success_threshold = pos 1;
  failure_threshold = pos 1;
}

abbrev run_times : List ℕ
run_times = 5 ∷ 0 ∷ 7 ∷ []

-- A start that fails, and then a run that ends well.
abbrev failed_start : Attempt
failed_start = record {
  capabilities_err = none;
  start_err = some (Error.foreign 2);
  events = [];
  kill_err = none;
  tail = not_exist;
  started_at = 0;
  running_at = 0;
  cleaned_at = 0;
  ended_at = 0;
}

abbrev good_run : Attempt
good_run = record {
  capabilities_err = none;
  start_err = none;
  events = cmd_done none ∷ [];
  kill_err = none;
  tail = not_exist;
  started_at = 10;
  running_at = 11;
  cleaned_at = 20;
  ended_at = 21;
}

abbrev attempts : List Attempt
attempts = failed_start ∷ good_run ∷ []

abbrev job : Job
job = record {
  program = b'a' ∷ [];
  arguments = [];
  caplist = [];
  uid = 0;
  gid = 0;
  groups = none;
  policy = on_failure;
}

abbrev no_error : Option CmdError
no_error = none

run_unit_loop-IsBounded_example :
    All IsBounded (run_unit_loop files web (λ e'. []) job attempts (text [])).1.actions
run_unit_loop-IsBounded_example =
    run_unit_loop-IsBounded files web (λ e'. []) job attempts (text [])

loop_returns : (run_unit_loop files web (λ e'. []) job attempts (text [])).0 ≡ returned none
unfolding run_unit_loop attempt watch_running_cmd handle_cmd_cleanup maybe_back_off set_state
    update_status_attr get_status set_status
loop_returns = refl

empty_command_panics :
    run_command_loop files web (λ e'. []) [] (λ program arguments. job) attempts (text []) ≡ none
unfolding run_command_loop
empty_command_panics = refl

run_unit_loop-Ends_example : (on_failure ≡ never) ⊎ ((on_failure ≡ on_failure) × (no_error ≡ none))
run_unit_loop-Ends_example =
    run_unit_loop-Ends files web (λ e'. []) job attempts (text []) none loop_returns
