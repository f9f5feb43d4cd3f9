-- ===== src/RunUnit/Watch.antt =====
-- `watchRunningCmd` and `handleCmdCleanup`: from a command that runs to the state that it leaves.
pub mod Laws
use itzo.Base.{
  ℕ, Bool, true, false, not, ◌&&◌, ◌||◌, Option, none, some, List, [], ◌∷◌, Str, lit, str_beq,
  Error, ◌⊎◌, inl, inr, ℤ, pos, if◌then◌else◌, is_some,
}
use itzo.Api.{
  UnitStatus, UnitState, UnitStateTerminated, no_state, Time, RestartPolicy, always, on_failure,
  never, Probe, TerminationMessagePolicy, read_file,
}
use itzo.Prober.Probe.{Result, undetermined, succeeded, failed}
use itzo.RunUnit.State.{Files, StatusFile, RunnableUnit, UnitConfig}
use itzo.RunUnit.Status.{update_status_attr, set_state, to_int32}

-- What `Wait` says of a command that did not end well: an `ExitError` with a wait status, or else.
pub data CmdError : Type 0 where
  exited : ℤ → CmdError
  other : Error → CmdError

-- A message that a `select` of the source receives.
pub data WatchEvent : Type 0 where
  cmd_done : Option CmdError → WatchEvent
  startup_result liveness_result readiness_result : Result → WatchEvent

-- Both results of `watchRunningCmd`.
pub record Watched : Type 0 where
  pub cmd_err : Option CmdError
  pub probe_err : Option Error

abbrev pub probe_failed : Str → Watched
probe_failed what = record {
  cmd_err = none;
  probe_err = some (Error.errorf "%s probe failed" (what ∷ []));
}

is_succeeded : Result → Bool
is_succeeded undetermined = false
is_succeeded succeeded = true
is_succeeded failed = false

module _ (fs : Files) (u : RunnableUnit) where
  -- The loop behind the startup probe. It has not returned, `none`, while no event makes it return.
  pub watch_started : List WatchEvent → StatusFile → Option Watched × StatusFile
  unfolding is_succeeded update_status_attr
  watch_started [] file = (none, file)
  watch_started (cmd_done e ∷ events) file = (some (record { cmd_err = e; probe_err = none }), file)
  watch_started (liveness_result failed ∷ events) file =
      (some (probe_failed (lit "liveness")), file)
  watch_started (liveness_result succeeded ∷ events) file = watch_started events file
  watch_started (liveness_result undetermined ∷ events) file = watch_started events file
  watch_started (readiness_result r ∷ events) file =
      watch_started events (update_status_attr fs u (some (is_succeeded r)) none file).1
  watch_started (startup_result r ∷ events) file = watch_started events file

  -- The unit is started, and ready unless a readiness probe is to say so.
  pub watch_from_start : Option Probe → List WatchEvent → StatusFile → Option Watched × StatusFile
  unfolding watch_started update_status_attr
  watch_from_start readiness events file =
      watch_started events
        (update_status_attr fs u (some (not (is_some readiness))) (some true) file).1

  -- The loop of the startup probe, with no worker yet for the other probes.
  pub wait_for_started : Option Probe → List WatchEvent → StatusFile → Option Watched × StatusFile
  unfolding watch_from_start
  wait_for_started readiness [] file = (none, file)
  wait_for_started readiness (cmd_done e ∷ events) file =
      (some (record { cmd_err = e; probe_err = none }), file)
  wait_for_started readiness (startup_result failed ∷ events) file =
      (some (probe_failed (lit "startup")), file)
  wait_for_started readiness (startup_result succeeded ∷ events) file =
      watch_from_start readiness events file
  wait_for_started readiness (startup_result undetermined ∷ events) file =
      wait_for_started readiness events file
  wait_for_started readiness (liveness_result r ∷ events) file =
      wait_for_started readiness events file
  wait_for_started readiness (readiness_result r ∷ events) file =
      wait_for_started readiness events file

  unfoldable pub watch_running_cmd :
      Option Probe → Option Probe → List WatchEvent → StatusFile → Option Watched × StatusFile
  unfolding watch_from_start wait_for_started
  watch_running_cmd none readiness events file = watch_from_start readiness events file
  watch_running_cmd (some startup) readiness events file = wait_for_started readiness events file

-- What `TailFile` returns for the termination log.
pub data Tail : Type 0 where
  tailed : Str → Tail
  not_exist : Tail
  tail_error : Str → Error → Tail

tail_text : Tail → Str
tail_text (tailed t) = t
tail_text not_exist = []
tail_text (tail_error t e) = t

reads_file : TerminationMessagePolicy → Bool
reads_file read_file = true
reads_file policy = false

unfoldable pub get_termination_log : UnitConfig → Tail → Str
unfolding tail_text reads_file str_beq
get_termination_log c tail =
    if not (reads_file c.termination_message_policy) || str_beq c.termination_message_path []
    then []
    else tail_text tail

-- A command that a signal ended has the exit status -1; an error without a wait status counts as 0.
pub exit_code_of : Option CmdError → ℤ
exit_code_of none = pos 0
exit_code_of (some (exited code)) = code
exit_code_of (some (other e)) = pos 0

pub reason_of : Watched → Str
unfolding lit
reason_of w =
    if is_some w.cmd_err
    then lit "Error"
    else if is_some w.probe_err
    then lit "Error"
    else lit "Completed"

unfoldable pub is_never : RestartPolicy → Bool
is_never never = true
is_never on_failure = false
is_never always = false

unfoldable pub is_on_failure : RestartPolicy → Bool
is_on_failure on_failure = true
is_on_failure never = false
is_on_failure always = false

-- What is done to the process: the kill of its tree, and the kill of it alone if that fails.
pub data Kill : Type 0 where
  kill_tree kill_process : Kill

module _ (fs : Files) (u : RunnableUnit) where
  unfoldable pub set_terminated_state : ℤ → Str → Time → Time → Tail → StatusFile → StatusFile
  unfolding set_state get_termination_log
  set_terminated_state exit_code reason started_at now tail file =
      (set_state fs u
        (record no_state {
          terminated = some (record {
            exit_code = to_int32 exit_code;
            finished_at = now;
            reason = reason;
            message = get_termination_log u.unit_config tail;
            started_at = started_at;
          });
        })
        none file).1

  -- `kill_err` is what `KillProcessTree` returns.
  unfoldable pub handle_cmd_cleanup :
      Watched
      → Option Error
      → RestartPolicy
      → Time
      → Time
      → Tail
      → StatusFile
      → (Bool × List Kill) × StatusFile
  unfolding update_status_attr set_terminated_state exit_code_of reason_of is_never is_on_failure
  handle_cmd_cleanup w kill_err policy started_at now tail file = (
    (
      not (is_never policy || (is_on_failure policy && not (is_some w.cmd_err))),
      if is_some kill_err then kill_tree ∷ kill_process ∷ [] else kill_tree ∷ [],
    ),
    set_terminated_state (exit_code_of w.cmd_err) (reason_of w) started_at now tail
        (update_status_attr fs u (some false) (some false) file).1,
  )
