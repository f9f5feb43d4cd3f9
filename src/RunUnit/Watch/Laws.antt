-- ===== src/RunUnit/Watch/Laws.antt =====
-- What the startup probe holds back, and what the end of a command leaves.
use itzo.Base.{
  true, false, not, Option, none, some, List, [], ◌∷◌, ◌++◌, All, Error, inr, ◌≡◌, ◌≢◌, ◌&&◌, ◌||◌,
  refl, ◌↔◌, ◌⊎◌, is_some, arith,
}
use itzo.Api.{UnitStatus, UnitState, no_state, Probe, RestartPolicy, always, on_failure, Time}
use itzo.Prober.Probe.{undetermined, succeeded, failed}
use itzo.RunUnit.State.{Files, StatusFile, RunnableUnit}
use itzo.RunUnit.Status.{get_status, update_status_attr, set_state, with_attr, with_state, to_int32}
use itzo.RunUnit.Status.Laws.{Saves, change_status-get_status}
use itzo.RunUnit.Watch.{
  CmdError, Tail, is_never, is_on_failure, exit_code_of, reason_of, get_termination_log,
  set_terminated_state, handle_cmd_cleanup, WatchEvent, cmd_done, startup_result, liveness_result,
  readiness_result, Watched, watch_running_cmd, watch_started, watch_from_start, wait_for_started,
}

-- The event does not end the wait for the startup probe.
abbrev pub Waits : WatchEvent → Type 0
Waits (cmd_done e) = ⊥
Waits (startup_result undetermined) = Unit
Waits (startup_result succeeded) = ⊥
Waits (startup_result failed) = ⊥
Waits (liveness_result r) = Unit
Waits (readiness_result r) = Unit

module _ (fs : Files) (u : RunnableUnit) (startup : Probe) (readiness : Option Probe)
    (file : StatusFile) where
  -- A unit with a startup probe leaves its status alone until that probe has succeeded, and is from
  -- then on watched as a unit without one.
  watch_running_cmd-gate :
      (before after : List WatchEvent)
      → All Waits before
      → (watch_running_cmd fs u (some startup) readiness before file ≡ (none, file))
        × (watch_running_cmd fs u
              (some startup)
              readiness
              (before ++ startup_result succeeded ∷ after)
              file
            ≡ watch_running_cmd fs u none readiness after file)
  unfolding watch_running_cmd wait_for_started
  watch_running_cmd-gate [] after h = (refl, refl)
  watch_running_cmd-gate (startup_result undetermined ∷ before) after h =
      watch_running_cmd-gate before after h.1
  watch_running_cmd-gate (startup_result succeeded ∷ before) after h = absurd h.0
  watch_running_cmd-gate (startup_result failed ∷ before) after h = absurd h.0
  watch_running_cmd-gate (cmd_done e ∷ before) after h = absurd h.0
  watch_running_cmd-gate (liveness_result r ∷ before) after h =
      watch_running_cmd-gate before after h.1
  watch_running_cmd-gate (readiness_result r ∷ before) after h =
      watch_running_cmd-gate before after h.1

-- A command that ends before anything else happens is what the watch returns.
pub watch_running_cmd-cmd_done :
    (fs : Files) (u : RunnableUnit) (startup readiness : Option Probe) (e : Option CmdError)
    (events : List WatchEvent) (file : StatusFile)
    → (watch_running_cmd fs u startup readiness (cmd_done e ∷ events) file).0
      ≡ some (record { cmd_err = e; probe_err = none })
unfolding watch_running_cmd watch_from_start watch_started wait_for_started
watch_running_cmd-cmd_done fs u none readiness e events file = refl
watch_running_cmd-cmd_done fs u (some p) readiness e events file = refl

-- The state of a unit whose command has ended so.
abbrev pub ended_state : RunnableUnit → Watched → Time → Time → Tail → UnitState
ended_state u w started_at now tail = record no_state {
  terminated = some (record {
    exit_code = to_int32 (exit_code_of w.cmd_err);
    finished_at = now;
    reason = reason_of w;
    message = get_termination_log u.unit_config tail;
    started_at = started_at;
  });
}

abbrev pub cleared : UnitStatus → UnitStatus
cleared s = record s { ready = false; started = some false }

abbrev pub ended : UnitState → UnitStatus → UnitStatus
ended state s = record (cleared s) { state = state; last_termination_state = state }

keeps_going :
    (policy : RestartPolicy) (e : Option CmdError)
    → (not (is_never policy || (is_on_failure policy && not (is_some e))) ≡ true)
      ↔ ((policy ≡ always) ⊎ ((policy ≡ on_failure) × (e ≢ none)))
unfolding is_never is_on_failure
keeps_going policy e = ground arith

-- After a command has ended, the unit goes on exactly under the policy Always, and under OnFailure
-- when the command had an error, so not when a probe failed. The status, on a file that reads as
-- `s` and where the two new statuses can be saved, is then terminated, neither ready nor started,
-- with that state as the last termination and the count of restarts as before.
handle_cmd_cleanup_lem :
    (fs : Files) (u : RunnableUnit) (w : Watched) (kill_err : Option Error) (policy : RestartPolicy)
    (started_at now : Time) (tail : Tail) (file : StatusFile) (s : UnitStatus)
    → get_status fs u file ≡ inr s
    → Saves fs (cleared s)
    → Saves fs (ended (ended_state u w started_at now tail) s)
    → (((handle_cmd_cleanup fs u w kill_err policy started_at now tail file).0.0 ≡ true)
        ↔ ((policy ≡ always) ⊎ ((policy ≡ on_failure) × (w.cmd_err ≢ none))))
      × (get_status fs u (handle_cmd_cleanup fs u w kill_err policy started_at now tail file).1
          ≡ inr (ended (ended_state u w started_at now tail) s))
unfolding handle_cmd_cleanup set_terminated_state update_status_attr set_state with_attr with_state
handle_cmd_cleanup_lem fs u w kill_err policy started_at now tail file s h k l = (
  keeps_going policy w.cmd_err,
  (change_status-get_status fs u (with_state (ended_state u w started_at now tail) none) _
      (cleared s) (change_status-get_status fs u (with_attr (some false) (some false)) file s h k).1
      l).1,
)
