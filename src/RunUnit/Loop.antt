-- ===== src/RunUnit/Loop.antt =====
-- `RunUnitLoop` and `maybeBackOff`: a command is started again and again, with growing pauses.
-- Times are in nanoseconds.
pub mod Backoff
pub mod Laws
use itzo.Base.{
  ℕ, ◌+◌, ◌-◌, ◌*◌, Bool, true, false, not, ◌&&◌, ◌||◌, Option, none, some, List, [], ◌∷◌, Str, lit,
  Error, ℤ, pos, ltb, leb, if◌then◌else◌, is_some,
}
use itzo.Api.{UnitState, no_state, Time, RestartPolicy}
use itzo.RunUnit.State.{Files, StatusFile, RunnableUnit}
use itzo.RunUnit.Status.{update_status_attr, set_state}
use itzo.RunUnit.Watch.{
  CmdError, WatchEvent, Watched, Tail, Kill, watch_running_cmd, handle_cmd_cleanup,
}

abbrev pub second : ℕ
second = 1000000000

abbrev pub max_backoff_time : ℕ
max_backoff_time = 300 * second

abbrev pub backoff_reset_time : ℕ
backoff_reset_time = 600 * second

-- `maybeBackOff` with whether there is an error: the pause, which is also the next backoff.
unfoldable pub maybe_back_off : Bool → ℕ → ℕ → ℕ
maybe_back_off has_err backoff running_time =
    if not has_err || leb backoff_reset_time running_time
    then second
    else if ltb max_backoff_time (backoff * 2)
    then max_backoff_time
    else backoff * 2

-- What the loop does to the outside, but for the status file.
pub data Action : Type 0 where
  set_capabilities : List Str → Action
  start : List Str → List Str → Option (ℕ × ℕ × List ℕ) → Action
  set_oom_score : ℕ → Action
  cleanup : List Kill → Action
  sleep : ℕ → Action

-- What one round of the loop meets: how the calls end, the events of its command, and the times.
pub record Attempt : Type 0 where
  pub capabilities_err : Option Error
  pub start_err : Option Error
  pub events : List WatchEvent
  pub kill_err : Option Error
  pub tail : Tail
  pub started_at : Time
  pub running_at : Time
  pub cleaned_at : Time
  pub ended_at : Time

-- What does not change between rounds. The command is not empty.
pub record Job : Type 0 where
  pub program : Str
  pub arguments : List Str
  pub caplist : List Str
  pub uid : ℕ
  pub gid : ℕ
  pub groups : Option (List ℕ)
  pub policy : RestartPolicy

-- The variables of the loop; `restarts` is that of the next round, so 0 before the first one.
-- The latest action is the first.
pub record LoopState : Type 0 where
  pub backoff : ℕ
  pub restarts : ℕ
  pub file : StatusFile
  pub actions : List Action

-- How a round ends: with the next one, by a return, or not at all yet.
pub data Outcome : Type 0 where
  continued : Outcome
  returned : Option CmdError → Outcome
  watching : Outcome

or_nil : Option (List ℕ) → List ℕ
or_nil none = []
or_nil (some gs) = gs

credential : Job → Option (ℕ × ℕ × List ℕ)
unfolding or_nil
credential job =
    if ltb 0 job.uid || ltb 0 job.gid || is_some job.groups
    then some (job.uid, job.gid, or_nil job.groups)
    else none

pub sets_capabilities : List Str → Bool
sets_capabilities [] = false
sets_capabilities (c ∷ cs) = true

-- `CHILD_OOM_SCORE`
abbrev child_oom_score : ℕ
child_oom_score = 15

pub act : Action → LoopState → LoopState
act a s = record s { actions = a ∷ s.actions }

-- The pause, and the next round.
pub back_off : Bool → ℕ → LoopState → LoopState
unfolding maybe_back_off act
back_off has_err running_time s =
    let t = maybe_back_off has_err s.backoff running_time in
    act (sleep t) (record s { backoff = t; restarts = s.restarts + 1 })

module _ (fs : Files) (u : RunnableUnit) (error_text : Error → Str) where
  pub put_state : UnitState → Option ℤ → LoopState → LoopState
  unfolding set_state
  put_state state restarts s = record s { file = (set_state fs u state restarts s.file).1 }

  pub put_attr : Option Bool → Option Bool → LoopState → LoopState
  unfolding update_status_attr
  put_attr ready started s = record s { file = (update_status_attr fs u ready started s.file).1 }

  -- `setStateToStartFailure`
  pub set_state_to_start_failure : Error → LoopState → LoopState
  unfolding put_state
  set_state_to_start_failure e =
      put_state
        (record no_state {
          waiting = some (record {
            reason = error_text (Error.errorf "Failed to start: %v" (error_text e ∷ []));
            start_failure = true;
          });
        })
        none

  waiting_state : Error → UnitState
  waiting_state e = record no_state {
    waiting = some (record { reason = error_text e; start_failure = true });
  }

  running_state : Time → UnitState
  running_state now = record no_state { running = some (record { started_at = now }) }

  -- The end of a round whose command has been watched.
  pub finish : Job → Attempt → Watched → LoopState → Outcome × LoopState
  unfolding handle_cmd_cleanup act back_off
  finish job a w s =
      let c =
        handle_cmd_cleanup fs u w a.kill_err job.policy a.started_at a.cleaned_at a.tail s.file in
      let s' = act (cleanup c.0.1) (record s { file = c.1 }) in
      if c.0.0
      then (continued, back_off (is_some w.cmd_err) (a.ended_at - a.started_at) s')
      else (returned w.cmd_err, s')

  -- A round from the start of the watch.
  pub watch_attempt : Job → Attempt → LoopState → Outcome × LoopState
  unfolding watch_running_cmd finish
  watch_attempt job a s =
      let w =
        watch_running_cmd fs u u.unit_config.startup_probe u.unit_config.readiness_probe a.events
          s.file in
      let s' = record s { file = w.1 } in
      elim w.0 [ none ↦ (watching, s') | some watched ↦ finish job a watched s' ]

  -- The attributes are cleared, and the command is started.
  pub start_command : Job → LoopState → LoopState
  unfolding put_attr act credential
  start_command job s =
      act (start (job.program ∷ job.arguments) job.caplist (credential job))
        (put_attr (some false) (some false) s)

  pub start_failed : Error → LoopState → LoopState
  unfolding put_state waiting_state
  start_failed e s = put_state (waiting_state e) (some (pos s.restarts)) s

  pub start_succeeded : Time → LoopState → LoopState
  unfolding put_state running_state act
  start_succeeded now s =
      act (set_oom_score child_oom_score) (put_state (running_state now) (some (pos s.restarts)) s)

  -- A round from the start of the command.
  pub start_attempt : Job → Attempt → LoopState → Outcome × LoopState
  unfolding start_command start_failed start_succeeded back_off watch_attempt
  start_attempt job a s =
      let s' = start_command job s in
      elim a.start_err [
        | some e ↦ (continued, back_off true 0 (start_failed e s'))
        | none ↦ watch_attempt job a (start_succeeded a.running_at s')
      ]

  -- A round of the loop.
  unfoldable pub attempt : Job → Attempt → LoopState → Outcome × LoopState
  unfolding act sets_capabilities set_state_to_start_failure back_off start_attempt
  attempt job a s =
      if sets_capabilities job.caplist
      then (let s₀ = act (set_capabilities job.caplist) s in
          elim a.capabilities_err [
            | some e ↦ (continued, back_off true 0 (set_state_to_start_failure e s₀))
            | none ↦ start_attempt job a s₀
          ])
      else start_attempt job a s

  -- The rounds from a state on.
  pub run_attempts : Job → List Attempt → LoopState → Outcome × LoopState
  unfolding attempt
  run_attempts job [] s = (continued, s)
  run_attempts job (a ∷ rest) s =
      let r = attempt job a s in
      elim r.0 [
        | continued ↦ run_attempts job rest r.1
        | returned e ↦ (returned e, r.1)
        | watching ↦ (watching, r.1)
      ]

  unfoldable pub run_unit_loop : Job → List Attempt → StatusFile → Outcome × LoopState
  unfolding run_attempts
  run_unit_loop job attempts file =
      run_attempts job attempts
        (record { backoff = second; restarts = 0; file = file; actions = [] })

  -- `RunUnitLoop` with any command: `command[0]` of an empty one panics, `none`.
  unfoldable pub run_command_loop :
      List Str → (Str → List Str → Job) → List Attempt → StatusFile → Option (Outcome × LoopState)
  unfolding run_unit_loop
  run_command_loop [] job attempts file = none
  run_command_loop (program ∷ arguments) job attempts file =
      some (run_unit_loop (job program arguments) attempts file)
