-- ===== src/RunUnit/Loop/Laws.antt =====
-- When `RunUnitLoop` returns, and what it does between the rounds.
use itzo.Base.{
  ℕ, ◌-◌, ◌≤◌, ◌≡◌, refl, Bool, true, false, not, ◌&&◌, ◌||◌, Option, none, some, List, [], ◌∷◌,
  All, arith, Error, Str, ℤ, pos, subst, ◌⊎◌, if◌then◌else◌, is_some,
}
use itzo.Api.{RestartPolicy, on_failure, never, UnitState, Time}
use itzo.RunUnit.State.{Files, StatusFile, RunnableUnit}
use itzo.RunUnit.Watch.{
  CmdError, Watched, handle_cmd_cleanup, is_never, is_on_failure, watch_running_cmd,
}
use itzo.RunUnit.Loop.{
  set_state_to_start_failure, start_command, start_failed, start_succeeded, start, set_oom_score,
  set_capabilities, put_state, put_attr, sets_capabilities, second, max_backoff_time, Action, sleep,
  Attempt, Job, LoopState, Outcome, continued, returned, watching, run_unit_loop, run_attempts,
  attempt, start_attempt, watch_attempt, finish, back_off, act,
}
use itzo.RunUnit.Loop.Backoff.{maybe_back_off-bounds}

-- A pause is from one second to five minutes long.
abbrev pub IsBounded : Action → Type 0
IsBounded (sleep t) = (second ≤ t) × (t ≤ max_backoff_time)
IsBounded _ = Unit

-- A policy lets the loop return with such an error.
abbrev pub Ends : RestartPolicy → Option CmdError → Type 0
Ends policy e = (policy ≡ never) ⊎ ((policy ≡ on_failure) × (e ≡ none))

pub record Bounded (s : LoopState) : Type 0 where
  pub backoff_bound : second ≤ s.backoff
  pub pauses : All IsBounded s.actions

-- What holds after a round that began with a bounded state.
pub record Fine (policy : RestartPolicy) (r : Outcome × LoopState) : Type 0 where
  pub bounded : Bounded r.1
  pub ends : (e : Option CmdError) → r.0 ≡ returned e → Ends policy e

back_off-Bounded :
    (has_err : Bool) (t : ℕ) (s : LoopState) → Bounded s → Bounded (back_off has_err t s)
unfolding back_off act
back_off-Bounded has_err t s h =
    let b = maybe_back_off-bounds has_err s.backoff t h.backoff_bound in
    record { backoff_bound = b.0; pauses = (b, h.pauses) }

-- A round that goes on.
continued-Fine :
    (policy : RestartPolicy) (has_err : Bool) (t : ℕ) (s : LoopState)
    → Bounded s
    → Fine policy (continued, back_off has_err t s)
continued-Fine policy has_err t s h = record {
  bounded = back_off-Bounded has_err t s h;
  ends = λ e p. ground arith;
}

module _ (policy : RestartPolicy) where
  if-Fine :
      (b : Bool) (x y : Outcome × LoopState)
      → (b ≡ true → Fine policy x)
      → (b ≡ false → Fine policy y)
      → Fine policy (if b then x else y)
  if-Fine true x y f g = f refl
  if-Fine false x y f g = g refl

  elim-Fine {ℓ} :
      {A : Type ℓ} (o : Option A) (f : A → Outcome × LoopState) (y : Outcome × LoopState)
      → ((a : A) → Fine policy (f a))
      → Fine policy y
      → Fine policy (elim o [ none ↦ y | some a ↦ f a ])
  elim-Fine none f y hf hy = hy
  elim-Fine (some a) f y hf hy = hf a

  ends_lem :
      (e : Option CmdError)
      → not (is_never policy || (is_on_failure policy && not (is_some e))) ≡ false
      → Ends policy e
  unfolding is_never is_on_failure
  ends_lem e h = ground arith

  watching-Fine : (s : LoopState) → Bounded s → Fine policy (watching, s)
  watching-Fine s h = record { bounded = h; ends = λ e p. ground arith }

  returned-Fine :
      (e : Option CmdError) (s : LoopState)
      → Bounded s
      → Ends policy e
      → Fine policy (returned e, s)
  returned-Fine e s h k = record {
    bounded = h;
    ends = λ e' p. subst (Ends policy) (returned-inj e e' p) k;
  }
    where
      returned-inj : (e e' : Option CmdError) → returned e ≡ returned e' → e ≡ e'
      returned-inj e e' p = ground arith

-- A round, and after it the rounds that follow if it goes on.
outcome-Fine :
    (policy : RestartPolicy) (r next : Outcome × LoopState)
    → Fine policy r
    → (Bounded r.1 → Fine policy next)
    → Fine policy (elim r.0 [
      | continued ↦ next
      | returned e ↦ (returned e, r.1)
      | watching ↦ (watching, r.1)
    ])
outcome-Fine policy (continued, s) next h k = k h.bounded
outcome-Fine policy (returned e, s) next h k = h
outcome-Fine policy (watching, s) next h k = h

act-Bounded : (a : Action) (s : LoopState) → IsBounded a → Bounded s → Bounded (act a s)
unfolding act
act-Bounded a s k h = record { backoff_bound = h.backoff_bound; pauses = (k, h.pauses) }

module _ (fs : Files) (u : RunnableUnit) (error_text : Error → Str) where
  with_file-Bounded :
      (file : StatusFile) (s : LoopState) → Bounded s → Bounded (record s { file = file })
  with_file-Bounded file s h = record { backoff_bound = h.backoff_bound; pauses = h.pauses }

  put_state-Bounded :
      (state : UnitState) (restarts : Option ℤ) (s : LoopState)
      → Bounded s
      → Bounded (put_state fs u error_text state restarts s)
  unfolding put_state
  put_state-Bounded state restarts s h = with_file-Bounded _ s h

  put_attr-Bounded :
      (ready started : Option Bool) (s : LoopState)
      → Bounded s
      → Bounded (put_attr fs u error_text ready started s)
  unfolding put_attr
  put_attr-Bounded ready started s h = with_file-Bounded _ s h

  start_failure-Bounded :
      (e : Error) (s : LoopState)
      → Bounded s
      → Bounded (set_state_to_start_failure fs u error_text e s)
  unfolding set_state_to_start_failure
  start_failure-Bounded e s h = put_state-Bounded _ none s h

  start_command-Bounded :
      (job : Job) (s : LoopState) → Bounded s → Bounded (start_command fs u error_text job s)
  unfolding start_command
  start_command-Bounded job s h =
      act-Bounded (start (job.program ∷ job.arguments) job.caplist _) _ tt
        (put_attr-Bounded (some false) (some false) s h)

  start_failed-Bounded :
      (e : Error) (s : LoopState) → Bounded s → Bounded (start_failed fs u error_text e s)
  unfolding start_failed
  start_failed-Bounded e s h = put_state-Bounded _ (some (pos s.restarts)) s h

  start_succeeded-Bounded :
      (now : Time) (s : LoopState) → Bounded s → Bounded (start_succeeded fs u error_text now s)
  unfolding start_succeeded
  start_succeeded-Bounded now s h =
      act-Bounded (set_oom_score _) _ tt (put_state-Bounded _ (some (pos s.restarts)) s h)

  module _ (job : Job) (a : Attempt) where
    finish-Fine :
        (w : Watched) (s : LoopState)
        → Bounded s
        → Fine job.policy (finish fs u error_text job a w s)
    unfolding finish handle_cmd_cleanup
    finish-Fine w s h =
        if-Fine job.policy
          (not (is_never job.policy || (is_on_failure job.policy && not (is_some w.cmd_err)))) _ _
          (λ _.
            continued-Fine job.policy (is_some w.cmd_err) (a.ended_at - a.started_at) _
              (act-Bounded _ _ tt (with_file-Bounded _ s h)))
          (λ p.
            returned-Fine job.policy w.cmd_err _ (act-Bounded _ _ tt (with_file-Bounded _ s h))
              (ends_lem job.policy w.cmd_err p))

    watch_attempt-Fine :
        (s : LoopState) → Bounded s → Fine job.policy (watch_attempt fs u error_text job a s)
    unfolding watch_attempt
    watch_attempt-Fine s h =
        elim-Fine job.policy watched.0
          (λ w. finish fs u error_text job a w (record s { file = watched.1 })) _
          (λ w. finish-Fine w _ (with_file-Bounded watched.1 s h))
          (watching-Fine job.policy _ (with_file-Bounded watched.1 s h))
      where
        watched : Option Watched × StatusFile
        watched =
            watch_running_cmd fs u u.unit_config.startup_probe u.unit_config.readiness_probe
              a.events s.file

    start_attempt-Fine :
        (s : LoopState) → Bounded s → Fine job.policy (start_attempt fs u error_text job a s)
    unfolding start_attempt
    start_attempt-Fine s h =
        elim-Fine job.policy a.start_err
          (λ e. (continued, back_off true 0 (start_failed fs u error_text e s'))) _
          (λ e. continued-Fine job.policy true 0 _ (start_failed-Bounded e s' h'))
          (watch_attempt-Fine _ (start_succeeded-Bounded a.running_at s' h'))
      where
        s' : LoopState
        s' = start_command fs u error_text job s

        h' : Bounded s'
        h' = start_command-Bounded job s h

    attempt-Fine : (s : LoopState) → Bounded s → Fine job.policy (attempt fs u error_text job a s)
    unfolding attempt
    attempt-Fine s h =
        if-Fine job.policy (sets_capabilities job.caplist) _ _
          (λ _.
            elim-Fine job.policy a.capabilities_err
              (λ e. (continued, back_off true 0 (set_state_to_start_failure fs u error_text e s')))
              _ (λ e. continued-Fine job.policy true 0 _ (start_failure-Bounded e s' h'))
              (start_attempt-Fine s' h'))
          (λ _. start_attempt-Fine s h)
      where
        s' : LoopState
        s' = act (set_capabilities job.caplist) s

        h' : Bounded s'
        h' = act-Bounded _ s tt h

  run_attempts-Fine :
      (job : Job) (attempts : List Attempt) (s : LoopState)
      → Bounded s
      → Fine job.policy (run_attempts fs u error_text job attempts s)
  unfolding run_attempts
  run_attempts-Fine job [] s h = record { bounded = h; ends = λ e p. ground arith }
  run_attempts-Fine job (a ∷ rest) s h =
      outcome-Fine job.policy (attempt fs u error_text job a s) _ (attempt-Fine job a s h)
        (run_attempts-Fine job rest _)

  run_unit_loop-Fine :
      (job : Job) (attempts : List Attempt) (file : StatusFile)
      → Fine job.policy (run_unit_loop fs u error_text job attempts file)
  unfolding run_unit_loop
  run_unit_loop-Fine job attempts file =
      run_attempts-Fine job attempts _ (record { backoff_bound = omega arith; pauses = tt })

  -- Whatever happens in the rounds, the loop returns only under the policy Never, or under
  -- OnFailure with no error of the command.
  pub run_unit_loop-Ends :
      (job : Job) (attempts : List Attempt) (file : StatusFile) (e : Option CmdError)
      → (run_unit_loop fs u error_text job attempts file).0 ≡ returned e
      → (job.policy ≡ never) ⊎ ((job.policy ≡ on_failure) × (e ≡ none))
  run_unit_loop-Ends job attempts file = (run_unit_loop-Fine job attempts file).ends

  -- Whatever happens in the rounds, every pause that the loop has made is from one second to five
  -- minutes long.
  pub run_unit_loop-IsBounded :
      (job : Job) (attempts : List Attempt) (file : StatusFile)
      → All IsBounded (run_unit_loop fs u error_text job attempts file).1.actions
  run_unit_loop-IsBounded job attempts file = (run_unit_loop-Fine job attempts file).bounded.pauses
