-- ===== src/Controller/Task.antt =====
-- The goroutine that `SyncPodUnits` starts, with `waitForInitUnit`: pkg/server/pod_controller.go.
-- A step is what it does up to where it may wait for others.
use itzo.Base.{
  ◌-◌, Bool, true, false, Option, none, some, List, [], ◌∷◌, if◌then◌else◌, insert, remove, is_zero,
}
use itzo.Api.{
  UnitSpec, PodSpec, RestartPolicy, always, on_failure, never, UnitStatus, UnitStateTerminated,
}
use itzo.Controller.Runtime.{RuntimeService, Reply}
use itzo.Controller.State.{PodController}
use itzo.Controller.Update.{Work}

-- `waiting` is the init unit that it waits for. `cancelled` is the state of its context.
pub record Task : Type 0 where
  pub work : Work
  pub spec : PodSpec
  pub waiting : Option UnitSpec
  pub cancelled : Bool

-- "Always" makes no sense for init units.
unfoldable pub init_policy : RestartPolicy → RestartPolicy
init_policy always = on_failure
init_policy policy = policy

-- `waitForInitUnit` on one answer of the runtime: it returns, or polls once more.
pub data Verdict : Type 0 where
  succeeded gave_up again : Verdict

is_never : RestartPolicy → Bool
is_never never = true
is_never policy = false

judge_terminated : RestartPolicy → Option UnitStateTerminated → Verdict
unfolding is_never
judge_terminated policy none = again
judge_terminated policy (some t) =
    if is_zero t.exit_code then succeeded else if is_never policy then gave_up else again

judge_status : RestartPolicy → Option UnitStatus → Option Verdict
unfolding judge_terminated
judge_status policy none = none
judge_status policy (some status) = some (judge_terminated policy status.state.terminated)

-- An error of the runtime means to go on polling; a nil status with no error panics (`none`).
unfoldable pub judge : RestartPolicy → Reply → Option Verdict
unfolding judge_status
judge policy reply = elim reply.err [
  | none ↦ judge_status policy reply.status
  | some _ ↦ some again
]

-- What is left after a step: the goroutine goes on, it has ended, or it panicked.
pub data After (W : Type 0) : Type 0 where
  goes_on : Task → PodController W → After W
  ended : PodController W → After W
  crashed : After W

module _ {W : Type 0} where
  -- `pc.waitGroup.Done()`.
  done : PodController W → PodController W
  done pc = record pc { wait_group = pc.wait_group - 1 }

  -- `pc.syncErrors[unit.Name] = *unitStatus` and the end of the goroutine.
  start_failed : UnitSpec → Option UnitStatus → PodController W → After W
  unfolding done
  start_failed unit none pc = crashed
  start_failed unit (some status) pc =
      ended (done (record pc { sync_errors = insert unit.name status pc.sync_errors }))

  -- A failed wait returns without `Done`.
  after_wait : Task → Option Verdict → PodController W → After W
  after_wait t none pc = crashed
  after_wait t (some succeeded) pc = goes_on (record t { waiting = none }) pc
  after_wait t (some gave_up) pc = ended pc
  after_wait t (some again) pc = goes_on t pc

module _ {W : Type 0} (rt : RuntimeService W) where
  -- An init unit is started, and then waited for.
  start_init : Task → UnitSpec → List UnitSpec → PodController W → After W
  unfolding start_failed
  start_init t unit rest pc =
      let r = rt.start_container pc.runtime unit t.spec pc.pod_name in
      let pc' = record pc { runtime = r.1 } in
      elim r.0.err [
        | none ↦
            goes_on (record t { work = record t.work { inits = rest }; waiting = some unit }) pc'
        | some _ ↦ start_failed unit r.0.status pc'
      ]

  start_unit : Task → UnitSpec → List UnitSpec → PodController W → After W
  unfolding start_failed
  start_unit t unit rest pc =
      let r = rt.start_container pc.runtime unit t.spec pc.pod_name in
      let pc' = record pc { runtime = r.1 } in
      elim r.0.err [
        | none ↦
            goes_on (record t { work = record t.work { units = rest } })
              (record pc' { sync_errors = remove unit.name pc'.sync_errors })
        | some _ ↦ start_failed unit r.0.status pc'
      ]

  poll : Task → UnitSpec → PodController W → After W
  unfolding after_wait judge init_policy
  poll t unit pc =
      let r = rt.container_status pc.runtime unit.name unit.image in
      after_wait t (judge (init_policy t.spec.restart_policy) r.0) (record pc { runtime = r.1 })

  start_next : Task → List UnitSpec → List UnitSpec → PodController W → After W
  unfolding start_init start_unit done
  start_next t (unit ∷ inits) units pc = start_init t unit inits pc
  start_next t [] (unit ∷ units) pc = start_unit t unit units pc
  start_next t [] [] pc = ended (done pc)

  -- The next step: a poll of the init unit after the poll interval, or the next container.
  unfoldable pub task_step : Task → PodController W → After W
  unfolding poll start_next
  task_step t pc = elim t.waiting [
    | some unit ↦ poll t unit pc
    | none ↦ start_next t t.work.inits t.work.units pc
  ]
