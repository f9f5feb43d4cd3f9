-- ===== src/Controller/Loop.antt =====
-- The update loop, its channel and the goroutine of the current update, as a system that makes a
-- step for each event: `UpdatePod`, `runUpdateLoop`, `doUpdate` and the second part of
-- `SyncPodUnits` of pkg/server/pod_controller.go.
pub mod Hang
pub mod Channel
use itzo.Base.{
  ℕ, ◌+◌, Bool, true, false, Option, none, some, List, [], ◌∷◌, ◌++◌, if◌then◌else◌, ◌==◌, nat_eq,
  length, Error,
}
use itzo.Api.{PodSpec, PodPhase, PodParameters}
use itzo.Controller.Runtime.{RuntimeService}
use itzo.Controller.Secrets.{merge_secrets_into_spec}
use itzo.Io.{Result, ok, err, panic}
use itzo.Controller.State.{PodController}
use itzo.Controller.Update.{Work, begin_sync}
use itzo.Controller.Task.{Task, After, goes_on, ended, crashed, task_step}

-- Where the update loop stands: before its next update, in `waitGroup.Wait()` with what it has to
-- start, or the whole process has panicked.
pub data LoopState : Type 0 where
  idle : LoopState
  blocked : Work → PodParameters → LoopState
  dead : LoopState

-- `Wait` lets a goroutine start only when the previous one is done, so there is one at most.
pub record System (W : Type 0) : Type 0 where
  pub pc : PodController W
  pub loop : LoopState
  pub task : Option Task

abbrev pub spec_chan_size : ℕ
spec_chan_size = 100

-- What can happen next: a call of `UpdatePod`, a round of the update loop, a return of `Wait`, a
-- step of the goroutine, or that it notices its cancellation.
pub data Event : Type 0 where
  submit : PodParameters → Event
  round wakeup progress cancellation : Event

cancel : Option Task → Option Task
cancel none = none
cancel (some t) = some (record t { cancelled = true })

module _ {W : Type 0} where
  -- `UpdatePod`: the error for a full channel, or the parameters behind those that wait.
  unfoldable pub update_pod : PodController W → PodParameters → Option Error × PodController W
  update_pod pc params =
      if length pc.update_chan == spec_chan_size
      then (some (Error.errorf "Error updating pod spec: too many pending updates" []), pc)
      else (none, record pc { update_chan = pc.update_chan ++ params ∷ [] })

  -- The end of `doUpdate`.
  finish_update : PodParameters → PodController W → PodController W
  finish_update params pc = record pc { pod_status = pc.spec; annotations = params.annotations }

  -- After the change is applied: the previous goroutine is cancelled and waited for.
  after_begin : PodParameters → Result (Option Work) → System W → System W
  unfolding finish_update cancel
  after_begin params (ok none) s = record s { pc = finish_update params s.pc }
  after_begin params (ok (some work)) s = record s {
    pc = record s.pc { cancel_func = true };
    loop = blocked work params;
    task = cancel s.task;
  }
  after_begin params (err _) s = s
  after_begin params panic s = record s { loop = dead }

  -- `Wait` returns once the counter is 0. Then the goroutine starts, `SyncPodUnits` returns, and
  -- `doUpdate` ends. (`spec` is shared: its phase may be read before or after it is set here.)
  start_task : Work → PodParameters → System W → System W
  unfolding finish_update
  start_task work params s =
      let running = record s.pc.spec { phase = PodPhase.running } in
      record s {
        pc = finish_update params (record s.pc { wait_group = 1; spec = running });
        loop = idle;
        task = some (record { work = work; spec = running; waiting = none; cancelled = false });
      }

  unblock : LoopState → System W → System W
  unfolding start_task
  unblock (blocked work params) s = if s.pc.wait_group == 0 then start_task work params s else s
  unblock l s = s

  after_step : System W → After W → System W
  after_step s (goes_on t pc) = record s { pc = pc; task = some t }
  after_step s (ended pc) = record s { pc = pc; task = none }
  after_step s crashed = record s { loop = dead; task = none }

  -- `ctx.Done()` in `waitForInitUnit`, which returns false: the goroutine ends without `Done`.
  take_cancel : Option Task → System W → System W
  take_cancel none s = s
  take_cancel (some t) s = elim t.waiting [
    | none ↦ s
    | some _ ↦ if t.cancelled then record s { task = none } else s
  ]

-- `doUpdate` up to the call of `SyncPodUnits`.
unfoldable pub prepare : {W : Type 0} → PodParameters → PodController W → PodController W
prepare params pc = record pc {
  pod_name = params.pod_name;
  pod_hostname = params.pod_hostname;
  spec = record params.spec {
    units = merge_secrets_into_spec params.secrets params.spec.units;
    init_units = merge_secrets_into_spec params.secrets params.spec.init_units;
  };
}

module _ {W : Type 0} (rt : RuntimeService W) where
  -- `doUpdate` up to the wait.
  unfoldable pub do_update : PodParameters → System W → System W
  unfolding after_begin
  do_update params s =
      let r = begin_sync rt s.pc.pod_status params.credentials (prepare params s.pc) in
      after_begin params r.0 (record s { pc = r.1 })

  -- One round of `runUpdateLoop` on what waits in the channel: all but the last are dropped.
  receive : List PodParameters → System W → System W
  unfolding do_update
  receive [] s = s
  receive (params ∷ []) s = do_update params (record s { pc = record s.pc { update_chan = [] } })
  receive (_ ∷ later ∷ rest) s = record s { pc = record s.pc { update_chan = later ∷ rest } }

  loop_round : LoopState → System W → System W
  unfolding receive
  loop_round idle s = receive s.pc.update_chan s
  loop_round l s = s

  run_task : Option Task → System W → System W
  unfolding after_step task_step
  run_task none s = s
  run_task (some t) s = after_step s (task_step rt t s.pc)

  live_step : Event → System W → System W
  unfolding update_pod loop_round unblock run_task take_cancel
  live_step (submit params) s = record s { pc = (update_pod s.pc params).1 }
  live_step round s = loop_round s.loop s
  live_step wakeup s = unblock s.loop s
  live_step progress s = run_task s.task s
  live_step cancellation s = take_cancel s.task s

  step_at : LoopState → Event → System W → System W
  unfolding live_step
  step_at dead e s = s
  step_at idle e s = live_step e s
  step_at (blocked work params) e s = live_step e s

  -- An event that is not possible changes nothing; after a panic nothing is.
  unfoldable pub step : Event → System W → System W
  unfolding step_at
  step e s = step_at s.loop e s

  unfoldable pub run : List Event → System W → System W
  run [] s = s
  run (e ∷ events) s = run events (step e s)
