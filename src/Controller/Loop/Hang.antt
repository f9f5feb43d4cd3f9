-- ===== src/Controller/Loop/Hang.antt =====
-- An update that is applied while the goroutine waits for an init unit blocks the update loop for good.
use itzo.Base.{◌<◌, ◌≡◌, refl, ◌∙◌, ap, true, none, some, List, [], ◌∷◌, arith}
use itzo.Api.{PodParameters, UnitSpec}
use itzo.Controller.Runtime.{RuntimeService}
use itzo.Io.{ok}
use itzo.Controller.Update.{Work, begin_sync}
use itzo.Controller.Update.Frame.{begin_sync-SameFrame}
use itzo.Controller.Task.{Task}
use itzo.Controller.Loop.{
  System, blocked, Event, submit, round, wakeup, progress, cancellation, step, run, idle, prepare,
}

-- The loop is in `Wait`, and no goroutine is left that could call `Done`.
pub record IsHung {W : Type 0} (work : Work) (params : PodParameters) (s : System W) : Type 0 where
  pub in_wait : s.loop ≡ blocked work params
  pub no_task : s.task ≡ none
  pub counter : 0 < s.pc.wait_group

-- A system with other pending parameters.
abbrev pub with_chan : {W : Type 0} → System W → List PodParameters → System W
with_chan s chan = record s { pc = record s.pc { update_chan = chan } }

module _ {W : Type 0} (rt : RuntimeService W) (work : Work) (params : PodParameters) where
  step-IsHung :
      (e : Event) (s : System W)
      → IsHung work params s
      → IsHung work params (step rt e s) × (step rt e s ≡ with_chan s (step rt e s).pc.update_chan)
  unfolding step
  step-IsHung (submit p) s h = ground arith
  step-IsHung round s h = ground arith
  step-IsHung wakeup s h = ground arith
  step-IsHung progress s h = ground arith
  step-IsHung cancellation s h = ground arith

  -- Whatever happens to a hung system, only the channel of pending updates changes: no update is
  -- ever applied again.
  pub run-IsHung :
      (events : List Event) (s : System W)
      → IsHung work params s
      → run rt events s ≡ with_chan s (run rt events s).pc.update_chan
  unfolding run
  run-IsHung [] s h = refl
  run-IsHung (e ∷ events) s h =
      let (hung, same) = step-IsHung e s h in
      let later = run-IsHung events (step rt e s) hung in
      later ∙ ap (λ t. with_chan t (run rt events (step rt e s)).pc.update_chan) same

  cancelled-IsHung :
      (s : System W) {t : Task} {unit : UnitSpec}
      → s.loop ≡ blocked work params
      → s.task ≡ some t
      → t.waiting ≡ some unit
      → t.cancelled ≡ true
      → 0 < s.pc.wait_group
      → IsHung work params (step rt cancellation s)
  unfolding step
  cancelled-IsHung s blocked_at running waits is_cancelled counted = ground arith

  pc-cancellation : (s : System W) → (step rt cancellation s).pc ≡ s.pc
  unfolding step
  pc-cancellation s = ground arith

  round-blocks :
      (s : System W) {t : Task} {unit : UnitSpec}
      → s.loop ≡ idle
      → s.pc.update_chan ≡ params ∷ []
      → s.task ≡ some t
      → t.waiting ≡ some unit
      → (begin_sync rt s.pc.pod_status params.credentials
          (prepare params (record s.pc { update_chan = [] }))).0
        ≡ ok (some work)
      → 0 < s.pc.wait_group
      → (step rt round s).loop ≡ blocked work params
        × ((step rt round s).task ≡ some (record t { cancelled = true }))
        × (0 < (step rt round s).pc.wait_group)
        × ((step rt round s).pc.pod_status ≡ s.pc.pod_status)
  unfolding step prepare
  round-blocks s is_idle pending running waits applied counted = ground (
    arith,
    begin_sync-SameFrame rt s.pc.pod_status params.credentials
        (prepare params (record s.pc { update_chan = [] })),
  )

  -- An update that is the only one pending and has something to start, applied while the goroutine
  -- of the previous update waits for an init unit and the counter of the wait group is not 0, stops
  -- the agent from applying any update again: once the goroutine notices that it is cancelled, the
  -- loop stays in `Wait` whatever happens, and the pod status that it would compare a later update
  -- with stays as it was.
  pub update_while_waiting-hangs :
      (events : List Event) (s : System W) {t : Task} {unit : UnitSpec}
      → s.loop ≡ idle
      → s.pc.update_chan ≡ params ∷ []
      → s.task ≡ some t
      → t.waiting ≡ some unit
      → (begin_sync rt s.pc.pod_status params.credentials
          (prepare params (record s.pc { update_chan = [] }))).0
        ≡ ok (some work)
      → 0 < s.pc.wait_group
      → let after = run rt (round ∷ cancellation ∷ events) s in
        (after.loop ≡ blocked work params) × (after.pc.pod_status ≡ s.pc.pod_status)
  unfolding run
  update_while_waiting-hangs events s is_idle pending running waits applied counted =
      let (l, t, n, st) = round-blocks s is_idle pending running waits applied counted in
      let hung = cancelled-IsHung (step rt round s) l t waits refl n in
      let same = run-IsHung events (step rt cancellation (step rt round s)) hung in
      (
        ap (λ u. u.loop) same ∙ hung.in_wait,
        ap (λ u. u.pc.pod_status) same
            ∙ ap (λ pc. pc.pod_status) (pc-cancellation (step rt round s))
            ∙ st,
      )
