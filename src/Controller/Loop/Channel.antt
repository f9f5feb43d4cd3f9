-- ===== src/Controller/Loop/Channel.antt =====
-- The channel of pending updates, and the counter of the wait group, over any sequence of events.
use itzo.Base.{
  ℕ, suc, ◌-◌, ◌≤◌, ◌≡◌, ◌≢◌, refl, ◌∙◌, ap, Option, none, some, List, [], ◌∷◌, ◌++◌, arith, length,
  length-append, replicate, ◌⊎◌,
}
use itzo.Api.{PodParameters}
use itzo.Controller.Runtime.{RuntimeService}
use itzo.Controller.State.{PodController}
use itzo.Controller.Update.Frame.{begin_sync-SameFrame}
use itzo.Controller.Task.{Task, After, goes_on, ended, crashed, task_step}
use itzo.Controller.Loop.{
  System, idle, Event, submit, round, wakeup, progress, cancellation, step, run, update_pod,
  do_update, prepare, receive, after_step, run_task, spec_chan_size,
}
use itzo.Controller.Loop.Hang.{with_chan}

-- `UpdatePod` refuses exactly when 100 updates wait, and then it changes nothing; otherwise the
-- parameters wait behind the others.
update_pod_lem :
    {W : Type 0} (pc : PodController W) (params : PodParameters)
    → ((length pc.update_chan ≡ spec_chan_size)
        × ((update_pod pc params).0 ≢ none)
        × ((update_pod pc params).1 ≡ pc))
      ⊎ ((length pc.update_chan ≢ spec_chan_size)
          × ((update_pod pc params).0 ≡ none)
          × ((update_pod pc params).1 ≡ record pc { update_chan = pc.update_chan ++ params ∷ [] }))
unfolding update_pod
update_pod_lem pc params = grind arith

-- At most one goroutine runs, and the counter is 1 while it does.
abbrev Counts : Option Task → ℕ → Type 0
Counts none n = n ≤ 1
Counts (some t) n = n ≡ 1

pub record IsSound {W : Type 0} (s : System W) : Type 0 where
  pub pending : length s.pc.update_chan ≤ spec_chan_size
  pub counts : Counts s.task s.pc.wait_group

module _ {W : Type 0} (rt : RuntimeService W) where
  round-drop :
      (p q : PodParameters) (rest : List PodParameters) (s : System W)
      → s.loop ≡ idle
      → s.pc.update_chan ≡ p ∷ q ∷ rest
      → step rt round s ≡ with_chan s (q ∷ rest)
  unfolding step
  round-drop p q rest s h e = ground arith

  round-last :
      (last : PodParameters) (s : System W)
      → s.loop ≡ idle
      → s.pc.update_chan ≡ last ∷ []
      → step rt round s ≡ do_update rt last (with_chan s [])
  unfolding step
  round-last last s h e = ground arith

  -- In one round for each pending update, an idle update loop drops all of them but the last, and
  -- applies that one.
  rounds_apply_last :
      (dropped : List PodParameters) (last : PodParameters) (s : System W)
      → s.loop ≡ idle
      → s.pc.update_chan ≡ dropped ++ last ∷ []
      → run rt (replicate (suc (length dropped)) round) s ≡ do_update rt last (with_chan s [])
  unfolding run
  rounds_apply_last [] last s h e = round-last last s h e
  rounds_apply_last (p ∷ []) last s h e =
      ap (run rt (round ∷ [])) (round-drop p last [] s h e)
      ∙ round-last last (with_chan s (last ∷ [])) h refl
  rounds_apply_last (p ∷ q ∷ dropped) last s h e =
      ap (run rt (replicate (suc (suc (length dropped))) round))
        (round-drop p q (dropped ++ last ∷ []) s h e)
      ∙ rounds_apply_last (q ∷ dropped) last (with_chan s (q ∷ (dropped ++ last ∷ []))) h refl

  task_step-goes_on :
      (t t' : Task) (pc pc' : PodController W)
      → task_step rt t pc ≡ goes_on t' pc'
      → (pc'.wait_group ≡ pc.wait_group) × (pc'.update_chan ≡ pc.update_chan)
  unfolding task_step
  task_step-goes_on t t' pc pc' h = ground arith

  task_step-ended :
      (t : Task) (pc pc' : PodController W)
      → task_step rt t pc ≡ ended pc'
      → (pc'.wait_group ≤ pc.wait_group) × (pc'.update_chan ≡ pc.update_chan)
  unfolding task_step
  task_step-ended t pc pc' h = ground arith

  do_update-IsSound :
      (params : PodParameters) (s : System W) → IsSound s → IsSound (do_update rt params s)
  unfolding do_update prepare
  do_update-IsSound params s h =
      ground
        (arith, begin_sync-SameFrame rt s.pc.pod_status params.credentials (prepare params s.pc))

  receive-IsSound :
      (chan : List PodParameters) (s : System W)
      → length chan ≤ spec_chan_size
      → IsSound s
      → IsSound (receive rt chan s)
  unfolding receive
  receive-IsSound [] s le h = h
  receive-IsSound (p ∷ []) s le h =
      do_update-IsSound p (with_chan s []) (record { pending = omega arith; counts = h.counts })
  receive-IsSound (p ∷ q ∷ rest) s le h = record { pending = omega arith; counts = h.counts }

  after_step-IsSound :
      (a : After W) (t : Task) (s : System W)
      → task_step rt t s.pc ≡ a
      → s.task ≡ some t
      → IsSound s
      → IsSound (after_step s a)
  unfolding after_step
  after_step-IsSound (goes_on t' pc') t s e has h = ground (arith, task_step-goes_on t t' s.pc pc')
  after_step-IsSound (ended pc') t s e has h = ground (arith, task_step-ended t s.pc pc')
  after_step-IsSound crashed t s e has h = ground arith

  progress-IsSound :
      (task : Option Task) (s : System W) → s.task ≡ task → IsSound s → IsSound (run_task rt task s)
  unfolding run_task
  progress-IsSound none s e h = h
  progress-IsSound (some t) s e h = after_step-IsSound (task_step rt t s.pc) t s refl e h

  -- A single event keeps the system sound.
  pub step-IsSound : (e : Event) (s : System W) → IsSound s → IsSound (step rt e s)
  unfolding step
  step-IsSound (submit p) s h = ground (arith, length-append s.pc.update_chan (p ∷ []))
  step-IsSound round s h = ground (arith, receive-IsSound s.pc.update_chan s)
  step-IsSound wakeup s h = ground arith
  step-IsSound progress s h = ground (arith, progress-IsSound s.task s)
  step-IsSound cancellation s h = ground arith

  -- While a goroutine runs, `Wait` does not let another one start.
  wakeup-waits : (s : System W) {t : Task} → IsSound s → s.task ≡ some t → step rt wakeup s ≡ s
  unfolding step
  wakeup-waits s h running = ground arith

  task_step-done :
      (t : Task) (pc pc' : PodController W)
      → t.waiting ≡ none
      → task_step rt t pc ≡ ended pc'
      → pc'.wait_group ≡ pc.wait_group - 1
  unfolding task_step
  task_step-done t pc pc' h e = ground arith

  ends-done :
      (s : System W) {t : Task} (pc' : PodController W)
      → IsSound s
      → s.task ≡ some t
      → t.waiting ≡ none
      → task_step rt t s.pc ≡ ended pc'
      → pc'.wait_group ≡ 0
  ends-done s {t} pc' h running idle_task e =
      let dec = task_step-done t s.pc pc' idle_task e in ground (arith, h.counts, dec)

  -- While a goroutine runs, a wakeup of the update loop changes nothing, so that no other one starts;
  -- and the step in which it ends, if it does not wait for an init unit then, leaves the counter at 0.
  abbrev pub IsAlone : System W → Type 0
  IsAlone s =
      (t : Task)
      → s.task ≡ some t
      → (step rt wakeup s ≡ s)
        × ((pc : PodController W)
            → t.waiting ≡ none
            → task_step rt t s.pc ≡ ended pc
            → pc.wait_group ≡ 0)

  -- Whatever events happen to a system in which at most 100 updates wait, and the counter of the wait
  -- group is 1 while a goroutine runs and at most 1 while none does: these bounds still hold. If a
  -- goroutine runs after the events, then a wakeup of the update loop changes nothing, so that no
  -- other goroutine starts; and if it does not wait for an init unit and its next step ends it, then
  -- that step leaves the counter at 0.
  pub run-IsSound :
      (events : List Event) (s : System W)
      → IsSound s
      → IsSound (run rt events s) × IsAlone (run rt events s)
  unfolding run
  run-IsSound [] s h =
      (h, λ t running. (wakeup-waits s h running, λ pc w e. ends-done s pc h running w e))
  run-IsSound (e ∷ events) s h = run-IsSound events (step rt e s) (step-IsSound e s h)
