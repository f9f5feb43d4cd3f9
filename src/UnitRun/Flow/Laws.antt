-- ===== src/UnitRun/Flow/Laws.antt =====
-- How `Unit.Run` ends after a failure before the command's loop.
use itzo.Base.{
  ℕ, [], ◌≡◌, refl, ap, subst, Bool, true, false, if◌then◌else◌, List, Str, Error, ◌⊎◌, inl, inr,
  nat_eq, str_eq, Option,
}
use itzo.Io.{Io, Result, ok, err, panic, continue, pure, forgotten, ignore, ◌>>=◌}
use itzo.Io.Os.{Os}
use itzo.Mount.{Mounter}
use itzo.UnitDir.{Codecs, OpenedUnit}
use itzo.UnitDir.Pipes.{LogPipe}
use itzo.UnitRun.{Host, RunState, Ready, on_system, report, reported, or_report}
use itzo.UnitRun.Flow.Recorded.{Recorded, report-Recorded}
use itzo.UnitRun.Flow.{
  finally, open_pipes, make_private, enter, leave_old_root, chown_pipes, settle_as, settle,
  settle_and_loop, run_in, run,
}

abbrev pub is_err {ℓ} : {A : Type ℓ} → Result A → Bool
is_err (err _) = true
is_err (ok _) = false
is_err panic = false

-- A method without errors.
record Quiet {S A : Type 0} (m : Io S A) : Type 0 where
  at : (s : S) → is_err (m s).0 ≡ false

module _ {S A : Type 0} where
  Quiet-pure : (a : A) → Quiet {S = S} (pure a)
  Quiet-pure a = record { at = λ s. refl }

  Quiet-if : (b : Bool) (m k : Io S A) → Quiet m → Quiet k → Quiet (if b then m else k)
  Quiet-if true m k h h' = h
  Quiet-if false m k h h' = h'

module _ {W : Type 0} (os : Os W) (codecs : Codecs) (error_text : Error → Str) (host : Host W)
    (mounter : Mounter W) (u : OpenedUnit) (unit_loop : Ready → Io (RunState W) (Unit {0})) where
  abbrev pub unmounted : RunState W → RunState W
  unmounted s = record s { world = (mounter.unmount_special [] s.world).1 }

  abbrev pub without_cgroup : RunState W → RunState W
  without_cgroup s = record s { world = host.delete_cgroup s.world }

  -- Between the two states only deferred actions were done.
  pub data Follows (s : RunState W) : RunState W → Type 0 where
    here : Follows s s
    unmount : {t : RunState W} → Follows s t → Follows s (unmounted t)
    delete : {t : RunState W} → Follows s t → Follows s (without_cgroup t)

  -- No error; or an error after which the failure was put into the status file; or the error of the
  -- command's loop.
  abbrev pub Told : {A : Type 0} → Result A × RunState W → Type 0
  Told r =
      (is_err r.0 ≡ false)
      ⊎ ((e : Error) × (t : RunState W) × (t' : RunState W) × (r.0 ≡ err e)
          × Recorded os codecs error_text u e t t'
          × Follows t' r.1)
      ⊎ ((e : Error) × (ready : Ready) × (t : RunState W) × (r.0 ≡ err e)
          × ((unit_loop ready t).0 ≡ err e)
          × Follows (unit_loop ready t).1 r.1)

  record Tells {A : Type 0} (m : Io (RunState W) A) : Type 0 where
    at : (s : RunState W) → Told (m s)

  Told-reported :
      {A : Type 0} (r : Result A × RunState W) → Told (reported os codecs error_text u r)
  unfolding reported
  Told-reported (ok a, s) = inl refl
  Told-reported (err e, s) = inr (
      inl (
        e,
        s,
        report os codecs error_text u e s,
        refl,
        report-Recorded os codecs error_text u e s,
        here,
      ))
  Told-reported (panic, s) = inl refl

  Tells-or_report : {A : Type 0} (m : Io W A) → Tells (or_report os codecs error_text u m)
  Tells-or_report m = record { at = λ s. Told-reported (on_system m s) }

  Tells-pure : {A : Type 0} (a : A) → Tells (pure a)
  Tells-pure a = record { at = λ s. inl refl }

  never : {S A : Type 0} (r : Result A × S) → is_err (forgotten r).0 ≡ false
  never (ok a, s) = refl
  never (err e, s) = refl
  never (panic, s) = refl

  Tells-ignore : {A : Type 0} (m : Io (RunState W) A) → Tells (ignore m)
  Tells-ignore m = record { at = λ s. inl (never (m s)) }

  Tells-on_system : {A : Type 0} (m : Io W A) → Tells (on_system (ignore m))
  Tells-on_system m = record { at = λ s. inl (never (m s.world)) }

  Tells-if :
      {A : Type 0} (b : Bool) (m k : Io (RunState W) A)
      → Tells m
      → Tells k
      → Tells (if b then m else k)
  Tells-if true m k h h' = h
  Tells-if false m k h h' = h'

  same_error :
      {A B : Type 0} (e e' : Error)
      → ◌≡◌ {A = Result A} (err e) (err e')
      → ◌≡◌ {A = Result B} (err e) (err e')
  same_error {A} {B} e e' h =
      ap err (ap (λ (r : Result A). elim r [ err x ↦ x | ok _ ↦ e | panic ↦ e ]) h)

  Told-continue :
      {A B : Type 0} (r : Result A) (f : A → Io (RunState W) B) (s : RunState W)
      → Told (r, s)
      → ((a : A) → Tells (f a))
      → Told (continue r f s)
  Told-continue (ok a) f s h k = (k a).at s
  Told-continue (err e) f s (inl h) k = cc
  Told-continue (err e) f s (inr (inl (e', t, t', h, k', w))) k =
      inr (inl (e', t, t', same_error e e' h, k', w))
  Told-continue (err e) f s (inr (inr (e', ready, t, h, q, w))) k =
      inr (inr (e', ready, t, same_error e e' h, q, w))
  Told-continue panic f s h k = inl refl

  Tells-bind :
      {A B : Type 0} (m : Io (RunState W) A) (f : A → Io (RunState W) B)
      → Tells m
      → ((a : A) → Tells (f a))
      → Tells (m >>= f)
  Tells-bind m f h k = record { at = λ s. Told-continue (m s).0 f (m s).1 (h.at s) k }

  Told-cleaned :
      {A : Type 0} (cleanup : RunState W → RunState W) (r : Result A × RunState W)
      → ((s t : RunState W) → Follows s t → Follows s (cleanup t))
      → Told r
      → Told (r.0, cleanup r.1)
  Told-cleaned cleanup r h (inl q) = inl q
  Told-cleaned cleanup r h (inr (inl (e, t, t', q, f, w))) = inr (inl (e, t, t', q, f, h _ _ w))
  Told-cleaned cleanup r h (inr (inr (e, ready, t, q, k, w))) =
      inr (inr (e, ready, t, q, k, h _ _ w))

  Tells-unmounted : {A : Type 0} (m : Io (RunState W) A) → Tells m → Tells (finally unmounted m)
  Tells-unmounted m h = record {
    at = λ s. Told-cleaned unmounted (m s) (λ s t w. unmount w) (h.at s);
  }

  Tells-without_cgroup :
      {A : Type 0} (m : Io (RunState W) A) → Tells m → Tells (finally without_cgroup m)
  Tells-without_cgroup m h = record {
    at = λ s. Told-cleaned without_cgroup (m s) (λ s t w. delete w) (h.at s);
  }

  Tells-unit_loop : (ready : Ready) → Tells (unit_loop ready)
  Tells-unit_loop ready = record { at = λ s. go (unit_loop ready s) s refl }
    where
      go : (r : Result (Unit {0}) × RunState W) (s : RunState W) → unit_loop ready s ≡ r → Told r
      go (ok a, t) s h = inl refl
      go (panic, t) s h = inl refl
      go (err e, t) s h = inr (
          inr (
            e,
            ready,
            s,
            refl,
            ap (λ r. r.0) h,
            subst (λ r. Follows (unit_loop ready s).1 r.1) h here,
          ))

  Tells-quiet :
      {A : Type 0} (f : RunState W → A) (g : RunState W → RunState W)
      → Tells {A = A} (λ s. (ok (f s), g s))
  Tells-quiet f g = record { at = λ s. inl refl }

  ruleset telling = (
    Tells-bind, Tells-or_report, Tells-pure, Tells-ignore, Tells-on_system, Tells-if,
    Tells-unmounted, Tells-without_cgroup, Tells-unit_loop, Tells-quiet,
  )

  Tells-open_pipes : Tells (open_pipes os codecs error_text host mounter u)
  unfolding open_pipes
  Tells-open_pipes = search telling

  Tells-make_private :
      (rootfs : Str) (overlay : Bool)
      → Tells (make_private os codecs error_text host mounter u rootfs overlay)
  unfolding make_private
  Tells-make_private rootfs true = search telling
  Tells-make_private rootfs false = search telling

  Tells-enter : (rootfs : Str) → Tells (enter os codecs error_text host mounter u rootfs)
  unfolding enter
  Tells-enter rootfs = search (telling, Tells-make_private) depth 30

  Tells-leave_old_root : Tells (leave_old_root os codecs error_text host mounter u)
  unfolding leave_old_root
  Tells-leave_old_root = search telling depth 30

  Quiet-ignore : {A : Type 0} (m : Io W A) → Quiet (ignore m)
  Quiet-ignore m = record { at = λ w. never (m w) }

  Tells-system : {A : Type 0} (m : Io W A) → Quiet m → Tells (on_system m)
  Tells-system m h = record { at = λ s. inl (h.at s.world) }

  ruleset quiet_telling = (telling, Quiet-if, Quiet-pure, Quiet-ignore, Tells-system)

  Tells-settle_as :
      (podname workingdir : Str) (lp : LogPipe) (user : ℕ × ℕ × Option (List ℕ) × Str)
      → Tells (settle_as os codecs error_text host mounter u podname workingdir lp user)
  unfolding settle_as chown_pipes
  Tells-settle_as podname workingdir lp (uid, gid, groups, homedir) = search quiet_telling depth 40

  Tells-settle :
      (podname hostname workingdir : Str) (lp : LogPipe)
      → Tells (settle os codecs error_text host mounter u podname hostname workingdir lp)
  unfolding settle
  Tells-settle podname hostname workingdir lp = search (telling, Tells-settle_as)

  Tells-settle_and_loop :
      (podname hostname workingdir : Str) (lp : LogPipe)
      → Tells (
          settle_and_loop os codecs error_text host mounter u unit_loop podname hostname workingdir
            lp)
  unfolding settle_and_loop
  Tells-settle_and_loop podname hostname workingdir lp = search (telling, Tells-settle)

  Tells-run_in :
      (missing : Bool) (podname hostname workingdir : Str) (lp : LogPipe)
      → Tells (
          run_in os codecs error_text host mounter u unit_loop missing podname hostname workingdir
            lp)
  unfolding run_in
  Tells-run_in true podname hostname workingdir lp =
      Tells-settle_and_loop podname hostname workingdir lp
  Tells-run_in false podname hostname workingdir lp =
      search (telling, Tells-enter, Tells-leave_old_root, Tells-settle_and_loop)

  Tells-run :
      (podname hostname workingdir : Str)
      → Tells (run os codecs error_text host mounter u unit_loop podname hostname workingdir)
  unfolding run
  Tells-run podname hostname workingdir = search (telling, Tells-open_pipes, Tells-run_in) depth 30

  -- Whatever fails in `Run` before the command's loop, from the control group to the kernel
  -- parameters, the failure is put as a failed start into the status file, at the path that is used
  -- for it then: it is written unless the status there cannot be read or encoded, and an error of the
  -- write is passed over. After that only the deferred actions are done: the special file systems of
  -- the new root are unmounted and the control group is deleted. Any other error of `Run` is the
  -- error of the command's loop.
  pub run-Told :
      (podname hostname workingdir : Str) (s : RunState W)
      → Told (run os codecs error_text host mounter u unit_loop podname hostname workingdir s)
  run-Told podname hostname workingdir s = (Tells-run podname hostname workingdir).at s
