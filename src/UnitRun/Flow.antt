-- ===== src/UnitRun/Flow.antt =====
-- The steps of `Unit.Run`, in their order.
pub mod Recorded
pub mod Laws
use itzo.Base.{
  ℕ, ◌+◌, Bool, true, false, not, ◌&&◌, Option, none, some, List, [], ◌∷◌, ◌++◌, if◌then◌else◌,
  ◌==◌, str_eq, str_beq, nat_eq, Str, lit, Error, ◌⊎◌, inl, inr, is_not_exist,
}
use itzo.Api.{RestartPolicy, UnitState, no_state}
use itzo.Io.{Io, Result, ok, err, panic, pure, check, of_sum, ignore, for_each, ◌>>=◌, ◌>>◌}
use itzo.Io.Os.{
  Os, FileInfo, mkdir_all, remove, chown, chmod, chdir, sethostname, perform, ms_private, ms_rec,
}
use itzo.Io.Paths.{join_path}
use itzo.Mount.{Mounter}
use itzo.Mount.Volumes.{share_mount}
use itzo.RunUnit.Identity.{get_user}
use itzo.RunUnit.State.{RunnableUnit, Config}
use itzo.UnitDir.{Codecs, OpenedUnit, get_rootfs}
use itzo.UnitDir.Pipes.{LogPipe, open_writer, remove_pipes}
use itzo.UnitRun.{
  Host, RunState, Ready, make_hostname, ensure_default_environ, ensure_file_exists, create_dir,
  change_to_workdir, create_empty_file, apply_sysctls, set_env, on_system, set_state, reported,
  or_report,
}

-- `defer`: what is done after a method, however it returns.
abbrev pub finally : {S A : Type 0} → (S → S) → Io S A → Io S A
finally cleanup m s = let r = m s in (r.0, cleanup r.1)

-- What is done before an error is passed on.
module _ {W A : Type 0} where
  undone : Io W (Unit {0}) → Result A × W → Result A × W
  undone undo (ok a, w) = (ok a, w)
  undone undo (err e, w) = (err e, (undo w).1)
  undone undo (panic, w) = (panic, w)

  abbrev or_undo : Io W (Unit {0}) → Io W A → Io W A
  or_undo undo m w = undone undo (m w)

module _ {W : Type 0} (os : Os W) (codecs : Codecs) (error_text : Error → Str) (host : Host W)
    (mounter : Mounter W) (u : OpenedUnit) where
  abbrev step : {A : Type 0} → Io W A → Io (RunState W) A
  step = or_report os codecs error_text u

  abbrev act : (W → Option Error × W) → Io W (Unit {0})
  act f w = let r = f w in check r.0 r.1

  no_rootfs : Error ⊎ FileInfo → Bool
  unfolding is_not_exist
  no_rootfs (inl e) = is_not_exist e
  no_rootfs (inr fi) = false

  -- A pipe that cannot be opened takes all of them with it.
  unfoldable pub open_pipes : Io (RunState W) LogPipe
  unfolding undone lit
  open_pipes = do
    lp ← step (or_undo (remove_pipes os u.log_pipe) (open_writer os u.log_pipe (lit "unit-stdout")))
    lp₂ ← step (or_undo (remove_pipes os lp) (open_writer os lp (lit "unit-stderr")))
    step (λ w. check (os.open_file u.stdin_path w) w)
    pure lp₂

  -- An overlay is mounted already; a directory is mounted on itself.
  unfoldable pub make_private : Str → Bool → Io (RunState W) (Unit {0})
  unfolding lit
  make_private rootfs false = do
    step (mounter.bind_mount rootfs rootfs)
    step (share_mount os (lit "/") (ms_private + ms_rec))
  make_private rootfs true = do
    step (share_mount os rootfs ms_private)
    step (share_mount os (lit "/") ms_private)

  -- From the mounts to `pivot_root`.
  unfoldable pub enter : Str → Io (RunState W) (Unit {0})
  unfolding undone lit join_path ensure_file_exists
  enter rootfs =
      let status = join_path (get_rootfs u ∷ lit "status" ∷ []) in
      let oldrootfs = rootfs ++ lit "/.oldrootfs" in
      do
        make_private rootfs u.unit.unit_config.use_overlayfs
        on_system (ignore (ensure_file_exists os u.status_path))
        on_system (ignore (ensure_file_exists os status))
        step (mounter.bind_mount u.status_path status)
        step (perform os (mkdir_all oldrootfs 448))
        step (mounter.mount_special u.unit.name)
        step (
            or_undo (mounter.unmount_special u.unit.name)
              (act (host.initialize_gpu (get_rootfs u))))
        step (or_undo (mounter.unmount_special u.unit.name) (mounter.pivot_root rootfs oldrootfs))

  -- The old root is left behind; the status file is now the one that was mounted.
  unfoldable pub leave_old_root : Io (RunState W) (Unit {0})
  unfolding lit
  leave_old_root = do
    step (perform os (chdir (lit "/")))
    step (share_mount os (lit "/.oldrootfs") (ms_private + ms_rec))
    step (mounter.unmount (lit "/.oldrootfs"))
    on_system (ignore (perform os (remove (lit "/.oldrootfs"))))
    λ s. (ok tt, record s { status_path = lit "/status" })

  volumes_of : Option Config → List Str
  volumes_of none = []
  volumes_of (some config) = config.volumes

  chown_pipes : LogPipe → ℕ → ℕ → Io W (Unit {0})
  unfolding for_each join_path perform
  chown_pipes lp uid gid =
      if uid == 0 && gid == 0
      then pure tt
      else ignore (
          for_each lp.pipes
            (λ name. perform os (chown (join_path (lp.unitdir ∷ name ∷ [])) uid gid)))

  settle_as : Str → Str → LogPipe → ℕ × ℕ × Option (List ℕ) × Str → Io (RunState W) Ready
  unfolding chown_pipes volumes_of set_env create_dir create_empty_file change_to_workdir
      apply_sysctls str_beq lit
  settle_as podname workingdir lp (uid, gid, groups, homedir) = do
    on_system (chown_pipes lp uid gid)
    environ ← on_system (λ w. (ok (host.environ w), w))
    step (for_each (ensure_default_environ environ podname homedir) (set_env os))
    step (perform os (chmod (lit "/") 493))
    step (for_each (volumes_of u.unit.config) (create_dir os uid gid))
    on_system (
        if u.unit.unit_config.termination_message_path == []
        then pure tt
        else ignore (create_empty_file os u.unit.unit_config.termination_message_path 438))
    step (if workingdir == [] then pure tt else change_to_workdir os workingdir uid gid)
    caplist ←
        step (of_sum (host.tweak_capabilities u.unit.unit_config.security_context.capabilities))
    step (apply_sysctls os u.unit.unit_config.pod_security_context.sysctls)
    pure (record { caplist = caplist; uid = uid; gid = gid; groups = groups })

  -- The host name, the user, the environment, directories, capabilities and kernel parameters.
  unfoldable pub settle : Str → Str → Str → LogPipe → Io (RunState W) Ready
  unfolding settle_as str_beq
  settle podname hostname workingdir lp = do
    step (perform os (sethostname (if hostname == [] then make_hostname podname else hostname)))
    user ← step (of_sum (get_user host.atoi host.users u.unit))
    settle_as podname workingdir lp user

  module _ (unit_loop : Ready → Io (RunState W) (Unit {0})) where
    settle_and_loop : Str → Str → Str → LogPipe → Io (RunState W) (Unit {0})
    settle_and_loop podname hostname workingdir lp =
        settle podname hostname workingdir lp >>= unit_loop

    -- With a root file system the special file systems of the new root are unmounted at the end.
    run_in : Bool → Str → Str → Str → LogPipe → Io (RunState W) (Unit {0})
    unfolding settle_and_loop lit
    run_in true podname hostname workingdir lp = settle_and_loop podname hostname workingdir lp
    run_in false podname hostname workingdir lp = do
      enter (get_rootfs u)
      finally (λ s. record s { world = (mounter.unmount_special [] s.world).1 })
          (leave_old_root >> settle_and_loop podname hostname workingdir lp)

    -- `unit_loop` is `RunUnitLoop`.
    unfoldable pub run : Str → Str → Str → Io (RunState W) (Unit {0})
    unfolding lit no_rootfs run_in
    run podname hostname workingdir = do
      ignore (
          set_state os codecs error_text u (record no_state {
            waiting = some (record { reason = lit "PodInitializing"; start_failure = false });
          }))
      step (act (host.new_cgroup (lit "/" ++ u.unit.name)))
      finally (λ s. record s { world = host.delete_cgroup s.world })
          (do
            step (act host.add_to_cgroup)
            missing ← on_system (λ w. (ok (no_rootfs (os.stat (get_rootfs u) w)), w))
            lp ← open_pipes
            run_in missing podname hostname workingdir lp)
