-- ===== src/UnitRun.antt =====
-- What a unit's own process does before it runs the unit's command: `Unit.Run` of pkg/unit/unit.go
-- and its helpers, with pkg/helper/helper.go.
pub mod Flow
mod Tests
use itzo.Base.{
  ℕ, ◌+◌, Bool, true, false, not, ◌&&◌, ◌||◌, Option, none, some, List, [], ◌∷◌, ◌++◌,
  if◌then◌else◌, ◌==◌, str_eq, str_beq, nat_eq, Str, lit, Error, ◌⊎◌, inl, inr, split2, ℤ,
  is_not_exist, take,
}
use itzo.Api.{UnitState, RestartPolicy, Sysctl, no_state, Capabilities}
use itzo.Io.{Io, Result, ok, err, panic, pure, check, of_sum, ignore, for_each, ◌>>=◌, ◌>>◌}
use itzo.Io.Os.{
  Os, mkdir_all, create, remove, write_file, chown, chmod, chdir, sethostname, setenv, sysctl,
  perform, ms_private, ms_rec,
}
use itzo.Io.Paths.{join_path, dir_of}
use itzo.Mount.{Mounter}
use itzo.Mount.Volumes.{share_mount}
use itzo.RunUnit.Identity.{get_user}
use itzo.RunUnit.State.{RunnableUnit, Config, StatusFile}
use itzo.RunUnit.Status.{get_status, with_state}
use itzo.UnitDir.{Codecs, OpenedUnit, get_rootfs, status_file_of}
use itzo.UnitDir.Pipes.{LogPipe, open_writer, remove_pipes}
use itzo.Utils.EnvList.{add_to_env_list, equals}
use itzo.Utils.Names.{get_name_from_string}
use itzo.Utils.Users.{UserLookup}

-- What the process finds on its host: control groups, drivers, users, its environment, and the table
-- of capabilities.
pub record Host (W : Type 0) : Type 0 where
  pub new_cgroup : Str → W → Option Error × W
  pub add_to_cgroup : W → Option Error × W
  pub delete_cgroup : W → W
  pub initialize_gpu : Str → W → Option Error × W
  pub atoi : Str → Error ⊎ ℤ
  pub users : UserLookup
  pub environ : W → List Str
  pub tweak_capabilities : Option Capabilities → Error ⊎ List Str

-- The state of the system, and the path that the status file is used by. A path is resolved by the
-- system as it is then: from `pivot_root` on, also that of the status file is below the new root.
pub record RunState (W : Type 0) : Type 0 where
  pub world : W
  pub status_path : Str

-- What the command's loop is called with.
pub record Ready : Type 0 where
  pub caplist : List Str
  pub uid : ℕ
  pub gid : ℕ
  pub groups : Option (List ℕ)

-- `MakeHostname`
unfoldable pub make_hostname : Str → Str
unfolding get_name_from_string
make_hostname podname = take 63 (get_name_from_string podname)

unfoldable pub ensure_default_environ : List Str → Str → Str → List Str
unfolding lit make_hostname add_to_env_list
ensure_default_environ env podname homedir =
    let env₁ = add_to_env_list env (lit "HOSTNAME") (make_hostname podname) true in
    let env₂ = add_to_env_list env₁ (lit "TERM") (lit "xterm") false in
    let env₃ = add_to_env_list env₂ (lit "HOME") homedir false in
    add_to_env_list env₃ (lit "PATH")
      (lit "/usr/local/sbin:/usr/local/bin:/usr/sbin:/usr/bin:/sbin:/bin") false

module _ {W : Type 0} (os : Os W) where
  -- `util.EnsureFileExists`
  ensure_file_exists : Str → Io W (Unit {0})
  unfolding is_not_exist perform
  ensure_file_exists name w = elim (os.open_file name w) [
    | none ↦ (ok tt, w)
    | some e ↦ if is_not_exist e then perform os (create name) w else (err e, w)
  ]

  create_dir : ℕ → ℕ → Str → Io W (Unit {0})
  unfolding perform
  create_dir uid gid dir = do perform os (mkdir_all dir 493); perform os (chown dir uid gid)

  -- The directory may be there, so that it cannot be made is passed over.
  change_to_workdir : Str → ℕ → ℕ → Io W (Unit {0})
  unfolding perform
  change_to_workdir workingdir uid gid = do
    ignore (perform os (mkdir_all workingdir 493))
    perform os (chdir workingdir)
    if uid == 0 && gid == 0 then pure tt else perform os (chown workingdir uid gid)

  create_empty_file : Str → ℕ → Io W (Unit {0})
  unfolding perform dir_of
  create_empty_file path mode = do
    ignore (perform os (mkdir_all (dir_of path) 493))
    perform os (create path)
    ignore (perform os (chmod path mode))

  apply_sysctls : List Sysctl → Io W (Unit {0})
  unfolding for_each perform
  apply_sysctls sysctls = for_each sysctls (λ (sc : Sysctl). perform os (sysctl sc.name sc.value))

  -- An entry without an equals sign panics.
  set_env : Str → Io W (Unit {0})
  unfolding split2 perform
  set_env e w =
      let (key, value) = split2 equals e in
      elim value [ none ↦ (panic, w) | some v ↦ perform os (setenv key v) w ]

-- An action of the system.
abbrev pub on_system : {W A : Type 0} → Io W A → Io (RunState W) A
on_system m s = let r = m s.world in (r.0, record s { world = r.1 })

module _ {W : Type 0} (os : Os W) (codecs : Codecs) (error_text : Error → Str)
    (u : OpenedUnit) where
  -- `SetState` through the status file.
  unfoldable pub set_state : UnitState → Io (RunState W) (Unit {0})
  unfolding status_file_of with_state perform
  set_state state s =
      let file = status_file_of (os.read_file s.status_path s.world) in
      on_system
        (do
          status ← of_sum (get_status codecs.status u.unit file)
          buf ← of_sum (codecs.status.marshal (with_state state none status))
          perform os (write_file s.status_path buf 384))
        s

  -- `setStateToStartFailure`, whose own error is passed over.
  unfoldable pub report : Error → RunState W → RunState W
  unfolding lit
  report e s =
      (set_state
        (record no_state {
          waiting =
              some
                (record { reason = lit "Failed to start: " ++ error_text e; start_failure = true });
        })
        s).1

  -- `if err != nil { u.setStateToStartFailure(err); return err }`
  unfoldable pub reported {ℓ} : {A : Type ℓ} → Result A × RunState W → Result A × RunState W
  reported (ok a, s) = (ok a, s)
  reported (err e, s) = (err e, report e s)
  reported (panic, s) = (panic, s)

  abbrev pub or_report : {A : Type 0} → Io W A → Io (RunState W) A
  or_report m s = reported (on_system m s)
