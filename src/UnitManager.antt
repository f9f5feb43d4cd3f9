-- ===== src/UnitManager.antt =====
-- The table of the running units: `UnitManager` of pkg/unit/unit_manager.go.
pub mod Laws
mod Tests
use itzo.Base.{
  ℕ, Bool, true, false, not, Option, none, some, is_some, List, [], ◌∷◌, ◌++◌, if◌then◌else◌, ◌==◌,
  str_eq, str_beq, Str, lit, Map, lookup, insert, remove, Error, is_exist, ◌⊎◌, inl, inr, split2,
}
use itzo.Api.{RestartPolicy, always, on_failure, never}
use itzo.Io.{
  Io, Result, ok, err, panic, pure, raise, nil_pointer, of_sum, ignore, wrap, ◌>>=◌, ◌>>◌,
}
use itzo.Io.Os.{Os}
use itzo.LogBuf.{LogBuffer, LogEntry, new_log_buffer, read}
use itzo.RunUnit.Identity.{create_command, get_env, get_working_dir}
use itzo.UnitDir.{Codecs, OpenedUnit, open_unit, destroy, get_rootfs}
use itzo.UnitDir.Pipes.{remove_pipes}
use itzo.Utils.EnvList.{add_to_env_list, equals}

-- A helper process to start: its arguments, its environment, and whether it gets its own host name,
-- process and mount namespaces.
pub record Command : Type 0 where
  pub args : List Str
  pub env : List Str
  pub new_namespaces : Bool

-- Processes by their numbers, the quoting of a command line, and whether a directory that could be
-- opened has no entries.
pub record Processes (W : Type 0) : Type 0 where
  pub start : Command → W → (Error ⊎ ℕ) × W
  pub kill : ℕ → W → Option Error × W
  pub quote : List Str → Str
  pub has_no_entries : Str → W → Bool

-- `world` is the state of the system.
pub record UnitManager (W : Type 0) : Type 0 where
  pub world : W
  pub running_units : Map ℕ
  pub log_buf : Map LogBuffer

unfoldable pub policy_text : RestartPolicy → Str
unfolding lit
policy_text always = lit "Always"
policy_text on_failure = lit "OnFailure"
policy_text never = lit "Never"

-- The variables of the specification over those of the image. One without an equals sign panics.
unfoldable pub merge_env : List Str → List Str → Option (List Str)
unfolding split2
merge_env env [] = some env
merge_env env (e ∷ appenv) =
    let (key, value) = split2 equals e in
    elim value [ none ↦ none | some v ↦ merge_env (add_to_env_list env key v true) appenv ]

or_panic : {S A : Type 0} → Option A → Io S A
or_panic none = nil_pointer
or_panic (some a) = pure a

found_log_buffer : Str → Option LogBuffer → Error ⊎ LogBuffer
found_log_buffer name none = inl (Error.errorf "Could not find logs for unit named %s" (name ∷ []))
found_log_buffer name (some lb) = inr lb

module _ {W : Type 0} where
  unfoldable pub unit_running : Str → UnitManager W → Bool
  unit_running name um = is_some (lookup name um.running_units)

  unfoldable pub get_pid : Str → UnitManager W → Option ℕ
  get_pid name um = lookup name um.running_units

  unfoldable pub get_log_buffer : Str → UnitManager W → Error ⊎ LogBuffer
  unfolding found_log_buffer
  get_log_buffer name um = found_log_buffer name (lookup name um.log_buf)

  -- An action of the system.
  abbrev pub on_world : {A : Type 0} → Io W A → Io (UnitManager W) A
  on_world m um = let r = m um.world in (r.0, record um { world = r.1 })

  unfoldable pub set_running : Str → ℕ → Io (UnitManager W) (Unit {0})
  set_running name pid um = (ok tt, record um { running_units = insert name pid um.running_units })

  unfoldable pub delete_running : Str → Io (UnitManager W) (Unit {0})
  delete_running name um = (ok tt, record um { running_units = remove name um.running_units })

  -- `CaptureLogs`: the new buffer, which the readers of the two pipes write to.
  unfoldable pub capture_logs : Str → Io (UnitManager W) (Unit {0})
  unfolding new_log_buffer
  capture_logs name um =
      (ok tt, record um { log_buf = insert name (new_log_buffer 4096) um.log_buf })

module _ {W : Type 0} (os : Os W) (codecs : Codecs) (processes : Processes W) (root_dir : Str) where
  unfoldable pub kill_running : Str → ℕ → Io (UnitManager W) (Unit {0})
  unfolding delete_running
  kill_running name pid = do
    u ←
        wrap (Error.wrapf "Error opening unit %s for termination: %s" (name ∷ []))
          (on_world (open_unit os codecs root_dir name))
    on_world (λ w. (ok tt, (processes.kill pid w).1))
    delete_running name

  -- That a process cannot be killed is only logged.
  unfoldable pub stop_unit : Str → Io (UnitManager W) (Unit {0})
  stop_unit name um = elim (lookup name um.running_units) [
    | none ↦ (err (Error.errorf "Could not stop unit %s: Unit does not exist" (name ∷ [])), um)
    | some pid ↦ kill_running name pid um
  ]

  unfoldable pub remove_unit : Str → Io (UnitManager W) (Unit {0})
  remove_unit name = do
    u ←
        wrap (Error.wrapf "Error opening unit %s for removal: %v" (name ∷ []))
          (on_world (open_unit os codecs root_dir name))
    wrap
        (Error.wrapf "Error removing unit %s : directory: %s  um.RootDir: %s, thrown: %v"
          (name ∷ u.directory ∷ root_dir ∷ []))
        (on_world (destroy os u))

  -- The command line of the helper.
  helper_args : Str → Str → Str → Str → Str → RestartPolicy → List Str → List Str
  unfolding lit policy_text
  helper_args podname hostname unitname workingdir netns policy unitcmd =
      lit "--exec"
      ∷ processes.quote unitcmd
      ∷ lit "--restartpolicy"
      ∷ policy_text policy
      ∷ lit "--podname"
      ∷ podname
      ∷ lit "--hostname"
      ∷ hostname
      ∷ lit "--unit"
      ∷ unitname
      ∷ lit "--rootdir"
      ∷ root_dir
      ∷ lit "--workingdir"
      ∷ workingdir
      ∷ lit "--netns"
      ∷ netns
      ∷ []

  started : OpenedUnit → Str → Error ⊎ ℕ → Io (UnitManager W) (Unit {0})
  unfolding set_running
  started u unitname (inr pid) = set_running unitname pid
  started u unitname (inl e) = do on_world (remove_pipes os u.log_pipe); raise e

  -- The first result of `util.IsEmptyDir`.
  unfoldable pub is_empty_dir : Str → W → Bool
  unfolding is_exist
  is_empty_dir path w = elim (os.open_file path w) [
    | some e ↦ not (is_exist e)
    | none ↦ processes.has_no_entries path w
  ]

  -- `cmd.Start()`
  unfoldable pub start_process :
      Str
      → Str
      → Str
      → Str
      → Str
      → List Str
      → List Str
      → List Str
      → RestartPolicy
      → OpenedUnit
      → Io W (Error ⊎ ℕ)
  unfolding helper_args get_working_dir create_command get_rootfs str_beq is_empty_dir
  start_process podname hostname unitname workingdir netns command args env policy u w =
      let dir = if workingdir == [] then get_working_dir u.unit else workingdir in
      let r =
        processes.start
          (record {
            args =
                helper_args podname hostname unitname dir netns policy
                  (create_command u.unit command args);
            env = env;
            new_namespaces = not (is_empty_dir (get_rootfs u) w);
          })
          w in
      (ok r.0, r.1)

  unfoldable pub start_opened :
      Str
      → Str
      → Str
      → Str
      → Str
      → List Str
      → List Str
      → List Str
      → RestartPolicy
      → OpenedUnit
      → Io (UnitManager W) (Unit {0})
  unfolding or_panic started
  start_opened podname hostname unitname workingdir netns command args appenv policy u = do
    env ← or_panic (merge_env (get_env u.unit) appenv)
    capture_logs unitname
    started_pid ←
        on_world
          (start_process podname hostname unitname workingdir netns command args env policy u)
    started u unitname started_pid

  unfoldable pub start_unit :
      Str
      → Str
      → Str
      → Str
      → Str
      → List Str
      → List Str
      → List Str
      → RestartPolicy
      → Io (UnitManager W) (Unit {0})
  start_unit podname hostname unitname workingdir netns command args appenv policy =
      on_world (open_unit os codecs root_dir unitname)
      >>= start_opened podname hostname unitname workingdir netns command args appenv policy

  -- What the goroutine of a process does when the process has ended, whichever process of that name
  -- is in the table by then.
  unfoldable pub unit_exited : OpenedUnit → Io (UnitManager W) (Unit {0})
  unit_exited u = do delete_running u.unit.name; on_world (remove_pipes os u.log_pipe)
