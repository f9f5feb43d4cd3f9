-- ===== src/Server/Exec.antt =====
-- `runExec` of pkg/server/exec.go up to the start of the command: a command inside of a unit enters
-- the namespaces of the unit's process, as the unit's user.
pub mod Inside
pub mod Laws
mod Tests
use itzo.Base.{
  ℕ, Bool, true, false, ◌&&◌, Option, none, some, List, [], ◌∷◌, ◌++◌, if◌then◌else◌, ◌==◌, nat_eq,
  Str, lit, ℤ, pos, int_text, Error, ◌⊎◌, inl, inr,
}
use itzo.Io.{Io, Result, ok, err, panic, pure, raise, of_sum, wrap, ◌>>=◌, ◌>>◌}
use itzo.Io.Os.{Os}
use itzo.Controller.Runtime.{RuntimeService}
use itzo.Controller.State.{PodController}
use itzo.Controller.Status.{get_unit_name}
use itzo.RunUnit.Identity.{get_user}
use itzo.UnitDir.{Codecs, OpenedUnit, open_unit, get_rootfs}
use itzo.UnitRun.{ensure_default_environ}
use itzo.Utils.Passwd.{Entry, GroupEntry, PasswdUserLookup, new_passwd_user_lookup, passwd_users}

pub record ExecParams : Type 0 where
  pub pod_name : Str
  pub unit_name : Str
  pub command : List Str
  pub skip_ns_enter : Bool

-- Package strconv, the parser of password files in libcontainer, and what package procfs finds as
-- the environment of a process.
pub record Tools : Type 0 where
  pub atoi : Str → Error ⊎ ℤ
  pub parse_int : Str → Error ⊎ ℤ
  pub parse_passwd_file : Str → Error ⊎ List Entry
  pub parse_group_file : Str → Error ⊎ List GroupEntry
  pub environ : ℕ → Error ⊎ List Str

-- A command with its environment.
pub record Command : Type 0 where
  pub args : List Str
  pub env : List Str

user_spec : ℕ → ℕ → List Str
unfolding lit int_text
user_spec uid gid =
    if uid == 0 && gid == 0
    then []
    else lit "-S" ∷ int_text (pos uid) ∷ lit "-G" ∷ int_text (pos gid) ∷ []

unfoldable pub nsenter_cmd : ℕ → ℕ → ℕ → List Str
unfolding user_spec lit int_text
nsenter_cmd pid uid gid =
    (lit "/usr/bin/nsenter"
      ∷ lit "-t"
      ∷ int_text (pos pid)
      ∷ lit "-p"
      ∷ lit "-u"
      ∷ lit "-m"
      ∷ lit "-n"
      ∷ [])
    ++ user_spec uid gid

module _ {S : Type 0} where
  require_command : List Str → Io S (Unit {0})
  require_command [] = raise (Error.errorf "No command specified" [])
  require_command (c ∷ command) = pure tt

  of_result : {A : Type 0} → Result A → Io S A
  of_result r s = (r, s)

module _ {R : Type 0} (rt : RuntimeService R) (tools : Tools) (pc : PodController R)
    (unit_name : Str) (params : ExecParams) where
  -- The steps after the unit was opened: the table of its users, its user, its process, the
  -- environment of that, and the command.
  with_environ : ℕ → ℕ × ℕ × Option (List ℕ) × Str → Error ⊎ List Str → Error ⊎ Command
  unfolding nsenter_cmd ensure_default_environ int_text
  with_environ pid user (inl e) = inl (
      Error.errorf "Could not find process %d for unit named %s\n"
        (int_text (pos pid) ∷ unit_name ∷ []))
  with_environ pid (uid, gid, groups, home) (inr environ) = inr (record {
    args = nsenter_cmd pid uid gid ++ params.command;
    env = ensure_default_environ environ params.pod_name home;
  })

  with_pid : ℕ × ℕ × Option (List ℕ) × Str → Option ℕ → Error ⊎ Command
  unfolding with_environ
  with_pid user none =
      inl (Error.errorf "Could not find running process for unit named %s\n" (unit_name ∷ []))
  with_pid user (some pid) = with_environ pid user (tools.environ pid)

  with_user : Error ⊎ (ℕ × ℕ × Option (List ℕ) × Str) → Error ⊎ Command
  unfolding with_pid
  with_user (inl e) = inl (Error.wrapf "Error getting unit %s user for exec: %v" (unit_name ∷ []) e)
  with_user (inr user) = with_pid user (rt.get_pid pc.runtime unit_name)

  with_lookup : OpenedUnit → Error ⊎ PasswdUserLookup → Error ⊎ Command
  unfolding with_user get_user
  with_lookup u (inl e) =
      inl (Error.wrapf "Error creating user lookup in %s for exec: %v" (unit_name ∷ []) e)
  with_lookup u (inr l) = with_user (get_user tools.atoi (passwd_users tools.parse_int l) u.unit)

  unfoldable pub command_in : OpenedUnit → Error ⊎ Command
  unfolding with_lookup new_passwd_user_lookup get_rootfs
  command_in u =
      with_lookup u
        (new_passwd_user_lookup tools.parse_passwd_file tools.parse_group_file (get_rootfs u))

module _ {W R : Type 0} (os : Os W) (codecs : Codecs) (rt : RuntimeService R) (tools : Tools)
    (rootdir : Str) where
  unfoldable pub enter_unit : PodController R → Str → ExecParams → Io W Command
  unfolding command_in
  enter_unit pc unit_name params = do
    u ←
        wrap (Error.wrapf "Error opening unit %s for exec: %v" (unit_name ∷ []))
          (open_unit os codecs rootdir unit_name)
    of_sum (command_in rt tools pc unit_name params u)

  in_unit : Bool → PodController R → ExecParams → Str → Io W Command
  unfolding enter_unit
  in_unit true pc params unit_name = pure (record { args = params.command; env = [] })
  in_unit false pc params unit_name = enter_unit pc unit_name params

  exec_named : PodController R → ExecParams → Io W Command
  unfolding of_result get_unit_name in_unit
  exec_named pc params =
      of_result (get_unit_name pc params.unit_name) >>= in_unit params.skip_ns_enter pc params

  -- Every error is written to the client, with the exit code -1, and nothing is run then.
  unfoldable pub exec_command : PodController R → ExecParams → Io W Command
  unfolding require_command exec_named
  exec_command pc params = do require_command params.command; exec_named pc params
