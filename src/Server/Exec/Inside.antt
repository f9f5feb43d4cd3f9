-- ===== src/Server/Exec/Inside.antt =====
-- The command that enters the namespaces of a unit.
use itzo.Base.{
  ℕ, ◌≡◌, ◌≢◌, refl, sym, ap, arith, Bool-cases, ◌&&◌, ◌==◌, nat_eq, Option, none, some, List, [],
  ◌∷◌, ◌++◌, lit, pos, int_text, Str, Error, ◌⊎◌, inl, inr,
}
use itzo.Controller.Runtime.{RuntimeService}
use itzo.Controller.State.{PodController}
use itzo.RunUnit.Identity.{get_user}
use itzo.UnitDir.{OpenedUnit, get_rootfs}
use itzo.Utils.Passwd.{PasswdUserLookup, new_passwd_user_lookup, passwd_users}
use itzo.UnitRun.{ensure_default_environ}
use itzo.Server.Exec.{
  user_spec, ExecParams, Tools, Command, nsenter_cmd, with_environ, with_pid, with_user,
  with_lookup, command_in,
}

-- The options of nsenter for a user: none for root, and else its numbers.
abbrev pub AsUser : ℕ → ℕ → List Str → Type 0
AsUser uid gid options =
    ((uid ≡ 0) × (gid ≡ 0) × (options ≡ []))
    ⊎ (((uid ≢ 0) ⊎ (gid ≢ 0))
        × (options ≡ lit "-S" ∷ int_text (pos uid) ∷ lit "-G" ∷ int_text (pos gid) ∷ []))

user_spec-AsUser : (uid gid : ℕ) → AsUser uid gid (user_spec uid gid)
unfolding user_spec
user_spec-AsUser uid gid = elim (Bool-cases (uid == 0 && gid == 0)) [
  | inl h ↦ inl (ground (arith, h), ground (arith, h), rw h refl)
  | inr h ↦ elim (Bool-cases (uid == 0)) [
    | inl k ↦ inr (inr (λ z. ground (arith, h, k, z)), rw h refl)
    | inr k ↦ inr (inl (λ z. ground (arith, h, k, z)), rw h refl)
  ]
]

AsUser-eq :
    (uid gid : ℕ) (options : List Str) → AsUser uid gid options → user_spec uid gid ≡ options
unfolding user_spec
AsUser-eq uid gid options (inl (u, g, same)) = rw (u, g) (sym same)
AsUser-eq uid gid options (inr (other, same)) = elim (Bool-cases (uid == 0 && gid == 0)) [
  | inl h ↦ absurd (elim other [ inl n ↦ n (ground (arith, h)) | inr n ↦ n (ground (arith, h)) ])
  | inr h ↦ rw h (sym same)
]

-- What is found of a unit for a command inside of it: its users, its own user, its process and that
-- process's environment; and the command that enters the namespaces of the process, as that user,
-- with the environment that `EnsureDefaultEnviron` makes of the process's.
pub record Inside {R : Type 0} (rt : RuntimeService R) (tools : Tools) (pc : PodController R)
    (unit_name : Str) (params : ExecParams) (opened : OpenedUnit) (c : Command) : Type 0 where
  pub lookup : PasswdUserLookup
  pub uid : ℕ
  pub gid : ℕ
  pub groups : Option (List ℕ)
  pub home : Str
  pub pid : ℕ
  pub environ : List Str
  pub users :
      new_passwd_user_lookup tools.parse_passwd_file tools.parse_group_file (get_rootfs opened)
      ≡ inr lookup
  pub user :
      get_user tools.atoi (passwd_users tools.parse_int lookup) opened.unit
      ≡ inr (uid, gid, groups, home)
  pub running : rt.get_pid pc.runtime unit_name ≡ some pid
  pub process : tools.environ pid ≡ inr environ
  pub options : List Str
  pub as_user : AsUser uid gid options
  pub made :
      record {
        args =
            (lit "/usr/bin/nsenter"
              ∷ lit "-t"
              ∷ int_text (pos pid)
              ∷ lit "-p"
              ∷ lit "-u"
              ∷ lit "-m"
              ∷ lit "-n"
              ∷ options)
            ++ params.command;
        env = ensure_default_environ environ params.pod_name home;
      }
      ≡ c

module _ {R : Type 0} (rt : RuntimeService R) (tools : Tools) (pc : PodController R)
    (unit_name : Str) (params : ExecParams) (u : OpenedUnit) (c : Command) where
  environ-Inside :
      (l : PasswdUserLookup) (uid gid : ℕ) (groups : Option (List ℕ)) (home : Str) (pid : ℕ)
      (r : Error ⊎ List Str)
      → new_passwd_user_lookup tools.parse_passwd_file tools.parse_group_file (get_rootfs u) ≡ inr l
      → get_user tools.atoi (passwd_users tools.parse_int l) u.unit ≡ inr (uid, gid, groups, home)
      → rt.get_pid pc.runtime unit_name ≡ some pid
      → tools.environ pid ≡ r
      → with_environ rt tools pc unit_name params pid (uid, gid, groups, home) r ≡ inr c
      → Inside rt tools pc unit_name params u c
  unfolding with_environ nsenter_cmd
  environ-Inside l uid gid groups home pid (inl e) h₁ h₂ h₃ h₄ h = cc
  environ-Inside l uid gid groups home pid (inr environ) h₁ h₂ h₃ h₄ h = record {
    lookup = l;
    uid = uid;
    gid = gid;
    groups = groups;
    home = home;
    pid = pid;
    environ = environ;
    users = h₁;
    user = h₂;
    running = h₃;
    process = h₄;
    options = user_spec uid gid;
    as_user = user_spec-AsUser uid gid;
    made = cc;
  }

  pid-Inside :
      (l : PasswdUserLookup) (uid gid : ℕ) (groups : Option (List ℕ)) (home : Str) (r : Option ℕ)
      → new_passwd_user_lookup tools.parse_passwd_file tools.parse_group_file (get_rootfs u) ≡ inr l
      → get_user tools.atoi (passwd_users tools.parse_int l) u.unit ≡ inr (uid, gid, groups, home)
      → rt.get_pid pc.runtime unit_name ≡ r
      → with_pid rt tools pc unit_name params (uid, gid, groups, home) r ≡ inr c
      → Inside rt tools pc unit_name params u c
  unfolding with_pid
  pid-Inside l uid gid groups home none h₁ h₂ h₃ h = cc
  pid-Inside l uid gid groups home (some pid) h₁ h₂ h₃ h =
      environ-Inside l uid gid groups home pid (tools.environ pid) h₁ h₂ h₃ refl h

  user-Inside :
      (l : PasswdUserLookup) (r : Error ⊎ (ℕ × ℕ × Option (List ℕ) × Str))
      → new_passwd_user_lookup tools.parse_passwd_file tools.parse_group_file (get_rootfs u) ≡ inr l
      → get_user tools.atoi (passwd_users tools.parse_int l) u.unit ≡ r
      → with_user rt tools pc unit_name params r ≡ inr c
      → Inside rt tools pc unit_name params u c
  unfolding with_user
  user-Inside l (inl e) h₁ h₂ h = cc
  user-Inside l (inr (uid, gid, groups, home)) h₁ h₂ h =
      pid-Inside l uid gid groups home _ h₁ h₂ refl h

  lookup-Inside :
      (r : Error ⊎ PasswdUserLookup)
      → new_passwd_user_lookup tools.parse_passwd_file tools.parse_group_file (get_rootfs u) ≡ r
      → with_lookup rt tools pc unit_name params u r ≡ inr c
      → Inside rt tools pc unit_name params u c
  unfolding with_lookup
  lookup-Inside (inl e) h₁ h = cc
  lookup-Inside (inr l) h₁ h = user-Inside l _ h₁ refl h

  pub command_in-Inside :
      command_in rt tools pc unit_name params u ≡ inr c → Inside rt tools pc unit_name params u c
  unfolding command_in
  command_in-Inside h = lookup-Inside _ refl h

  pub Inside-command_in :
      Inside rt tools pc unit_name params u c → command_in rt tools pc unit_name params u ≡ inr c
  unfolding command_in with_lookup with_user with_pid with_environ nsenter_cmd
  Inside-command_in i =
      rw (i.users, i.user, i.running, i.process, AsUser-eq i.uid i.gid i.options i.as_user)
        (ap inr i.made)
