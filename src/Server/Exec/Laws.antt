-- ===== src/Server/Exec/Laws.antt =====
-- What a command inside of a unit is run as.
use itzo.Base.{
  ◌≡◌, ◌↔◌, refl, sym, ap, ◌∙◌, ◌<◌, length, arith, subst, Bool, true, false, nat_eq, List, [], ◌∷◌,
  Str, Error, ◌⊎◌, inl, inr,
}
use itzo.Io.{Io, Result, ok, err, panic, of_sum, wrap, wrapped, ◌>>=◌}
use itzo.Io.Os.{Os}
use itzo.Io.Laws.{bind-ok}
use itzo.Controller.Runtime.{RuntimeService}
use itzo.Controller.State.{PodController}
use itzo.Controller.Status.{get_unit_name}
use itzo.UnitDir.{OpenedUnit, Codecs, open_unit}
use itzo.Server.Exec.Inside.{Inside, command_in-Inside, Inside-command_in}
use itzo.Server.Exec.{
  ExecParams, Tools, Command, require_command, of_result, in_unit, exec_named, command_in,
  enter_unit, exec_command,
}

module _ {S A : Type 0} where
  wrapped-ok : (f : Error → Error) (r : Result A × S) {a : A} → (wrapped f r).0 ≡ ok a → r.0 ≡ ok a
  wrapped-ok f (ok a, s) h = h
  wrapped-ok f (err e, s) h = cc
  wrapped-ok f (panic, s) h = cc

  wrapped-back :
      (f : Error → Error) (r : Result A × S) {a : A} → r.0 ≡ ok a → (wrapped f r).0 ≡ ok a
  wrapped-back f (ok a, s) h = h
  wrapped-back f (err e, s) h = cc
  wrapped-back f (panic, s) h = cc

  bind-run :
      {B : Type 0} (m : Io S A) (f : A → Io S B) (s : S) {a : A} {b : B}
      → (m s).0 ≡ ok a
      → (f a (m s).1).0 ≡ ok b
      → ((m >>= f) s).0 ≡ ok b
  bind-run m f s h k = rw h k

  of_sum-ok : (r : Error ⊎ A) (s : S) {a : A} → (of_sum r s).0 ≡ ok a → r ≡ inr a
  of_sum-ok (inl e) s h = cc
  of_sum-ok (inr a) s h = cc

require_command-ok :
    {S : Type 0} (command : List Str) (s : S) {u : Unit {0}}
    → (require_command command s).0 ≡ ok u
    → (0 < length command) × ((require_command command s).1 ≡ s)
unfolding require_command
require_command-ok [] s h = cc
require_command-ok (c ∷ command) s h = (omega arith, refl)

module _ {W R : Type 0} (os : Os W) (codecs : Codecs) (rt : RuntimeService R) (tools : Tools)
    (rootdir : Str) (pc : PodController R) (params : ExecParams) where
  -- The command itself; or the command inside of the unit that the name stands for.
  abbrev pub RunsAs : W → Command → Type 0
  RunsAs s c =
      (unit_name : Str) × (get_unit_name pc params.unit_name ≡ ok unit_name)
      × (((params.skip_ns_enter ≡ true) × (c ≡ record { args = params.command; env = [] }))
          ⊎ ((params.skip_ns_enter ≡ false)
              × ((u : OpenedUnit) × ((open_unit os codecs rootdir unit_name s).0 ≡ ok u)
                  × Inside rt tools pc unit_name params u c)))

  in_unit-RunsAs :
      (skip : Bool) (unit_name : Str) (s : W) {c : Command}
      → params.skip_ns_enter ≡ skip
      → get_unit_name pc params.unit_name ≡ ok unit_name
      → (in_unit os codecs rt tools rootdir skip pc params unit_name s).0 ≡ ok c
      → RunsAs s c
  unfolding in_unit enter_unit
  in_unit-RunsAs true unit_name s e n h = (unit_name, n, inl (e, cc))
  in_unit-RunsAs false unit_name s {c} e n h =
      let f = Error.wrapf "Error opening unit %s for exec: %v" (unit_name ∷ []) in
      let (u, opened, same) =
        bind-ok (wrap f (open_unit os codecs rootdir unit_name))
          (λ u. of_sum (command_in rt tools pc unit_name params u)) s h in
      (
        unit_name,
        n,
        inr (
          e,
          (
            u,
            wrapped-ok f (open_unit os codecs rootdir unit_name s) opened,
            command_in-Inside rt tools pc unit_name params u c (
                of_sum-ok (command_in rt tools pc unit_name params u) _
                  (ap (λ r. r.0) (sym same) ∙ h)),
          ),
        ),
      )

  exec_command-only :
      (s : W) {c : Command}
      → (exec_command os codecs rt tools rootdir pc params s).0 ≡ ok c
      → (0 < length params.command) × RunsAs s c
  unfolding exec_command exec_named of_result
  exec_command-only s {c} h =
      let (u, checked, same) =
        bind-ok (require_command params.command)
          (λ _. exec_named os codecs rt tools rootdir pc params) s h in
      let (there, kept) = require_command-ok params.command s checked in
      let run : (exec_named os codecs rt tools rootdir pc params s).0 ≡ ok c =
        subst (λ t. (exec_named os codecs rt tools rootdir pc params t).0 ≡ ok c) kept
          (ap (λ r. r.0) (sym same) ∙ h) in
      let (unit_name, named, entered) =
        bind-ok (of_result (get_unit_name pc params.unit_name))
          (in_unit os codecs rt tools rootdir params.skip_ns_enter pc params) s run in
      (
        there,
        in_unit-RunsAs params.skip_ns_enter unit_name s refl named
            (ap (λ r. r.0) (sym entered) ∙ run),
      )

  require_command-some :
      {S : Type 0} (command : List Str) (s : S)
      → 0 < length command
      → require_command command s ≡ (ok tt, s)
  unfolding require_command
  require_command-some [] s h = absurd (omega arith)
  require_command-some (c ∷ command) s h = refl

  in_unit-run :
      (skip : Bool) (unit_name : Str) (s : W) {c : Command}
      → (((skip ≡ true) × (c ≡ record { args = params.command; env = [] }))
          ⊎ ((skip ≡ false)
              × ((u : OpenedUnit) × ((open_unit os codecs rootdir unit_name s).0 ≡ ok u)
                  × Inside rt tools pc unit_name params u c)))
      → (in_unit os codecs rt tools rootdir skip pc params unit_name s).0 ≡ ok c
  unfolding in_unit enter_unit
  in_unit-run true unit_name s (inl (e, same)) = ap ok (sym same)
  in_unit-run true unit_name s (inr (e, i)) = cc
  in_unit-run false unit_name s (inl (e, same)) = cc
  in_unit-run false unit_name s {c} (inr (e, (u, opened, inside))) =
      let f = Error.wrapf "Error opening unit %s for exec: %v" (unit_name ∷ []) in
      bind-run (wrap f (open_unit os codecs rootdir unit_name))
        (λ u. of_sum (command_in rt tools pc unit_name params u)) s
        (wrapped-back f (open_unit os codecs rootdir unit_name s) opened)
        (ap (λ r. (of_sum r (wrap f (open_unit os codecs rootdir unit_name) s).1).0)
          (Inside-command_in rt tools pc unit_name params u c inside))

  exec_command-runs :
      (s : W) {c : Command}
      → 0 < length params.command
      → RunsAs s c
      → (exec_command os codecs rt tools rootdir pc params s).0 ≡ ok c
  unfolding exec_command exec_named of_result
  exec_command-runs s {c} there (unit_name, named, i) =
      bind-run (require_command params.command)
        (λ _. exec_named os codecs rt tools rootdir pc params) s
        (ap (λ r. r.0) (require_command-some params.command s there))
        (subst (λ t. (exec_named os codecs rt tools rootdir pc params t).0 ≡ ok c)
          (sym (ap (λ r. r.1) (require_command-some params.command s there)))
          (bind-run (of_result (get_unit_name pc params.unit_name))
            (in_unit os codecs rt tools rootdir params.skip_ns_enter pc params) s named
            (in_unit-run params.skip_ns_enter unit_name s i)))

  -- What is run, if anything is: only with a command and a unit that has a name, and then exactly
  -- this. If the namespaces are to be skipped it is the command as it is. Else the unit can be
  -- opened, its users are found and it has a user and a process with an environment; and nsenter
  -- runs the command in the namespaces of that process, with the numbers of the user (and without
  -- that option for root), and with the environment that EnsureDefaultEnviron makes of the process's.
  pub exec_command-RunsAs :
      (s : W) (c : Command)
      → ((exec_command os codecs rt tools rootdir pc params s).0 ≡ ok c)
        ↔ ((0 < length params.command) × RunsAs s c)
  exec_command-RunsAs s c = (exec_command-only s, λ r. exec_command-runs s r.0 r.1)
