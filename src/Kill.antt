-- ===== src/Kill.antt =====
-- pkg/util/kill/kill.go: the tree of a process is killed from its leaves. Killing and the list of
-- the processes are those of the handler, whose system is the state.
mod Laws
mod Tests
use itzo.Base.{
  ℕ, zero, suc, [], ◌∷◌, Bool, false, if◌then◌else◌, List, Str, Error, ◌⊎◌, inl, inr, Option, none,
  some, ℤ, pos, negsuc, int_beq,
}

pub record Process : Type 0 where
  pub pid : ℤ
  pub ppid : ℤ
  pub executable : Str

-- `ProcessHandler`.
pub record ProcessHandler (W : Type 0) : Type 0 where
  pub list_processes : W → (Error ⊎ List Process) × W
  pub kill_process : ℤ → W → Option Error × W

-- What a call leaves: its error, if any, and the system.
abbrev pub Outcome : Type 0 → Type 0
Outcome W = Option Error × W

unfoldable pub copy_except : List Process → ℕ → List Process
copy_except [] except = []
copy_except (prc ∷ processes) zero = processes
copy_except (prc ∷ processes) (suc except) = prc ∷ copy_except processes except

-- `append` is `multierror.Append`: an error is added to the earlier ones.
unfoldable pub append_to :
    (Option Error → Error → Error) → Option Error → Option Error → Option Error
append_to append result none = result
append_to append result (some e) = some (append result e)

unfoldable pub and_then :
    {W : Type 0} → Option (Outcome W) → (Outcome W → Option (Outcome W)) → Option (Outcome W)
and_then none f = none
and_then (some o) f = f o

module _ {W : Type 0} (append : Option Error → Error → Error) where
  -- The loop over the processes: `kill` is the recursive call, `i` the index of the first of them.
  unfoldable pub kill_children :
      (ℤ → List Process → Option Error → W → Option (Outcome W))
      → ℤ
      → List Process
      → ℕ
      → List Process
      → Option Error
      → W
      → Option (Outcome W)
  unfolding int_beq copy_except append_to and_then
  kill_children kill ppid processes i [] result w = some (result, w)
  kill_children kill ppid processes i (proc ∷ rest) result w =
      let next = kill_children kill ppid processes (suc i) rest in
      if int_beq proc.ppid ppid
      then and_then (kill proc.pid (copy_except processes i) result w)
          (λ o. next (append_to append result o.0) o.1)
      else next result w

  -- The process itself, after its children.
  unfoldable pub kill_self : ProcessHandler W → ℤ → Outcome W → Option (Outcome W)
  unfolding append_to
  kill_self handler ppid o =
      let killed = handler.kill_process ppid o.1 in some (append_to append o.0 killed.0, killed.1)

  -- `killProcessTree` of at most `fuel` nested calls; `none` when they are not enough.
  unfoldable pub kill_tree :
      ProcessHandler W → ℕ → ℤ → List Process → Option Error → W → Option (Outcome W)
  unfolding kill_children kill_self and_then
  kill_tree handler zero ppid processes result w = none
  kill_tree handler (suc fuel) ppid processes result w =
      let kill = kill_tree handler fuel in
      and_then (kill_children kill ppid processes 0 processes result w) (kill_self handler ppid)

  unfoldable pub kill_listed :
      ProcessHandler W → ℕ → ℤ → (Error ⊎ List Process) × W → Option (Outcome W)
  unfolding kill_tree
  kill_listed handler fuel ppid listed = elim listed.0 [
    | inl e ↦ some (some e, listed.1)
    | inr processes ↦ kill_tree handler fuel ppid processes none listed.1
  ]

  -- `KillProcessTree`.
  unfoldable pub kill_process_tree : ProcessHandler W → ℕ → ℤ → W → Option (Outcome W)
  unfolding kill_listed
  kill_process_tree handler fuel ppid w = kill_listed handler fuel ppid (handler.list_processes w)
