-- ===== src/RunUnit/Status.antt =====
-- The status file: `SetStatus`, `UpdateStatusAttr`, `GetStatus`, `SetState` and `SetImage`.
pub mod Laws
use itzo.Base.{
  ℕ, ◌+◌, ◌-◌, ◌^◌, ◌%◌, Bool, true, false, not, Option, none, some, List, [], ◌∷◌, Str, lit, Error,
  ◌⊎◌, inl, inr, ℤ, pos, negsuc, ltz, ltb, if◌then◌else◌, is_some,
}
use itzo.Api.{UnitStatus, UnitState, UnitStateTerminated, make_still_creating_status}
use itzo.RunUnit.State.{Files, StatusFile, missing, unreadable, text, RunnableUnit}

-- `int32(i)`.
abbrev pub to_int32 : ℤ → ℤ
to_int32 (pos n) =
    if ltb (n % 2 ^ 32) (2 ^ 31) then pos (n % 2 ^ 32) else negsuc (2 ^ 32 - 1 - n % 2 ^ 32)
to_int32 (negsuc n) =
    if ltb (n % 2 ^ 32) (2 ^ 31) then negsuc (n % 2 ^ 32) else pos (2 ^ 32 - 1 - n % 2 ^ 32)

or_keep : Bool → Option Bool → Bool
or_keep old none = old
or_keep old (some b) = b

or_keep_pointer : Option Bool → Option Bool → Option Bool
or_keep_pointer old none = old
or_keep_pointer old (some b) = some b

-- The status with the attributes that are not nil.
unfoldable pub with_attr : Option Bool → Option Bool → UnitStatus → UnitStatus
unfolding or_keep or_keep_pointer
with_attr ready started s = record s {
  ready = or_keep s.ready ready;
  started = or_keep_pointer s.started started;
}

-- A negative count of restarts is not recorded.
pub new_count : ℤ → Option ℤ → ℤ
new_count old none = old
new_count old (some n) = if ltz n (pos 0) then old else to_int32 n

pub new_last : UnitState → UnitState → UnitState
new_last old state = if is_some state.terminated then state else old

unfoldable pub with_state : UnitState → Option ℤ → UnitStatus → UnitStatus
unfolding new_count new_last
with_state state restarts s = record s {
  state = state;
  last_termination_state = new_last s.last_termination_state state;
  restart_count = new_count s.restart_count restarts;
}

module _ (fs : Files) (u : RunnableUnit) where
  -- A file that is missing reads as a unit that is still created.
  unfoldable pub get_status : StatusFile → Error ⊎ UnitStatus
  unfolding lit
  get_status missing = inr (make_still_creating_status u.name u.image (lit "PodInitializing"))
  get_status (unreadable e) = inl e
  get_status (text t) = fs.unmarshal t

  unfoldable pub set_status : UnitStatus → StatusFile → Option Error × StatusFile
  set_status status file = elim (fs.marshal status) [
    | inl e ↦ (some e, file)
    | inr t ↦ fs.write_file t file
  ]

  -- Read, change and write.
  unfoldable pub change_status : (UnitStatus → UnitStatus) → StatusFile → Option Error × StatusFile
  change_status f file = elim (get_status file) [
    | inl e ↦ (some e, file)
    | inr s ↦ set_status (f s) file
  ]

  unfoldable pub update_status_attr :
      Option Bool → Option Bool → StatusFile → Option Error × StatusFile
  unfolding change_status with_attr
  update_status_attr ready started = change_status (with_attr ready started)

  unfoldable pub set_state : UnitState → Option ℤ → StatusFile → Option Error × StatusFile
  unfolding change_status with_state
  set_state state restarts = change_status (with_state state restarts)

-- `SetImage` changes the unit before it reads the status, so a read that fails leaves it changed.
unfoldable pub set_image :
    Files → Str → RunnableUnit → StatusFile → (Option Error × StatusFile) × RunnableUnit
unfolding change_status
set_image fs image u file =
    let u' = record u { image = image } in
    (change_status fs u' (λ s. record s { image = image }) file, u')
