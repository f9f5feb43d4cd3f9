-- ===== src/UnitDir/Pipes.antt =====
-- The named pipes of a unit's output: pkg/unit/pipe.go.
use itzo.Base.{
  Bool, false, ◌||◌, Option, none, some, List, [], ◌∷◌, if◌then◌else◌, ◌==◌, str_eq, str_beq, Str,
  lit, Error, is_exist, is_not_exist, ◌⊎◌, inl, inr,
}
use itzo.Io.{Io, pure, raise, nil_pointer, attempt, ignore, check, ◌>>=◌, ◌>>◌, for_each}
use itzo.Io.Os.{Os, mkfifo, remove, perform}
use itzo.Io.Paths.{join_path}

-- `LogPipe`; `pipes` are the names of the pipes that are open.
pub record LogPipe : Type 0 where
  pub unitdir : Str
  pub pipes : List Str

unfoldable pub unit_pipes : List Str
unfolding lit
unit_pipes = lit "unit-stdout" ∷ lit "unit-stderr" ∷ []

unfoldable pub member : Str → List Str → Bool
unfolding str_beq
member name [] = false
member name (n ∷ names) = name == n || member name names

module _ {W : Type 0} (os : Os W) where
  -- `checkName`
  unfoldable pub check_name : Str → Io W (Unit {0})
  unfolding member unit_pipes
  check_name name = if member name unit_pipes then pure tt else nil_pointer

  remove_closed : Str → Option Error → Io W (Unit {0})
  unfolding perform is_not_exist
  remove_closed pipepath none = ignore (perform os (remove pipepath))
  remove_closed pipepath (some e) =
      if is_not_exist e then pure tt else ignore (perform os (remove pipepath))

  -- A pipe that is open is closed and removed. Another one is opened and closed, so that its readers
  -- end, and is removed if it exists.
  remove_pipe : LogPipe → Str → Io W (Unit {0})
  unfolding member join_path perform remove_closed
  remove_pipe l name w =
      let pipepath = join_path (l.unitdir ∷ name ∷ []) in
      if member name l.pipes
      then ignore (perform os (remove pipepath)) w
      else remove_closed pipepath (os.open_writer pipepath w) w

  -- `LogPipe.Remove`
  unfoldable pub remove_pipes : LogPipe → Io W (Unit {0})
  unfolding for_each remove_pipe unit_pipes
  remove_pipes l = for_each unit_pipes (remove_pipe l)

  made_pipe : LogPipe → Error ⊎ Unit {0} → Io W (Unit {0})
  unfolding is_exist remove_pipes
  made_pipe l (inr _) = pure tt
  made_pipe l (inl e) = if is_exist e then pure tt else (do remove_pipes l; raise e)

  make_pipe : LogPipe → Str → Io W (Unit {0})
  unfolding perform join_path made_pipe
  make_pipe l name =
      attempt (perform os (mkfifo (join_path (l.unitdir ∷ name ∷ [])) 384)) >>= made_pipe l

  unfoldable pub new_log_pipe : Str → Io W LogPipe
  unfolding for_each make_pipe unit_pipes
  new_log_pipe dir = do
    for_each unit_pipes (make_pipe (record { unitdir = dir; pipes = [] }))
    pure (record { unitdir = dir; pipes = [] })

  -- A pipe that is opened for writing stays open.
  unfoldable pub open_writer : LogPipe → Str → Io W LogPipe
  unfolding check_name join_path
  open_writer l name = do
    check_name name
    λ w. check (os.open_writer (join_path (l.unitdir ∷ name ∷ [])) w) w
    pure (record l { pipes = name ∷ l.pipes })
