-- ===== src/UnitManager/Tests.antt =====
-- A unit manager on a small system, and its theorems there.
use itzo.Base.{◌≡◌, refl, true, false, none, some, [], ◌∷◌, lit, Error, inr, lookup, str_beq}
use itzo.Api.{always}
use itzo.Io.{ok}
use itzo.UnitDir.{open_unit}
use itzo.UnitDir.Samples.{empty_disk, codecs, name, earlier}
use itzo.UnitManager.{
  UnitManager, Processes, start_unit, stop_unit, unit_exited, unit_running, get_pid, merge_env,
  start_opened, capture_logs, start_process, kill_running,
}
use itzo.UnitManager.Laws.{unit_exited-start_unit}

abbrev one_process : Processes (Unit {0})
one_process = record {
  start = λ c w. (inr 7, w);
  kill = λ pid w. (some (Error.foreign 3), w);
  quote = λ args. [];
  has_no_entries = λ path w. false;
}

abbrev manager : UnitManager (Unit {0})
manager = record { world = tt; running_units = (name, 5) ∷ []; log_buf = [] }

start_ok :
    (start_unit empty_disk codecs one_process (lit "/") [] [] name [] [] [] [] [] always manager).0
    ≡ ok tt
unfolding start_unit merge_env open_unit start_opened capture_logs start_process
start_ok = refl

unit_exited-start_unit_example :
    (let after =
        (start_unit empty_disk codecs one_process
          (lit "/")
          []
          []
          name
          []
          []
          []
          []
          []
          always
          manager).1 in
      (unit_running name after ≡ true)
      × (get_pid name (unit_exited empty_disk codecs one_process (lit "/") earlier after).1 ≡ none)
      × (unit_running name (unit_exited empty_disk codecs one_process (lit "/") earlier after).1
          ≡ false))
unit_exited-start_unit_example =
    unit_exited-start_unit empty_disk codecs one_process (lit "/") [] [] [] [] [] [] [] always
      earlier manager start_ok

stop_ok : (stop_unit empty_disk codecs one_process (lit "/") name manager).0 ≡ ok tt
unfolding stop_unit lookup str_beq lit kill_running open_unit
stop_ok = refl
