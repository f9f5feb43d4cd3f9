-- ===== src/Api/Statuses.antt =====
-- The status of a unit: pkg/api/types.go and helper.go.
use itzo.Base.{ℕ, Bool, true, false, Option, none, some, Str, ℤ, pos}

-- `api.Time`, in nanoseconds; 0 is the zero time.
abbrev pub Time : Type 0
Time = ℕ

pub record UnitStateWaiting : Type 0 where
  pub reason : Str
  pub start_failure : Bool

pub record UnitStateRunning : Type 0 where
  pub started_at : Time

pub record UnitStateTerminated : Type 0 where
  pub exit_code : ℤ
  pub finished_at : Time
  pub reason : Str
  pub message : Str
  pub started_at : Time

-- The three pointers are independent, as in the source.
pub record UnitState : Type 0 where
  pub waiting : Option UnitStateWaiting
  pub running : Option UnitStateRunning
  pub terminated : Option UnitStateTerminated

pub record UnitStatus : Type 0 where
  pub name : Str
  pub state : UnitState
  pub last_termination_state : UnitState
  pub restart_count : ℤ
  pub image : Str
  pub ready : Bool
  pub started : Option Bool

abbrev pub no_state : UnitState
no_state = record { waiting = none; running = none; terminated = none }

unfoldable pub make_still_creating_status : Str → Str → Str → UnitStatus
make_still_creating_status name image reason = record {
  name = name;
  state = record no_state { waiting = some (record { reason = reason; start_failure = false }) };
  last_termination_state = no_state;
  restart_count = pos 0;
  image = image;
  ready = false;
  started = none;
}

unfoldable pub make_failed_update_status : Str → Str → Str → UnitStatus
make_failed_update_status name image reason = record {
  name = name;
  state = record no_state { waiting = some (record { reason = reason; start_failure = true }) };
  last_termination_state = no_state;
  restart_count = pos 0;
  image = image;
  ready = false;
  started = none;
}
