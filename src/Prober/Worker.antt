-- ===== src/Prober/Worker.antt =====
-- pkg/prober/worker.go: the worker that probes a unit again and again.
pub mod Laws
use itzo.Base.{
  ℕ, suc, ◌+◌, Bool, true, false, ◌&&◌, ◌||◌, Option, none, some, List, [], ◌∷◌, ◌++◌,
  if◌then◌else◌, is_some, length, ltb, nat_eq, ◌==◌, Eq, Error, ℤ, pos, negsuc, ltz, ◌≡◌, refl, ◌↔◌,
  arith,
}
use itzo.Api.{Probe}
use itzo.Prober.Probe.{
  Result, undetermined, succeeded, failed, ProbeType, liveness, readiness, startup,
}

unfoldable pub same : Result → Result → Bool
same undetermined undetermined = true
same succeeded succeeded = true
same failed failed = true
same a b = false

-- `results` is the channel that the worker sends on, with its room for 2.
pub record Worker : Type 0 where
  pub spec : Probe
  pub probe_type : ProbeType
  pub initial_value : Result
  pub last_result : Result
  pub result_run : ℕ
  pub results : List Result

initial_value_of : ProbeType → Result
initial_value_of readiness = failed
initial_value_of liveness = succeeded
initial_value_of startup = undetermined

-- The last result starts as the zero value, `succeeded`, with a run of 0.
unfoldable pub new_worker : ProbeType → Probe → Worker
unfolding initial_value_of
new_worker probe_type spec = record {
  spec = spec;
  probe_type = probe_type;
  initial_value = initial_value_of probe_type;
  last_result = succeeded;
  result_run = 0;
  results = [];
}

-- The run of equal results gets longer, or starts anew.
pub count_result : Result → Worker → Worker
unfolding same
count_result result w =
    if same w.last_result result
    then record w { result_run = w.result_run + 1 }
    else record w { last_result = result; result_run = 1 }

-- The test that holds a result back.
pub below_threshold : Result → Worker → Bool
unfolding same
below_threshold result w =
    (same result failed && ltz (pos w.result_run) w.spec.failure_threshold)
    || (same result succeeded && ltz (pos w.result_run) w.spec.success_threshold)

-- `doProbe` with the whole seconds since the start and what `probe` returns: whether there is a
-- result, and the result.
unfoldable pub do_probe : ℕ → Result × Option Error → Worker → (Bool × Result) × Worker
unfolding count_result below_threshold
do_probe elapsed probed w =
    if ltz (pos elapsed) w.spec.initial_delay_seconds
    then ((true, w.initial_value), w)
    else if is_some probed.1
    then ((false, probed.0), w)
    else (let w' = count_result probed.0 w in
        if below_threshold probed.0 w' then ((false, probed.0), w') else ((true, probed.0), w'))

abbrev pub results_room : ℕ
results_room = 2

-- A result that finds the channel full is dropped.
unfoldable pub emit : Result → Worker → Worker
emit result w =
    if ltb (length w.results) results_room
    then record w { results = w.results ++ result ∷ [] }
    else w

pub send : Bool × Result → Worker → Worker
unfolding emit
send (has_result, result) w = if has_result then emit result w else w

-- A round of `run`.
unfoldable pub work_round : ℕ → Result × Option Error → Worker → Worker
unfolding send do_probe
work_round elapsed probed w = let r = do_probe elapsed probed w in send r.0 r.1
