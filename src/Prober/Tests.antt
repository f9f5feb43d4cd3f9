-- ===== src/Prober/Tests.antt =====
-- The prober and its worker on concrete probes, and their theorems at such inputs.
use itzo.Base.{ℕ, ◌≡◌, refl, true, Option, none, some, List, [], ◌∷◌, Error, pos}
use itzo.Api.{Probe}
use itzo.Prober.Probe.{ProbeReply, failure, unknown, success, Result, failed, readiness}
use itzo.Prober.Worker.{same, new_worker, do_probe}
use itzo.Prober.Worker.Laws.{Round, work_rounds, streak, observed, is_enough, do_probe-eq-streak}

abbrev broken : ProbeReply
broken = record { result = unknown; output = []; err = some (Error.foreign 1) }

abbrev fails : ProbeReply
fails = record { result = failure; output = []; err = none }

abbrev passes : ProbeReply
passes = record { result = success; output = []; err = none }

abbrev three_failures : Probe
three_failures = record {
  exec = none;
  http_get = none;
  tcp_socket = none;
  initial_delay_seconds = pos 5;
  timeout_seconds = pos 1;
  period_seconds = pos 10;
  success_threshold = pos 1;
  failure_threshold = pos 3;
}

abbrev round : ℕ → Result → Option Error → Round
round elapsed result err = record { elapsed = elapsed; probed = (result, err) }

-- The round at 2 seconds is inside the delay, and the one at 30 has no result.
abbrev rounds : List Round
rounds =
    round 2 failed none
    ∷ round 10 failed none
    ∷ round 20 failed none
    ∷ round 30 failed (some (Error.foreign 1))
    ∷ []

rounds-observed : observed three_failures rounds [] ≡ failed ∷ failed ∷ []
rounds-observed = refl

do_probe-eq-streak_example :
    (do_probe 40 (failed, none) (work_rounds rounds (new_worker readiness three_failures))).0 ≡ (
      is_enough three_failures failed (streak failed (failed ∷ observed three_failures rounds [])),
      failed,
    )
do_probe-eq-streak_example =
    do_probe-eq-streak readiness three_failures rounds (round 40 failed none) refl

third_failure_counts :
    is_enough three_failures failed (streak failed (failed ∷ observed three_failures rounds []))
    ≡ true
unfolding streak same
third_failure_counts = refl
