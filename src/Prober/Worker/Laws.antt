-- ===== src/Prober/Worker/Laws.antt =====
-- The verdicts of a worker against the history of what its probes returned.
use itzo.Base.{
  ℕ, ◌+◌, ◌≤◌, Bool, true, false, not, Option, List, [], ◌∷◌, if◌then◌else◌, is_some, length,
  length-append, Error, ltz, pos, ◌≡◌, refl, sym, ap, subst, Bool-cases, inl, inr, ◌∙◌, arith,
}
use itzo.Api.{Probe}
use itzo.Prober.Probe.{Result, undetermined, succeeded, failed, ProbeType}
use itzo.Prober.Worker.{
  Worker, same, count_result, below_threshold, do_probe, emit, send, work_round, new_worker,
}

-- What a round of the worker gets: the seconds since the start, and what `probe` returns.
pub record Round : Type 0 where
  pub elapsed : ℕ
  pub probed : Result × Option Error

-- The rounds of a worker, the first one first.
abbrev pub work_rounds : List Round → Worker → Worker
work_rounds [] w = w
work_rounds (r ∷ rs) w = work_rounds rs (work_round r.elapsed r.probed w)

-- Whether a round's result counts: it is behind the initial delay, and the probe could be made.
abbrev pub counts : Probe → Round → Bool
counts p r = if ltz (pos r.elapsed) p.initial_delay_seconds then false else not (is_some r.probed.1)

-- The results that count, the last one first, in front of `seen`.
abbrev pub observed : Probe → List Round → List Result → List Result
observed p [] seen = seen
observed p (r ∷ rs) seen = observed p rs (if counts p r then r.probed.0 ∷ seen else seen)

-- How many members at the front are `r`.
unfoldable pub streak : Result → List Result → ℕ
streak r [] = 0
streak r (s ∷ seen) = let n = streak r seen in if same s r then n + 1 else 0

-- A streak of `n` is long enough for the verdict `r`.
abbrev pub is_enough : Probe → Result → ℕ → Bool
is_enough p failed n = not (ltz (pos n) p.failure_threshold)
is_enough p succeeded n = not (ltz (pos n) p.success_threshold)
is_enough p undetermined n = true

-- A last result and a run that stand for the results seen.
abbrev pub Counted : Result → ℕ → List Result → Type 0
Counted last run [] = run ≡ 0
Counted last run (s ∷ seen) = (last ≡ s) × (run ≡ streak s (s ∷ seen))

-- The worker's counters stand for the results seen.
pub record Tracks (w : Worker) (p : Probe) (seen : List Result) : Type 0 where
  pub for_spec : w.spec ≡ p
  pub counted : Counted w.last_result w.result_run seen
  pub room : length w.results ≤ 2

same_refl : (r : Result) → same r r ≡ true
unfolding same
same_refl undetermined = refl
same_refl succeeded = refl
same_refl failed = refl

-- The counters when `r` is seen after `seen`.
count_result-Counted :
    (r : Result) (w : Worker) (seen : List Result)
    → Counted w.last_result w.result_run seen
    → ((count_result r w).last_result ≡ r) × ((count_result r w).result_run ≡ streak r (r ∷ seen))
unfolding count_result same streak
count_result-Counted r w [] h = ground arith
count_result-Counted r w (s ∷ seen) h = ground arith

count_result-spec :
    (r : Result) (w : Worker)
    → ((count_result r w).spec ≡ w.spec) × ((count_result r w).results ≡ w.results)
unfolding count_result
count_result-spec r w = ground arith

send-keeps :
    (v : Bool × Result) (w : Worker)
    → length w.results ≤ 2
    → ((send v w).spec ≡ w.spec)
      × ((send v w).last_result ≡ w.last_result)
      × ((send v w).result_run ≡ w.result_run)
      × (length (send v w).results ≤ 2)
unfolding send emit
send-keeps v w h = ground (arith, length-append w.results (v.1 ∷ []))

do_probe-state :
    (r : Round) (w : Worker)
    → (do_probe r.elapsed r.probed w).1 ≡ (if counts w.spec r then count_result r.probed.0 w else w)
unfolding do_probe
do_probe-state r w = ground arith

do_probe-state_of :
    (r : Round) (w : Worker) (p : Probe)
    → w.spec ≡ p
    → (do_probe r.elapsed r.probed w).1 ≡ (if counts p r then count_result r.probed.0 w else w)
do_probe-state_of r w p h =
    subst
      (λ q.
        (do_probe r.elapsed r.probed w).1 ≡ (if counts q r then count_result r.probed.0 w else w))
      h (do_probe-state r w)

counted-Tracks :
    (r : Result) (w : Worker) (p : Probe) (seen : List Result)
    → Tracks w p seen
    → Tracks (count_result r w) p (r ∷ seen)
counted-Tracks r w p seen h =
    let c = count_result-Counted r w seen h.counted in
    let k = count_result-spec r w in
    record {
      for_spec = k.0 ∙ h.for_spec;
      counted = c;
      room = subst (λ l. length l ≤ 2) (sym k.1) h.room;
    }

do_probe-Tracks :
    (r : Round) (w : Worker) (p : Probe) (seen : List Result)
    → Tracks w p seen
    → Tracks (do_probe r.elapsed r.probed w).1 p (if counts p r then r.probed.0 ∷ seen else seen)
do_probe-Tracks r w p seen h =
    rw (do_probe-state_of r w p h.for_spec) (elim (Bool-cases (counts p r)) [
      | inl e ↦ rw e (counted-Tracks r.probed.0 w p seen h)
      | inr e ↦ rw e h
    ])

send-Tracks :
    (v : Bool × Result) (w : Worker) (p : Probe) (seen : List Result)
    → Tracks w p seen
    → Tracks (send v w) p seen
send-Tracks v w p seen h =
    let k = send-keeps v w h.room in
    record { for_spec = k.0 ∙ h.for_spec; counted = rw (k.1, k.2) h.counted; room = k.3 }

pub work_rounds-Tracks :
    (rounds : List Round) (w : Worker) (p : Probe) (seen : List Result)
    → Tracks w p seen
    → Tracks (work_rounds rounds w) p (observed p rounds seen)
unfolding work_round
work_rounds-Tracks [] w p seen h = h
work_rounds-Tracks (r ∷ rs) w p seen h =
    work_rounds-Tracks rs _ p _ (send-Tracks _ _ p _ (do_probe-Tracks r w p seen h))

new_worker-Tracks : (t : ProbeType) (p : Probe) → Tracks (new_worker t p) p []
unfolding new_worker
new_worker-Tracks t p = record { for_spec = refl; counted = refl; room = omega arith }

do_probe-counts :
    (r : Round) (w : Worker)
    → counts w.spec r ≡ true
    → (do_probe r.elapsed r.probed w).0
      ≡ (not (below_threshold r.probed.0 (count_result r.probed.0 w)), r.probed.0)
unfolding do_probe
do_probe-counts r w h = ground arith

below_threshold-streak :
    (r : Result) (w : Worker) → not (below_threshold r w) ≡ is_enough w.spec r w.result_run
unfolding below_threshold same
below_threshold-streak undetermined w = refl
below_threshold-streak succeeded w = refl
below_threshold-streak failed w = ground arith

-- After any rounds of a new worker, a round whose probe counts gives the verdict that the probe
-- returned exactly when the results that counted so far, with this one, end in a streak of it as
-- long as the threshold of that result. An errored probe or one inside the initial delay neither
-- counts nor breaks a streak.
pub do_probe-eq-streak :
    (t : ProbeType) (p : Probe) (rounds : List Round) (r : Round)
    → counts p r ≡ true
    → (do_probe r.elapsed r.probed (work_rounds rounds (new_worker t p))).0
      ≡ (is_enough p r.probed.0 (streak r.probed.0 (r.probed.0 ∷ observed p rounds [])), r.probed.0)
do_probe-eq-streak t p rounds r h =
    do_probe-counts r w (rw k.for_spec h)
    ∙ ap (λ b. (b, r.probed.0))
        (below_threshold-streak r.probed.0 (count_result r.probed.0 w)
          ∙ rw
              (
                (count_result-spec r.probed.0 w).0,
                k.for_spec,
                (count_result-Counted r.probed.0 w _ k.counted).1,
              )
              refl)
  where
    w : Worker
    w = work_rounds rounds (new_worker t p)

    k : Tracks w p (observed p rounds [])
    k = work_rounds-Tracks rounds _ p [] (new_worker-Tracks t p)
