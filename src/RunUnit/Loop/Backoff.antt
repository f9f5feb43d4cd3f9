-- ===== src/RunUnit/Loop/Backoff.antt =====
-- How the pauses of `maybeBackOff` grow.
use itzo.Base.{
  ℕ, suc, ◌*◌, ◌^◌, ◌≤◌, ◌<◌, ◌≡◌, refl, Bool, true, min, arith, List, [], ◌∷◌, length, All,
}
use itzo.RunUnit.Loop.{second, max_backoff_time, backoff_reset_time, maybe_back_off}

-- The backoff after failures that ran for the given times, the last one first.
abbrev pub backoff_after : List ℕ → ℕ
backoff_after [] = second
backoff_after (t ∷ times) = maybe_back_off true (backoff_after times) t

abbrev pub IsEarly : ℕ → Type 0
IsEarly t = t < backoff_reset_time

doubled :
    (n p t : ℕ)
    → t < backoff_reset_time
    → p ≡ n * 2
    → maybe_back_off true (min n 300 * second) t ≡ min p 300 * second
unfolding maybe_back_off
doubled n p t h e = ground arith

-- After failures in a row that each ran for less than ten minutes, the pause doubles with each of
-- them from one second on, up to five minutes.
backoff_after-eq-min :
    (times : List ℕ) → All IsEarly times → backoff_after times ≡ min (2 ^ length times) 300 * second
backoff_after-eq-min [] h = refl
backoff_after-eq-min (t ∷ times) h =
    rw (backoff_after-eq-min times h.1)
      (doubled (2 ^ length times) (2 ^ suc (length times)) t h.0 (omega arith))

-- A pause is from one second to five minutes long.
pub maybe_back_off-bounds :
    (has_err : Bool) (backoff running_time : ℕ)
    → second ≤ backoff
    → (second ≤ maybe_back_off has_err backoff running_time)
      × (maybe_back_off has_err backoff running_time ≤ max_backoff_time)
unfolding maybe_back_off
maybe_back_off-bounds has_err backoff running_time h = ground arith
