-- ===== src/Retry/Examples.antt =====
-- retry/retry.go: a function that fails twice, with whole-number floats and no jitter.
use gopkg.Common.{ℕ, suc, ◌≡◌, refl, arith, [], ◌∷◌, Option, none, some, pos, pos_part, ◌*ℤ◌}
use gopkg.Common.Float.{integral}
use gopkg.Retry.{Failure, transient, World, Policy, clamp, do_retry, gave_up}
use gopkg.Retry.Bounds.{Outcome, do_retry_outcome}

abbrev fails_twice : ℕ → Option Failure
fails_twice (suc (suc (suc n))) = none
fails_twice n = some (transient "busy")

abbrev world : World integral
world = record { fn = fails_twice; ctx_err = λ n. none; ctx_done = λ n. none; random = λ n. pos 0 }

abbrev policy : ℕ → Policy integral
policy n = record {
  max_attempts = pos n;
  initial_delay = pos 100;
  max_delay = pos 150;
  multiplier = pos 2;
  jitter_fraction = pos 0;
}

third_time :
    do_retry integral world (policy 5)
    ≡ record { attempts = 3; sleeps = pos 100 ∷ pos 150 ∷ []; outcome = none }
unfolding do_retry ◌*ℤ◌
third_time = refl

too_few :
    do_retry integral world (policy 0)
    ≡ record { attempts = 1; sleeps = []; outcome = some (gave_up 1 (transient "busy")) }
unfolding do_retry
too_few = refl

do_retry_outcome_example :
    Outcome integral world
      (pos 150)
      (pos_part (clamp integral (policy 5)).max_attempts)
      (do_retry integral world (policy 5))
do_retry_outcome_example = do_retry_outcome integral world (policy 5) (omega arith)
