-- ===== src/CircuitBreaker/Examples.antt =====
-- The breaker at concrete inputs, with float64 taken as whole numbers.
use gopkg.Common.{ℕ, ◌≡◌, refl, List, [], ◌∷◌, none, some, arith, String, ℤ, pos, ◌*ℤ◌}
use gopkg.Common.Float.{integral}
use gopkg.Common.Text.{codes, has_prefix, contains}
use gopkg.CircuitBreaker.{
  open_state, half_open, Config, Breaker, Call, allows, fails, new, step, run, grow, counts,
  default_config,
}
use gopkg.CircuitBreaker.Settings.{listed}
use gopkg.CircuitBreaker.Classify.{default_classify, classify_lowered}
use gopkg.CircuitBreaker.Invariant.{Inv, run-Inv, IsSound}
use gopkg.CircuitBreaker.Execute.{execute, Attempt, attempts, half_open_stuck, refusals}

abbrev config : Config ℤ
unfolding default_config
config = default_config integral

abbrev fresh : Breaker ℤ
unfolding new config
fresh = new integral "api" config 0

-- Five timeouts, a minute's wait, a probe that fails.
abbrev outage : List Call
outage =
    fails 1 "timeout"
    ∷ fails 2 "timeout"
    ∷ fails 3 "timeout"
    ∷ fails 4 "timeout"
    ∷ fails 5 "timeout"
    ∷ allows 60_000_000_000
    ∷ fails 60_000_000_001 "server_error"
    ∷ []

outage_opens : (run integral fresh outage).state ≡ open_state
unfolding run step fresh counts listed
outage_opens = refl

outage_doubles : (run integral fresh outage).current_open_timeout ≡ pos 60_000_000_000
unfolding run step fresh counts listed grow ◌*ℤ◌
outage_doubles = refl

config-IsSound : IsSound config
unfolding config
config-IsSound = omega arith

run-Inv_example : Inv integral (run integral (new integral "api" config 0) outage)
run-Inv_example = run-Inv integral "api" config 0 outage config-IsSound

abbrev timeouts : List (ℕ × String)
timeouts = (1, "timeout") ∷ (2, "timeout") ∷ (3, "dns_error") ∷ (4, "timeout") ∷ (5, "odd") ∷ []

-- The same breaker, open since time 5.
abbrev opened : Breaker ℤ
opened = record fresh { state = open_state; last_state_change = 5; failures = 5 }

-- Errors are texts here, and lower case as they are.
abbrev text : String → List ℕ
text = codes

abbrev same : ℕ → ℕ
same n = n

abbrev attempt_late : Attempt integral text same
attempt_late = record {
  classify = none;
  outcome = some "timeout";
  during = λ b. b;
  start = 90_000_000_000;
  end = 90_000_000_001;
}

half_open_stuck_example :
    let b' =
      (execute integral text same none none (λ x. x) 40_000_000_000 41_000_000_000 opened).0 in
    (b'.state ≡ half_open)
    × (attempts integral text same (attempt_late ∷ []) b'
        ≡ (b', refusals integral text same (attempt_late ∷ [])))
unfolding fresh config
half_open_stuck_example =
    half_open_stuck integral text same none 40_000_000_000 41_000_000_000 opened (attempt_late ∷ [])
      refl (omega arith) (omega arith) (omega arith)

abbrev probing : Breaker ℤ
probing = record opened { state = half_open; half_open_requests = 1; consecutive_opens = 3 }

classify_timeout : default_classify same (some (text "dial: i/o timeout")) ≡ "timeout"
unfolding default_classify classify_lowered has_prefix contains
classify_timeout = refl
