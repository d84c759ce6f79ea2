-- ===== src/CircuitBreaker/Invariant.antt =====
-- What holds of a breaker between two calls.
use gopkg.Common.{ℕ, ◌≤◌, ◌<◌, ◌≡◌, ◌⊎◌, List, [], ◌∷◌, String, arith}
use gopkg.Common.Float.{Float64}
use gopkg.CircuitBreaker.{
  closed, open_state, half_open, Config, Breaker, Call, allows, succeeds, fails, resets, new, step,
  run,
}

-- A config as its comment asks for, in uint32 range.
pub record IsSound {F : Type 0} (c : Config F) : Type 0 where
  pub trips : 0 < c.failure_threshold
  pub closes : 0 < c.success_threshold
  pub trips_fit : c.failure_threshold < 4294967296
  pub closes_fit : c.success_threshold < 4294967296
  pub probes_fit : c.half_open_max_requests < 4294967296

module _ (fl : Float64) where
  open fl use {Carrier}

  pub record Inv (b : Breaker Carrier) : Type 0 where
    pub closed_budget : b.state ≡ closed → b.failures < b.config.failure_threshold
    pub closed_fresh :
        b.state ≡ closed
        → (b.successes ≡ 0)
          × (b.half_open_requests ≡ 0)
          × (b.consecutive_opens ≡ 0)
          × (b.current_open_timeout ≡ b.config.open_timeout)
    pub open_idle : b.state ≡ open_state → b.half_open_requests ≡ 0
    pub probing : b.state ≡ half_open → b.successes < b.config.success_threshold
    pub admitted : b.state ≡ half_open → 0 < b.half_open_requests
    pub admitted_capped :
        b.state ≡ half_open
        → (b.half_open_requests ≤ 1) ⊎ (b.half_open_requests ≤ b.config.half_open_max_requests)

  pub new-Inv : (name : String) (c : Config Carrier) (now : ℕ) → IsSound c → Inv (new fl name c now)
  unfolding new
  new-Inv name c now s = ground arith

  pub step-Inv : (b : Breaker Carrier) (c : Call) → IsSound b.config → Inv b → Inv (step fl b c)
  unfolding step
  step-Inv b (allows now) s v = ground arith
  step-Inv b (succeeds now) s v = ground arith
  step-Inv b (fails now bucket) s v = ground arith
  step-Inv b (resets now) s v = ground arith

  pub config-step : (b : Breaker Carrier) (c : Call) → (step fl b c).config ≡ b.config
  unfolding step
  config-step b (allows now) = ground arith
  config-step b (succeeds now) = ground arith
  config-step b (fails now bucket) = ground arith
  config-step b (resets now) = ground arith

  pub run_from-Inv :
      (b : Breaker Carrier) (cs : List Call) → IsSound b.config → Inv b → Inv (run fl b cs)
  unfolding run
  run_from-Inv b [] s v = v
  run_from-Inv b (c ∷ cs) s v =
      run_from-Inv (step fl b c) cs (rw (config-step b c) s) (step-Inv b c s v)

  -- With a sound config, whatever calls are made on a new breaker, in whatever order and at whatever
  -- times: while closed its failures are below the threshold, its successes, probes and consecutive
  -- opens are zero and its open timeout is the configured one; while open no probe is counted; while half open its successes are below the threshold,
  -- at least one probe was admitted, and no more than the cap (or one, if the cap is less).
  pub run-Inv :
      (name : String) (c : Config Carrier) (now : ℕ) (cs : List Call)
      → IsSound c
      → Inv (run fl (new fl name c now) cs)
  unfolding new
  run-Inv name c now cs s = run_from-Inv (new fl name c now) cs s (new-Inv name c now s)
