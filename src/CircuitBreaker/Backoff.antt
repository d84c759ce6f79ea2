-- ===== src/CircuitBreaker/Backoff.antt =====
-- The open timeout: where it starts, how it grows, and its cap.
use gopkg.Common.{ℕ, ◌+◌, ◌≡◌, refl, ◌⊎◌, inl, inr, true, List, [], ◌∷◌, arith, pos, ◌≤ℤ◌, String}
use gopkg.Common.Float.{Float64}
use gopkg.CircuitBreaker.{
  closed, open_state, half_open, Config, Breaker, Call, allows, succeeds, fails, resets, new, step,
  run, grow, counts, record_failure, u32, reset,
}

module _ (fl : Float64) where
  open fl use {Carrier}

  -- There is no cap, or the timeout is the base, or it is within the cap.
  abbrev pub Capped : Breaker Carrier → Type 0
  Capped b =
      (b.config.max_open_timeout ≤ℤ pos 0)
      ⊎ ((b.current_open_timeout ≡ b.config.open_timeout)
          ⊎ (b.current_open_timeout ≤ℤ b.config.max_open_timeout))

  step-Capped : (b : Breaker Carrier) (c : Call) → Capped b → Capped (step fl b c)
  unfolding step grow
  step-Capped b (allows now) h = ground arith
  step-Capped b (succeeds now) h = ground arith
  step-Capped b (fails now bucket) h = ground arith
  step-Capped b (resets now) h = ground arith

  run_from-Capped : (b : Breaker Carrier) (cs : List Call) → Capped b → Capped (run fl b cs)
  unfolding run
  run_from-Capped b [] h = h
  run_from-Capped b (c ∷ cs) h = run_from-Capped (step fl b c) cs (step-Capped b c h)

  -- Whatever the calls and whatever float64 multiplication returns: if the config sets a cap, the open
  -- timeout of a breaker is never above it, unless it is the configured base.
  pub run-Capped :
      (name : String) (c : Config Carrier) (now : ℕ) (cs : List Call)
      → Capped (run fl (new fl name c now) cs)
  unfolding new
  run-Capped name c now cs = run_from-Capped (new fl name c now) cs (inr (inl refl))

  -- A counted failure of a half-open breaker opens it anew: the wait starts now, the timeout has grown
  -- once more, and the number of consecutive opens with it. A reset from there closes it with the
  -- base timeout and no failure or open counted.
  pub reopen_then_reset :
      (b : Breaker Carrier) (now later : ℕ) (bucket : String)
      → b.state ≡ half_open
      → counts b.config bucket ≡ true
      → let b' = record_failure fl now bucket b in
        let r = reset fl later b' in
        ((b'.state ≡ open_state)
          × (b'.last_state_change ≡ now)
          × (b'.current_open_timeout ≡ grow fl b.config b.current_open_timeout)
          × (b'.consecutive_opens ≡ u32 (b.consecutive_opens + 1)))
        × ((r.state ≡ closed)
            × (r.current_open_timeout ≡ b.config.open_timeout)
            × (r.failures ≡ 0)
            × (r.consecutive_opens ≡ 0))
  unfolding record_failure reset
  reopen_then_reset b now later bucket h k = ground arith
