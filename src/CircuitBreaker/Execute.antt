-- ===== src/CircuitBreaker/Execute.antt =====
-- circuitbreaker/circuitbreaker.go, `Execute`: admission, the protected call, and the report.
use gopkg.Common.{
  is_none, if◌then◌else◌, ◌⊎◌, true, ℕ, Bool, true, false, List, [], ◌∷◌, Option, none, some,
  String, ◌≡◌, refl, arith, ℕ, ◌<◌, ◌≤◌, ◌≤ℤ◌,
}
use mathlib.Core.Option
use gopkg.Common.Float.{Float64}
use gopkg.CircuitBreaker.{
  Breaker, Error, circuit_open, allow, record_success, record_failure, open_state, half_open, since,
  transition_to,
}
use gopkg.CircuitBreaker.Classify.{default_classify}

-- What `Execute` returns: the breaker's refusal, or the error of the protected call.
pub data ExecuteError (E : Type 0) : Type 0 where
  refused : Error → ExecuteError E
  failed : E → ExecuteError E

-- `Execute` below. `outcome` is what the protected call returns if it is made, `message` its `Error()`,
-- `lower` the table of unicode.ToLower, and `during` what other goroutines do to the breaker while
-- the call runs, between `start` and `end`. The last component says whether the call was made.
module _ (fl : Float64) {E : Type 0} (message : E → List ℕ) (lower : ℕ → ℕ) where
  open fl use {Carrier}

  pub bucket_of : Option (E → String) → E → String
  bucket_of none e = default_classify lower (some (message e))
  bucket_of (some classify) e = classify e

  abbrev finish :
      Option (E → String)
      → Option E
      → ℕ
      → Breaker Carrier
      → Breaker Carrier × Option (ExecuteError E) × Bool
  finish classify none end b = (record_success fl end b, none, true)
  finish classify (some e) end b =
      (record_failure fl end (bucket_of classify e) b, some (failed e), true)

  abbrev proceed :
      Option (E → String)
      → Option E
      → (Breaker Carrier → Breaker Carrier)
      → ℕ
      → Breaker Carrier × Option Error
      → Breaker Carrier × Option (ExecuteError E) × Bool
  proceed classify outcome during end (b, some err) = (b, some (refused err), false)
  proceed classify outcome during end (b, none) = finish classify outcome end (during b)

  pub execute :
      Option (E → String)
      → Option E
      → (Breaker Carrier → Breaker Carrier)
      → ℕ
      → ℕ
      → Breaker Carrier
      → Breaker Carrier × Option (ExecuteError E) × Bool
  execute classify outcome during start end b =
      proceed classify outcome during end (allow fl start b)

  -- One call of `Execute`.
  pub record Attempt : Type 0 where
    pub classify : Option (E → String)
    pub outcome : Option E
    pub during : Breaker Carrier → Breaker Carrier
    pub start : ℕ
    pub end : ℕ

  pub attempt : Attempt → Breaker Carrier → Breaker Carrier × Option (ExecuteError E) × Bool
  unfolding execute
  attempt a b = execute a.classify a.outcome a.during a.start a.end b

  -- Calls of `Execute` one after the other, with what each returned.
  pub attempts :
      List Attempt → Breaker Carrier → Breaker Carrier × List (Option (ExecuteError E) × Bool)
  attempts [] b = (b, [])
  attempts (a ∷ as') b =
      let (b', r, called) = attempt a b in
      let (b'', rs) = attempts as' b' in (b'', (r, called) ∷ rs)

  -- The protected call is made exactly when the breaker admits it. `Execute` then returns its error
  -- unchanged; otherwise it returns the refusal and the breaker is as it was.
  pub execute_cases :
      (a : Attempt) (b : Breaker Carrier)
      → let (b', r, called) = attempt a b in
        (called ≡ is_none (allow fl a.start b).1)
        × (r ≡ (if called then Option.map failed a.outcome else some (refused circuit_open)))
        × ((called ≡ true) ⊎ (b' ≡ b))
  unfolding attempt allow
  execute_cases a b = ground arith

  -- A half-open breaker that has admitted its quota.
  abbrev pub Spent : Breaker Carrier → Type 0
  Spent b = (b.state ≡ half_open) × (b.config.half_open_max_requests ≤ b.half_open_requests)

  attempt-Spent :
      (a : Attempt) (b : Breaker Carrier)
      → Spent b
      → attempt a b ≡ (b, some (refused circuit_open), false)
  unfolding attempt allow
  attempt-Spent a b h = ground arith

  pub refusals : List Attempt → List (Option (ExecuteError E) × Bool)
  refusals [] = []
  refusals (a ∷ as') = (some (refused circuit_open), false) ∷ refusals as'

  attempts-Spent :
      (as' : List Attempt) (b : Breaker Carrier) → Spent b → attempts as' b ≡ (b, refusals as')
  unfolding attempts refusals
  attempts-Spent [] b h = refl
  attempts-Spent (a ∷ as') b h = rw (attempt-Spent a b h, attempts-Spent as' b h)

  probe-Spent :
      (classify : Option (E → String)) (start end : ℕ) (b : Breaker Carrier)
      → b.state ≡ open_state
      → b.current_open_timeout ≤ℤ since start b.last_state_change
      → b.config.half_open_max_requests ≤ 1
      → 1 < b.config.success_threshold
      → Spent (execute classify none (λ x. x) start end b).0
  unfolding execute allow record_success transition_to
  probe-Spent classify start end b s t m k = ground arith

  -- A breaker whose cap on half-open requests is at most one, and which wants more than one success to
  -- close, is stuck half open after one successful probe: when the open timeout is over, an
  -- undisturbed `Execute` whose call succeeds leaves it half open, and from then on every `Execute`, at any
  -- time and with any outcome, is refused without a call and changes nothing.
  pub half_open_stuck :
      (classify : Option (E → String)) (start end : ℕ) (b : Breaker Carrier) (as' : List Attempt)
      → b.state ≡ open_state
      → b.current_open_timeout ≤ℤ since start b.last_state_change
      → b.config.half_open_max_requests ≤ 1
      → 1 < b.config.success_threshold
      → let b' = (execute classify none (λ x. x) start end b).0 in
        (b'.state ≡ half_open) × (attempts as' b' ≡ (b', refusals as'))
  half_open_stuck classify start end b as' s t m k =
      let h = probe-Spent classify start end b s t m k in (h.0, attempts-Spent as' _ h)
