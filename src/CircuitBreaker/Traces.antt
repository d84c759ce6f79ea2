-- ===== src/CircuitBreaker/Traces.antt =====
-- The breaker over sequences of calls: which transitions there are, when it trips, and when it no
-- longer lets anything through.
use gopkg.Common.{
  inl, inr, ltb, if◌then◌else◌, ◌≤◌, Bool-cases, ℕ, ◌+◌, ◌<◌, ◌≡◌, ◌≢◌, refl, sym, subst, ◌∙◌, true,
  List, [], ◌∷◌, String, arith, length,
}
use gopkg.Common.Float.{Float64}
use gopkg.CircuitBreaker.{
  State, closed, open_state, half_open, Config, Breaker, Call, allows, succeeds, fails, resets,
  step, run, new, record_success, record_failure, counts, set_on_state_change,
}

-- The state diagram, each edge with the call that takes it.
pub data Edge : Call → State → State → Type 0 where
  stay : {c : Call} {s : State} → Edge c s s
  trip : {now : ℕ} {bucket : String} → Edge (fails now bucket) closed open_state
  reopen : {now : ℕ} {bucket : String} → Edge (fails now bucket) half_open open_state
  probe : {now : ℕ} → Edge (allows now) open_state half_open
  recover : {now : ℕ} → Edge (succeeds now) half_open closed
  close : {now : ℕ} {s : State} → Edge (resets now) s closed

ruleset edges = (stay, trip, reopen, probe, recover, close)

-- The callback's log, latest first, tells how the breaker came from closed to the state `s`.
abbrev pub Chain : State → List (State × State) → Type 0
Chain s [] = s ≡ closed
Chain s ((prev, next) ∷ log) = (next ≡ s) × (prev ≢ next) × Chain prev log

-- Reported failures, each with its time, that all count against the budget.
abbrev pub Counted : {F : Type 0} → Config F → List (ℕ × String) → Type 0
Counted c [] = Unit
Counted c ((now, bucket) ∷ fs) = (counts c bucket ≡ true) × Counted c fs

module _ (fl : Float64) where
  open fl use {Carrier}

  -- Every call stays in its state or follows an edge of the diagram: only a failure opens the
  -- circuit, only a request for admission makes it half open, only a success or a reset closes it.
  pub step-Edge : (b : Breaker Carrier) (c : Call) → Edge c b.state (step fl b c).state
  unfolding step
  step-Edge b (allows now) = grind (arith, edges)
  step-Edge b (succeeds now) = grind (arith, edges)
  step-Edge b (fails now bucket) = grind (arith, edges)
  step-Edge b (resets now) = grind (arith, edges)

  pub step-Chain :
      (b : Breaker Carrier) (c : Call)
      → b.on_state_change ≡ true
      → Chain b.state b.notified
      → Chain (step fl b c).state (step fl b c).notified
  unfolding step
  step-Chain b (allows now) on h = ground arith
  step-Chain b (succeeds now) on h = ground arith
  step-Chain b (fails now bucket) on h = ground arith
  step-Chain b (resets now) on h = ground arith

  on_state_change-step :
      (b : Breaker Carrier) (c : Call) → (step fl b c).on_state_change ≡ b.on_state_change
  unfolding step
  on_state_change-step b (allows now) = ground arith
  on_state_change-step b (succeeds now) = ground arith
  on_state_change-step b (fails now bucket) = ground arith
  on_state_change-step b (resets now) = ground arith

  run_from-Chain :
      (b : Breaker Carrier) (cs : List Call)
      → b.on_state_change ≡ true
      → Chain b.state b.notified
      → Chain (run fl b cs).state (run fl b cs).notified
  unfolding run
  run_from-Chain b [] on h = h
  run_from-Chain b (c ∷ cs) on h =
      run_from-Chain (step fl b c) cs (on_state_change-step b c ∙ on) (step-Chain b c on h)

  -- A callback that is set at the start is told of every change of state and of nothing else: after
  -- any calls its log is a chain of changes, each from the state the one before it led to, that
  -- begins at closed and ends at the present state.
  pub run-Chain :
      (name : String) (c : Config Carrier) (now : ℕ) (cs : List Call)
      → let b = run fl (set_on_state_change fl true (new fl name c now)) cs in
        Chain b.state b.notified
  unfolding new set_on_state_change
  run-Chain name c now cs =
      run_from-Chain (set_on_state_change fl true (new fl name c now)) cs refl refl

  -- Failures reported in a row.
  pub fail_all : Breaker Carrier → List (ℕ × String) → Breaker Carrier
  fail_all b [] = b
  fail_all b ((now, bucket) ∷ fs) = fail_all (record_failure fl now bucket b) fs

  fail_one :
      (b : Breaker Carrier) (now : ℕ) (bucket : String)
      → b.config.failure_threshold < 4294967296
      → b.state ≡ closed
      → counts b.config bucket ≡ true
      → b.failures + 1 < b.config.failure_threshold
      → let b' = record_failure fl now bucket b in
        (b'.state ≡ closed) × (b'.failures ≡ b.failures + 1) × (b'.config ≡ b.config)
  unfolding record_failure
  fail_one b now bucket fit c k h = ground arith

  fail_last :
      (b : Breaker Carrier) (now : ℕ) (bucket : String)
      → b.config.failure_threshold < 4294967296
      → b.state ≡ closed
      → counts b.config bucket ≡ true
      → b.failures + 1 ≡ b.config.failure_threshold
      → (record_failure fl now bucket b).state ≡ open_state
  unfolding record_failure
  fail_last b now bucket fit c k h = ground arith

  fail_all-closed :
      (b : Breaker Carrier) (fs : List (ℕ × String))
      → b.config.failure_threshold < 4294967296
      → b.state ≡ closed
      → Counted b.config fs
      → b.failures + length fs < b.config.failure_threshold
      → (fail_all b fs).state ≡ closed
  unfolding fail_all
  fail_all-closed b [] fit s k h = s
  fail_all-closed b ((now, bucket) ∷ fs) fit s k h =
      let (s', n, c) = fail_one b now bucket fit s k.0 (omega arith) in
      fail_all-closed (record_failure fl now bucket b) fs (rw c fit) s'
        (subst (λ d. Counted d fs) (sym c) k.1) (rw (c, n) (omega arith))

  fail_all-open :
      (b : Breaker Carrier) (f : ℕ × String) (fs : List (ℕ × String))
      → b.config.failure_threshold < 4294967296
      → b.state ≡ closed
      → Counted b.config (f ∷ fs)
      → b.failures + length (f ∷ fs) ≡ b.config.failure_threshold
      → (fail_all b (f ∷ fs)).state ≡ open_state
  unfolding fail_all
  fail_all-open b (now, bucket) [] fit s k h = fail_last b now bucket fit s k.0 (omega arith)
  fail_all-open b (now, bucket) (g ∷ fs) fit s k h =
      let (s', n, c) = fail_one b now bucket fit s k.0 (omega arith) in
      fail_all-open (record_failure fl now bucket b) g fs (rw c fit) s'
        (subst (λ d. Counted d (g ∷ fs)) (sym c) k.1) (rw (c, n) (omega arith))

  opens :
      (b : Breaker Carrier) (fs : List (ℕ × String))
      → b.config.failure_threshold < 4294967296
      → b.failures < b.config.failure_threshold
      → b.state ≡ closed
      → Counted b.config fs
      → b.failures + length fs ≡ b.config.failure_threshold
      → (fail_all b fs).state ≡ open_state
  opens b [] fit p s k h = absurd (omega arith)
  opens b (f ∷ fs) fit p s k h = fail_all-open b f fs fit s k h

  forgive :
      (b : Breaker Carrier) (now : ℕ)
      → b.state ≡ closed
      → let b' = record_success fl now b in
        (b'.state ≡ closed) × (b'.failures ≡ 0) × (b'.config ≡ b.config)
  unfolding record_success
  forgive b now s = ground arith

  -- A success in the closed state forgives: of the counted failures that follow it in a row, as many
  -- as the threshold at most, any number below the threshold leaves the circuit closed, and exactly
  -- the threshold opens it.
  pub trips_at_threshold :
      (b : Breaker Carrier) (now : ℕ) (fs : List (ℕ × String))
      → b.state ≡ closed
      → 0 < b.config.failure_threshold
      → b.config.failure_threshold < 4294967296
      → Counted b.config fs
      → length fs ≤ b.config.failure_threshold
      → (fail_all (record_success fl now b) fs).state
        ≡ (if ltb (length fs) b.config.failure_threshold then closed else open_state)
  trips_at_threshold b now fs s p fit k h =
      let (s', n, c) = forgive b now s in
      let b' = record_success fl now b in
      let k' : Counted b'.config fs = subst (λ d. Counted d fs) (sym c) k in
      elim (Bool-cases (ltb (length fs) b.config.failure_threshold)) [
        | inl e ↦ rw e (fail_all-closed b' fs (rw c fit) s' k' (rw (c, n) (ground arith)))
        | inr e ↦ rw e (opens b' fs (rw c fit) (rw (n, c) p) s' k' (rw (c, n) (ground arith)))
      ]
