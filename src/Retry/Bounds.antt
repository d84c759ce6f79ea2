-- ===== src/Retry/Bounds.antt =====
-- retry/retry.go: the number of attempts, the length of the sleeps, and what the result says.
use gopkg.Common.{
  ℕ, zero, suc, ◌+◌, ◌-◌, ◌≤◌, ◌<◌, ◌≡◌, refl, subst, arith, List, [], ◌∷◌, ◌++◌, Option, none,
  some, Option-cases, inl, inr, ◌⊎◌, ℤ, pos, pos_part, ◌≤ℤ◌, ◌<ℤ◌, String, All,
}
use gopkg.Common.Float.{Float64}
use gopkg.Retry.{
  Failure, transient, permanent, Attempt, refused, succeeded, stopped, failed, judge, Error,
  context_error, permanent_error, gave_up, World, Policy, Run, clamp, cap_delay, sleep_for,
  next_delay, try_once, attempts_from, do_retry,
}

Attempt-cases :
    (a : Attempt)
    → ((e : String) × (a ≡ refused e))
      ⊎ (a ≡ succeeded)
      ⊎ ((e : String) × (a ≡ stopped e))
      ⊎ ((f : Failure) × (a ≡ failed f))
Attempt-cases (refused e) = inl (e, refl)
Attempt-cases succeeded = inr (inl refl)
Attempt-cases (stopped e) = inr (inr (inl (e, refl)))
Attempt-cases (failed f) = inr (inr (inr (f, refl)))

module _ (fl : Float64) (w : World fl) where
  -- What the outcome says of the attempts; `last` is the most that there may be.
  pub Explained : ℕ → ℕ → Option Error → Type 0
  Explained last attempts none = w.fn attempts ≡ none
  Explained last attempts (some (permanent_error e)) = w.fn attempts ≡ some (permanent e)
  Explained last attempts (some (gave_up n f)) =
      (n ≡ last) × (attempts ≡ last) × (w.fn last ≡ some f)
  Explained last attempts (some (context_error e)) = attempts ≤ last

  -- The sleeps stay under the limit, if there is one.
  pub Short : ℤ → List ℤ → Type 0
  Short limit sleeps = All (λ d. d ≤ℤ limit) sleeps

  pub record Outcome (limit : ℤ) (last : ℕ) (r : Run fl) : Type 0 where
    pub bounded : r.attempts ≤ last
    pub explained : Explained last r.attempts r.outcome
    pub short : Short limit r.sleeps

  Short-snoc :
      (limit : ℤ) (ds : List ℤ) (d : ℤ) → Short limit ds → d ≤ℤ limit → Short limit (ds ++ d ∷ [])
  unfolding Short
  Short-snoc limit [] d h k = (k, tt)
  Short-snoc limit (x ∷ ds) d (h, hs) k = (h, Short-snoc limit ds d hs k)

  module _ (p : Policy fl) (limited : pos 0 <ℤ p.max_delay) where
    sleep_short : (attempt : ℕ) (delay : ℤ) → sleep_for fl w p attempt delay ≤ℤ p.max_delay
    unfolding sleep_for cap_delay
    sleep_short attempt delay = ground arith

    -- What an attempt shows of the function.
    Tried : ℕ → Attempt → Type 0
    Tried attempt (refused e) = Unit
    Tried attempt succeeded = w.fn attempt ≡ none
    Tried attempt (stopped e) = w.fn attempt ≡ some (permanent e)
    Tried attempt (failed f) = w.fn attempt ≡ some f

    judged : (attempt : ℕ) (f : Failure) → w.fn attempt ≡ some f → Tried attempt (judge f)
    unfolding judge Tried
    judged attempt (transient e) h = h
    judged attempt (permanent e) h = h

    refused_lem : (attempt : ℕ) (e : String) → Tried attempt (refused e)
    unfolding Tried
    refused_lem attempt e = tt

    succeeded_lem : (attempt : ℕ) → w.fn attempt ≡ none → Tried attempt succeeded
    unfolding Tried
    succeeded_lem attempt k = k

    tried : (attempt : ℕ) (a : Attempt) → try_once fl w p attempt ≡ a → Tried attempt a
    unfolding try_once
    tried attempt a h = elim (Option-cases (w.ctx_err attempt)) [
      | inr (e, c) ↦ subst (λ b. Tried attempt b) (ground arith) (refused_lem attempt e)
      | inl c ↦ elim (Option-cases (w.fn attempt)) [
        | inl k ↦ subst (λ b. Tried attempt b) (ground arith) (succeeded_lem attempt k)
        | inr (f, k) ↦ subst (λ b. Tried attempt b) (ground arith) (judged attempt f k)
      ]
    ]

    attempts_outcome :
        (last left attempt : ℕ) (delay : ℤ) (sleeps : List ℤ)
        → attempt + left ≡ last
        → Short p.max_delay sleeps
        → Outcome p.max_delay last (attempts_from fl w p left attempt delay sleeps)
    unfolding attempts_from Explained Tried
    attempts_outcome last zero attempt delay sleeps h short =
        elim (Attempt-cases (try_once fl w p attempt)) [
          | inl (e, t) ↦
              rw (t, attempts_from)
                (record { bounded = omega arith; explained = omega arith; short = short })
          | inr (inl t) ↦
              rw (t, attempts_from)
                (record {
                  bounded = omega arith;
                  explained = tried attempt succeeded t;
                  short = short;
                })
          | inr (inr (inl (e, t))) ↦
              rw (t, attempts_from)
                (record {
                  bounded = omega arith;
                  explained = tried attempt (stopped e) t;
                  short = short;
                })
          | inr (inr (inr (f, t))) ↦
              rw (t, attempts_from)
                (record {
                  bounded = omega arith;
                  explained = ground (arith, tried attempt (failed f) t);
                  short = short;
                })
        ]
    attempts_outcome last (suc left) attempt delay sleeps h short =
        let slept = sleeps ++ sleep_for fl w p attempt delay ∷ [] in
        let short' =
          Short-snoc p.max_delay sleeps (sleep_for fl w p attempt delay) short
            (sleep_short attempt delay) in
        elim (Attempt-cases (try_once fl w p attempt)) [
          | inl (e, t) ↦
              rw (t, attempts_from)
                (record { bounded = omega arith; explained = omega arith; short = short })
          | inr (inl t) ↦
              rw (t, attempts_from)
                (record {
                  bounded = omega arith;
                  explained = tried attempt succeeded t;
                  short = short;
                })
          | inr (inr (inl (e, t))) ↦
              rw (t, attempts_from)
                (record {
                  bounded = omega arith;
                  explained = tried attempt (stopped e) t;
                  short = short;
                })
          | inr (inr (inr (f, t))) ↦ elim (Option-cases (w.ctx_done attempt)) [
            | inr (e, c) ↦
                rw (t, attempts_from, c)
                  (record { bounded = omega arith; explained = omega arith; short = short' })
            | inl c ↦
                rw (t, attempts_from, c)
                  (attempts_outcome last left (suc attempt) (next_delay fl w p delay) slept
                    (omega arith) short')
          ]
        ]

  clamped :
      (p : Policy fl)
      → ((clamp fl p).max_delay ≡ p.max_delay) × (0 < pos_part (clamp fl p).max_attempts)
  unfolding clamp
  clamped p = ground arith

  -- With a positive MaxDelay, Do makes at most MaxAttempts attempts, one where that is below 1, and
  -- sleeps no longer than MaxDelay each time. When it returns nil, the last attempt succeeded; when it
  -- returns a permanent error, that is the last attempt's; and when it gives up, all attempts were made
  -- and the last one failed with the error that it reports.
  pub do_retry_outcome :
      (policy : Policy fl)
      → pos 0 <ℤ policy.max_delay
      → Outcome policy.max_delay (pos_part (clamp fl policy).max_attempts) (do_retry fl w policy)
  unfolding do_retry Short
  do_retry_outcome policy limited =
      let p = clamp fl policy in
      let (same, some_attempts) = clamped policy in
      subst (λ d. Outcome d (pos_part p.max_attempts) (do_retry fl w policy)) same
        (attempts_outcome p (rw same limited) (pos_part p.max_attempts)
          (pos_part p.max_attempts - 1) 1 p.initial_delay [] (omega arith) tt)
