-- ===== src/Retry.antt =====
-- retry/retry.go. The function that is retried, the context and the random source are parameters: the
-- outcome of the n-th attempt, the context's error before the n-th attempt, its error if it is done
-- while Do sleeps after the n-th, and the n-th random number. float64 is the parameter Float64, and a
-- duration is an int64 of nanoseconds.
pub mod Bounds
mod Examples
use gopkg.Common.{
  ℕ, zero, suc, ◌-◌, Bool, true, false, ◌&&◌, List, [], ◌∷◌, ◌++◌, Option, none, some,
  if◌then◌else◌, ◌==◌, Result, ok, err, ℤ, pos, ltb_ℤ, pos_part, String,
}
use gopkg.Common.Float.{Float64}

-- What Permanent wraps is not retried.
pub data Failure : Type 0 where
  transient : String → Failure
  permanent : String → Failure

pub data Error : Type 0 where
  context_error : String → Error
  permanent_error : String → Error
  gave_up : ℕ → Failure → Error

pub data Attempt : Type 0 where
  refused : String → Attempt
  succeeded : Attempt
  stopped : String → Attempt
  failed : Failure → Attempt

-- errors.Is(lastErr, ErrPermanent)
pub judge : Failure → Attempt
judge (permanent e) = stopped e
judge (transient e) = failed (transient e)

pub record World (fl : Float64) : Type 0 where
  pub fn : ℕ → Option Failure
  pub ctx_err : ℕ → Option String
  pub ctx_done : ℕ → Option String
  pub random : ℕ → fl.Carrier

module _ (fl : Float64) where
  pub record Policy : Type 0 where
    pub max_attempts : ℤ
    pub initial_delay : ℤ
    pub max_delay : ℤ
    pub multiplier : fl.Carrier
    pub jitter_fraction : fl.Carrier

  -- What Do comes to: the attempts that it made, its sleeps in order, and its error.
  pub record Run : Type 0 where
    pub attempts : ℕ
    pub sleeps : List ℤ
    pub outcome : Option Error

  -- The four checks at the head of Do.
  pub clamp : Policy → Policy
  clamp p = record p {
    max_attempts = if ltb_ℤ p.max_attempts (pos 1) then pos 1 else p.max_attempts;
    multiplier = if fl.lt p.multiplier fl.one then fl.one else p.multiplier;
    jitter_fraction =
        if fl.lt fl.one (if fl.lt p.jitter_fraction fl.zero then fl.zero else p.jitter_fraction)
        then fl.one
        else if fl.lt p.jitter_fraction fl.zero
        then fl.zero
        else p.jitter_fraction;
  }

  pub apply_jitter : fl.Carrier → ℤ → fl.Carrier → ℤ
  apply_jitter random d frac =
      if fl.le frac fl.zero
      then d
      else let jitter = fl.mul (fl.sub (fl.mul random (fl.of_int (pos 2))) fl.one) frac in
        let out = fl.to_int (fl.mul (fl.of_int d) (fl.add fl.one jitter)) in
        if ltb_ℤ out (pos 0) then pos 0 else out

  -- `if policy.MaxDelay > 0 && d > policy.MaxDelay { d = policy.MaxDelay }`
  pub cap_delay : Policy → ℤ → ℤ
  cap_delay p d = if ltb_ℤ (pos 0) p.max_delay && ltb_ℤ p.max_delay d then p.max_delay else d

  module _ (w : World fl) (p : Policy) where
    pub sleep_for : ℕ → ℤ → ℤ
    unfolding cap_delay apply_jitter
    sleep_for attempt delay = cap_delay p (apply_jitter (w.random attempt) delay p.jitter_fraction)

    pub next_delay : ℤ → ℤ
    unfolding cap_delay
    next_delay delay = cap_delay p (fl.to_int (fl.mul (fl.of_int delay) p.multiplier))

    -- One attempt: refused by the context, or the function's outcome.
    pub try_once : ℕ → Attempt
    unfolding judge
    try_once attempt = elim (w.ctx_err attempt) [
      | some e ↦ refused e
      | none ↦ elim (w.fn attempt) [ none ↦ succeeded | some f ↦ judge f ]
    ]

    -- The loop, with the attempts that are left after this one.
    pub attempts_from : ℕ → ℕ → ℤ → List ℤ → Run
    unfolding sleep_for next_delay try_once
    attempts_from zero attempt delay sleeps = elim (try_once attempt) [
      | refused e ↦ record {
        attempts = attempt - 1;
        sleeps = sleeps;
        outcome = some (context_error e);
      }
      | succeeded ↦ record { attempts = attempt; sleeps = sleeps; outcome = none }
      | stopped e ↦ record {
        attempts = attempt;
        sleeps = sleeps;
        outcome = some (permanent_error e);
      }
      | failed f ↦ record {
        attempts = attempt;
        sleeps = sleeps;
        outcome = some (gave_up attempt f);
      }
    ]
    attempts_from (suc left) attempt delay sleeps = elim (try_once attempt) [
      | refused e ↦ record {
        attempts = attempt - 1;
        sleeps = sleeps;
        outcome = some (context_error e);
      }
      | succeeded ↦ record { attempts = attempt; sleeps = sleeps; outcome = none }
      | stopped e ↦ record {
        attempts = attempt;
        sleeps = sleeps;
        outcome = some (permanent_error e);
      }
      | failed f ↦
          let slept = sleeps ++ sleep_for attempt delay ∷ [] in
          elim (w.ctx_done attempt) [
            | some e ↦ record {
              attempts = attempt;
              sleeps = slept;
              outcome = some (context_error e);
            }
            | none ↦ attempts_from left (suc attempt) (next_delay delay) slept
          ]
    ]

  pub do_retry : World fl → Policy → Run
  unfolding clamp attempts_from
  do_retry w policy =
      let p = clamp policy in attempts_from w p (pos_part p.max_attempts - 1) 1 p.initial_delay []
