-- ===== src/CircuitBreaker/Settings.antt =====
-- circuitbreaker/config.go: the knobs of a breaker, and which failures count.
use gopkg.Common.{
  ℕ, Bool, true, false, not, ◌||◌, List, [], ◌∷◌, String, str_eq, if◌then◌else◌, ℤ, pos,
}
use gopkg.Common.Float.{Float64}

pub record Config (F : Type 0) : Type 0 where
  pub failure_threshold : ℕ
  pub success_threshold : ℕ
  pub open_timeout : ℤ
  pub max_open_timeout : ℤ
  pub backoff_multiplier : F
  pub half_open_max_requests : ℕ
  pub retryable_errors : List String
  pub non_retryable_errors : List String

-- One of the two loops of `IsRetryableError`.
unfoldable pub listed : String → List String → Bool
listed bucket [] = false
listed bucket (e ∷ es) = str_eq e bucket || listed bucket es

unfoldable pub is_retryable_error : {F : Type 0} → Config F → String → Bool
is_retryable_error c bucket =
    if listed bucket c.non_retryable_errors
    then false
    else if listed bucket c.retryable_errors
    then true
    else true

-- Does a failure of this bucket count against the budget?
unfoldable pub counts : {F : Type 0} → Config F → String → Bool
unfolding is_retryable_error
counts c bucket = not (str_eq bucket "" || not (is_retryable_error c bucket))

unfoldable pub default_config : (fl : Float64) → Config fl.Carrier
default_config fl = record {
  failure_threshold = 5;
  success_threshold = 2;
  open_timeout = pos 30_000_000_000;
  max_open_timeout = pos 3_600_000_000_000;
  backoff_multiplier = fl.of_int (pos 2);
  half_open_max_requests = 1;
  retryable_errors =
      "timeout" ∷ "connection_refused" ∷ "connection_reset" ∷ "dns_error" ∷ "rate_limited"
      ∷ "service_unavailable" ∷ "server_error" ∷ [];
  non_retryable_errors = "auth_error" ∷ "forbidden" ∷ "validation_error" ∷ "not_found" ∷ [];
}
