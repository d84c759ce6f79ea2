-- ===== src/CircuitBreaker/Budget.antt =====
-- Which failures count.
use gopkg.Common.{
  ℕ, ◌≡◌, ◌≢◌, refl, ◌⊎◌, ◌↔◌, true, false, List, [], ◌∷◌, some, arith, String, str_eq, eq_iff,
}
use gopkg.CircuitBreaker.{Config, counts}
use gopkg.CircuitBreaker.Settings.{listed}
use gopkg.CircuitBreaker.Classify.{default_classify, classify_lowered}

-- Membership in a list of buckets.
abbrev pub Listed : String → List String → Type 0
Listed bucket [] = ⊥
Listed bucket (e ∷ es) = (e ≡ bucket) ⊎ Listed bucket es

listed_iff : (bucket : String) (es : List String) → (listed bucket es ≡ true) ↔ Listed bucket es
unfolding listed
listed_iff bucket [] = (λ h. cc, λ h. absurd h)
listed_iff bucket (e ∷ es) = ground (arith, eq_iff e bucket, listed_iff bucket es)

-- A failure counts against the budget exactly when its bucket is neither empty nor in the list of
-- non-retryable buckets: the list of retryable buckets has no influence.
pub counts_iff :
    {F : Type 0} (c : Config F) (bucket : String)
    → (counts c bucket ≡ true) ↔ ((bucket ≢ "") × ¬ Listed bucket c.non_retryable_errors)
unfolding counts
counts_iff c bucket = ground (arith, eq_iff bucket "", listed_iff bucket c.non_retryable_errors)

nonempty : (s : String) → str_eq s "" ≡ false → s ≢ ""
nonempty s h = ground (arith, eq_iff s "")

-- The default classifier puts a non-nil error into some bucket, never the empty one that is ignored.
classify_nonempty : (lower : ℕ → ℕ) (message : List ℕ) → default_classify lower (some message) ≢ ""
unfolding default_classify classify_lowered
classify_nonempty lower message = ground (
  arith,
  nonempty "timeout" refl,
  nonempty "connection_refused" refl,
  nonempty "connection_reset" refl,
  nonempty "dns_error" refl,
  nonempty "rate_limited" refl,
  nonempty "service_unavailable" refl,
  nonempty "server_error" refl,
  nonempty "auth_error" refl,
  nonempty "forbidden" refl,
  nonempty "validation_error" refl,
  nonempty "not_found" refl,
  nonempty "unknown" refl,
)

-- With the default classifier every error counts, whatever its message, unless its bucket is in the
-- list of non-retryable ones.
pub default-counts_iff :
    {F : Type 0} (c : Config F) (lower : ℕ → ℕ) (message : List ℕ)
    → let bucket = default_classify lower (some message) in
      (counts c bucket ≡ true) ↔ (¬ Listed bucket c.non_retryable_errors)
default-counts_iff c lower message =
    let bucket = default_classify lower (some message) in
    (
      λ h. ((counts_iff c bucket).0 h).1,
      λ h. (counts_iff c bucket).1 (classify_nonempty lower message, h),
    )
