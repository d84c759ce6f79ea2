-- ===== src/CircuitBreaker/Classify.antt =====
-- circuitbreaker/circuitbreaker.go, `DefaultClassify`: buckets by substrings of the error message.
-- A message is its list of code points, and `lower` is the table behind strings.ToLower.
use gopkg.Common.{ℕ, Bool, ◌||◌, List, map, String, if◌then◌else◌, Option, none, some}
use gopkg.Common.Text.{codes, contains}

abbrev has : List ℕ → String → Bool
has s word = contains s (codes word)

unfoldable pub classify_lowered : List ℕ → String
classify_lowered s =
    if has s "timeout"
    then "timeout"
    else if has s "connection refused"
    then "connection_refused"
    else if has s "connection reset"
    then "connection_reset"
    else if has s "no such host"
    then "dns_error"
    else if has s "rate limit"
    then "rate_limited"
    else if has s "503" || has s "502"
    then "service_unavailable"
    else if has s "500"
    then "server_error"
    else if has s "401" || has s "unauthorized"
    then "auth_error"
    else if has s "403" || has s "forbidden"
    then "forbidden"
    else if has s "400" || has s "validation"
    then "validation_error"
    else if has s "404" || has s "not found"
    then "not_found"
    else "unknown"

-- `none` is the nil error.
unfoldable pub default_classify : (ℕ → ℕ) → Option (List ℕ) → String
default_classify lower none = ""
default_classify lower (some message) = classify_lowered (map lower message)
