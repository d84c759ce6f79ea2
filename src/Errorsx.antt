-- ===== src/Errorsx.antt =====
-- errorsx/errorsx.go. An error is its chain of Unwrap: a typed error of this package, or any other that
-- may wrap one. A nil error is `none`.
pub mod Kinds
mod Examples
use gopkg.Common.{ℕ, Bool, true, false, ◌||◌, List, [], ◌∷◌, ◌++◌, Option, none, some, String, ◌==◌}
use gopkg.Common.Text.{codes}

pub data Kind : Type 0 where
  unknown not_found invalid_argument conflict unauthenticated permission_denied : Kind
  failed_precondition resource_exhausted unavailable deadline_exceeded : Kind

-- The constants' values, by iota.
unfoldable pub kind_code : Kind → ℕ
kind_code unknown = 0
kind_code not_found = 1
kind_code invalid_argument = 2
kind_code conflict = 3
kind_code unauthenticated = 4
kind_code permission_denied = 5
kind_code failed_precondition = 6
kind_code resource_exhausted = 7
kind_code unavailable = 8
kind_code deadline_exceeded = 9

pub data GoError : Type 0 where
  typed : Kind → List ℕ → GoError
  typed_wrap : Kind → List ℕ → GoError → GoError
  other : List ℕ → GoError
  other_wrap : List ℕ → GoError → GoError

pub new : Kind → List ℕ → GoError
new kind msg = typed kind msg

unfoldable pub wrap : Kind → Option GoError → List ℕ → Option GoError
wrap kind none msg = none
wrap kind (some err) msg = some (typed_wrap kind msg err)

-- errors.As into an *Error, by its kind.
unfoldable pub as_kind : GoError → Option Kind
as_kind (typed kind msg) = some kind
as_kind (typed_wrap kind msg err) = some kind
as_kind (other msg) = none
as_kind (other_wrap msg err) = as_kind err

unfoldable pub kind_of : Option GoError → Kind
unfolding as_kind
kind_of none = unknown
kind_of (some err) = elim (as_kind err) [ none ↦ unknown | some kind ↦ kind ]

unfoldable pub error_text : GoError → List ℕ
error_text (typed kind msg) = msg
error_text (typed_wrap kind msg err) = msg ++ (codes ": " ++ error_text err)
error_text (other msg) = msg
error_text (other_wrap msg err) = msg

unfoldable pub same_kind : Kind → Kind → Bool
unfolding kind_code
same_kind a b = kind_code a == kind_code b

-- The method Is, of an error of kind `kind`.
pub is : Kind → GoError → Bool
unfolding as_kind same_kind
is kind target = elim (as_kind target) [ none ↦ false | some k ↦ same_kind kind k ]

-- errors.Is with a target that this package made: the method of each typed error of the chain; the same
-- pointer has the same kind, so it adds nothing.
pub errors_is : GoError → GoError → Bool
unfolding is
errors_is (typed kind msg) target = is kind target
errors_is (typed_wrap kind msg err) target = is kind target || errors_is err target
errors_is (other msg) target = false
errors_is (other_wrap msg err) target = errors_is err target

unfoldable pub status_of : Kind → ℕ
status_of not_found = 404
status_of invalid_argument = 400
status_of conflict = 409
status_of unauthenticated = 401
status_of permission_denied = 403
status_of failed_precondition = 412
status_of resource_exhausted = 429
status_of unavailable = 503
status_of deadline_exceeded = 504
status_of unknown = 500

unfoldable pub http_status : Option GoError → ℕ
unfolding kind_of status_of
http_status err = status_of (kind_of err)
