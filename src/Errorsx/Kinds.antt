-- ===== src/Errorsx/Kinds.antt =====
-- errorsx/errorsx.go: the kinds of a chain of errors, and the status that a client sees.
use gopkg.Common.{ℕ, ◌≡◌, refl, arith, Bool, false, ◌||◌, List, [], ◌∷◌, some, ◌==◌, if◌then◌else◌}
use gopkg.Errorsx.{
  Kind, unknown, not_found, invalid_argument, conflict, unauthenticated, permission_denied,
  failed_precondition, resource_exhausted, unavailable, deadline_exceeded, GoError, typed,
  typed_wrap, other, other_wrap, wrap, as_kind, kind_of, same_kind, is, errors_is, status_of,
  http_status,
}

-- The kinds of the typed errors of a chain, the outermost first.
unfoldable pub kinds : GoError → List Kind
kinds (typed kind msg) = kind ∷ []
kinds (typed_wrap kind msg err) = kind ∷ kinds err
kinds (other msg) = []
kinds (other_wrap msg err) = kinds err

unfoldable pub first_kind : List Kind → Kind
first_kind [] = unknown
first_kind (k ∷ ks) = k

unfoldable pub has_kind : Kind → List Kind → Bool
unfolding same_kind
has_kind k [] = false
has_kind k (j ∷ js) = same_kind j k || has_kind k js

kind_of-first : (err : GoError) → kind_of (some err) ≡ first_kind (kinds err)
unfolding kind_of as_kind kinds first_kind
kind_of-first (typed kind msg) = refl
kind_of-first (typed_wrap kind msg err) = refl
kind_of-first (other msg) = refl
kind_of-first (other_wrap msg err) = kind_of-first err

is_typed : (kind k : Kind) (msg : List ℕ) → is kind (typed k msg) ≡ same_kind kind k
unfolding is as_kind
is_typed kind k msg = refl

errors_is-has :
    (err : GoError) (k : Kind) (msg : List ℕ) → errors_is err (typed k msg) ≡ has_kind k (kinds err)
unfolding errors_is kinds has_kind
errors_is-has (typed kind m) k msg = ground (arith, is_typed kind k msg)
errors_is-has (typed_wrap kind m err) k msg =
    ground (arith, is_typed kind k msg, errors_is-has err k msg)
errors_is-has (other m) k msg = refl
errors_is-has (other_wrap m err) k msg = errors_is-has err k msg

-- KindOf is the kind of the outermost typed error of a chain, and errors.Is finds the sentinel of
-- every kind that some typed error of the chain has.
pub kinds_agree :
    (err : GoError) (k : Kind) (msg : List ℕ)
    → (kind_of (some err) ≡ first_kind (kinds err))
      × (errors_is err (typed k msg) ≡ has_kind k (kinds err))
kinds_agree err k msg = (kind_of-first err, errors_is-has err k msg)

-- The kind that a status stands for.
unfoldable pub kind_of_status : ℕ → Kind
kind_of_status n =
    if n == 404
    then not_found
    else if n == 400
    then invalid_argument
    else if n == 409
    then conflict
    else if n == 401
    then unauthenticated
    else if n == 403
    then permission_denied
    else if n == 412
    then failed_precondition
    else if n == 429
    then resource_exhausted
    else if n == 503
    then unavailable
    else if n == 504
    then deadline_exceeded
    else unknown

status_back : (k : Kind) → kind_of_status (status_of k) ≡ k
unfolding kind_of_status status_of
status_back unknown = refl
status_back not_found = refl
status_back invalid_argument = refl
status_back conflict = refl
status_back unauthenticated = refl
status_back permission_denied = refl
status_back failed_precondition = refl
status_back resource_exhausted = refl
status_back unavailable = refl
status_back deadline_exceeded = refl

-- The status tells the kind: an error wrapped under a kind has the status of that kind, from which the
-- kind can be read back, so no two kinds share one.
pub kind_of_status-http_status :
    (kind : Kind) (err : GoError) (msg : List ℕ)
    → kind_of_status (http_status (wrap kind (some err) msg)) ≡ kind
unfolding http_status wrap kind_of as_kind
kind_of_status-http_status kind err msg = status_back kind
