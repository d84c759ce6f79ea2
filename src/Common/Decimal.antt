-- ===== src/Common/Decimal.antt =====
-- fmt's %d and strconv.FormatInt with base 10, as code points.
use Prim.Native.Nat.{ℕ, zero, suc, ◌+◌, ◌*◌, ◌/◌, ◌%◌, ◌<◌, ◌≤◌}
use mathlib.Core.List.{List, [], ◌∷◌, ◌++◌}
use native.Mathlib.Omega.{arith}
use gopkg.Common.Tests.{if◌then◌else◌, ltb}
use gopkg.Common.Lists.{length, length-append}
use gopkg.Common.Ints.{ℤ, abs_ℕ, is_neg}

-- On fuel: a number has at most as many digits as itself and one more.
unfoldable pub digits_from : ℕ → ℕ → List ℕ
digits_from zero n = []
digits_from (suc fuel) n =
    let higher = digits_from fuel (n / 10) in
    (if ltb n 10 then [] else higher) ++ (48 + n % 10) ∷ []

unfoldable pub digits : ℕ → List ℕ
unfolding digits_from
digits n = digits_from (suc n) n

unfoldable pub digits_int : ℤ → List ℕ
unfolding digits
digits_int n = (if is_neg n then 45 ∷ [] else []) ++ digits (abs_ℕ n)

unfoldable pub pow10 : ℕ → ℕ
pow10 zero = 1
pow10 (suc k) = 10 * pow10 k

pub length-digits_from : (k fuel n : ℕ) → n < pow10 (suc k) → length (digits_from fuel n) ≤ suc k
unfolding digits_from pow10
length-digits_from k zero n h = omega arith
length-digits_from zero (suc fuel) n h = ground (arith, h)
length-digits_from (suc k) (suc fuel) n h = ground (
  arith,
  h,
  length-digits_from k fuel (n / 10) (omega (arith, h)),
  length-append (digits_from fuel (n / 10)) ((48 + n % 10) ∷ []),
)
