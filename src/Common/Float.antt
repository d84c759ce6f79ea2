-- ===== src/Common/Float.antt =====
-- float64. antt has no floating-point numbers: the type and the operations that the source uses are
-- an interface, which the modules take as a parameter, and the facts of IEEE 754 that a theorem
-- needs are its hypotheses (`Laws`). `integral` shows that they can be met: floats that happen to be
-- whole numbers.
use mathlib.Core.Path.{◌≡◌}
use mathlib.Core.Bool.{Bool, true, false}
use native.Mathlib.Omega.{arith}
use Prim.Native.Nat.{ℕ, ◌^◌}
use gopkg.Common.Ints.{ℤ, pos, ◌+ℤ◌, ◌-ℤ◌, ◌*ℤ◌, quot_ℤ, ltb_ℤ, leb_ℤ, -ℤ_parts}

pub record Float64 : Type 1 where
  pub Carrier : Type 0
  pub zero : Carrier
  pub one : Carrier
  -- Go's `<` and `<=`; both are false when a side is NaN.
  pub lt : Carrier → Carrier → Bool
  pub le : Carrier → Carrier → Bool
  pub add : Carrier → Carrier → Carrier
  pub sub : Carrier → Carrier → Carrier
  pub mul : Carrier → Carrier → Carrier
  pub div : Carrier → Carrier → Carrier
  -- float64(n) and int64(x).
  pub of_int : ℤ → Carrier
  pub to_int : Carrier → ℤ
  -- math.IsNaN, math.IsInf(x, 0), math.Pow10
  pub is_nan : Carrier → Bool
  pub is_inf : Carrier → Bool
  pub pow10 : ℕ → Carrier

-- What IEEE 754 says of the comparisons and of `x - 1`.
pub record Laws (fl : Float64) : Type 0 where
  pub lt_irrefl : (a : fl.Carrier) → fl.lt a a ≡ false
  pub le-not_lt : (a b : fl.Carrier) → fl.le a b ≡ true → fl.lt b a ≡ false
  pub sub_one_nonneg :
      (a : fl.Carrier) → fl.le fl.one a ≡ true → fl.le fl.zero (fl.sub a fl.one) ≡ true

abbrev pub integral : Float64
integral = record {
  Carrier = ℤ;
  zero = pos 0;
  one = pos 1;
  lt = ltb_ℤ;
  le = leb_ℤ;
  add = ◌+ℤ◌;
  sub = ◌-ℤ◌;
  mul = ◌*ℤ◌;
  div = quot_ℤ;
  of_int = λ n. n;
  to_int = λ n. n;
  is_nan = λ n. false;
  is_inf = λ n. false;
  pow10 = λ n. pos (10 ^ n);
}

pub integral-Laws : Laws integral
integral-Laws = record {
  lt_irrefl = λ a. ground arith;
  le-not_lt = λ a b h. ground arith;
  sub_one_nonneg = λ a h. ground (arith, -ℤ_parts a (pos 1));
}
