-- ===== src/Money.antt =====
-- money/money.go. Amounts are int64 (Money/Int64.antt), written as integers that wrap. `upper` is
-- strings.ToUpper. The registry of currency scales is the package's map, passed to each function
-- that reads it; `Register` returns the new one. The text of an error is left out, its sentinel kept.
pub mod Int64
pub mod Product
pub mod Arithmetic
pub mod Text
mod Examples
use gopkg.Common.{
  ℕ, ◌+◌, Bool, true, false, ◌&&◌, ◌||◌, not, List, [], ◌∷◌, Option, none, some, String, str_eq,
  ltb, leb, if◌then◌else◌, ℤ, pos, negsuc, pos_part, ltb_ℤ, leb_ℤ, eqb_ℤ, ◌+ℤ◌, ◌-ℤ◌, ◌*ℤ◌, quot_ℤ,
  neg_ℤ, Result, ok, err, ◌>>=◌, ◌>>◌, string_comparable,
}
use gopkg.Common.Assoc.{lookup, insert}
use gopkg.Common.Float.{Float64}
use Int64.{wrap, max_int64, min_int64}

pub data Error : Type 0 where
  currency_mismatch divide_by_zero overflow unknown_currency invalid_format bad_scale : Error

pub record Money : Type 0 where
  pub minor : ℤ
  pub currency : String

abbrev pub Scales : Type 0
Scales = List (String × ℕ)

-- The currencies that the package ships, by their scale.
abbrev entries : ℕ → List String → Scales → Scales
entries n [] rest = rest
entries n (c ∷ cs) rest = (c, n) ∷ entries n cs rest

unfoldable pub defaults : Scales
defaults =
    entries 2
      ("USD" ∷ "EUR" ∷ "GBP" ∷ "CAD" ∷ "AUD" ∷ "CHF" ∷ "NZD" ∷ "SEK" ∷ "NOK" ∷ "DKK" ∷ "PLN" ∷ "CZK"
        ∷ "HUF" ∷ "RON" ∷ "SGD" ∷ "HKD" ∷ "TWD" ∷ "CNY" ∷ "INR" ∷ "THB" ∷ "MYR" ∷ "IDR" ∷ [])
      (entries 0 ("JPY" ∷ "KRW" ∷ "VND" ∷ "CLP" ∷ "ISK" ∷ "IQD" ∷ []) (
        entries 3 ("KWD" ∷ "BHD" ∷ "OMR" ∷ "JOD" ∷ "TND" ∷ []) (
          entries 2
            ("AED" ∷ "SAR" ∷ "EGP" ∷ "QAR" ∷ "LBP" ∷ "TRY" ∷ "ILS" ∷ "ZAR" ∷ "NGN" ∷ "KES" ∷ "MAD"
              ∷ "DZD" ∷ "BRL" ∷ "MXN" ∷ "ARS" ∷ "COP" ∷ "PEN" ∷ "RUB" ∷ [])
            [])))

abbrev pub is_zero_ℤ : ℤ → Bool
is_zero_ℤ a = eqb_ℤ a (pos 0)

-- `addOverflows` and `subOverflows`.
pub add_overflows : ℤ → ℤ → Bool
add_overflows a b =
    ltb_ℤ (pos 0) b && ltb_ℤ (wrap (max_int64 -ℤ b)) a
    || ltb_ℤ b (pos 0) && ltb_ℤ a (wrap (min_int64 -ℤ b))

pub sub_overflows : ℤ → ℤ → Bool
sub_overflows a b =
    ltb_ℤ b (pos 0) && ltb_ℤ (wrap (max_int64 +ℤ b)) a
    || ltb_ℤ (pos 0) b && ltb_ℤ a (wrap (min_int64 +ℤ b))

module _ (upper : String → String) where
  pub code : String → String
  code c = upper c

  pub register : String → ℤ → Scales → Result Error Scales
  register c scale r =
      if ltb_ℤ scale (pos 0) || ltb_ℤ (pos 8) scale
      then err bad_scale
      else ok (insert (upper c) (pos_part scale) r)

  pub scale : Scales → String → Result Error ℕ
  unfolding code
  scale r c = elim (lookup (code c) r) [ none ↦ err unknown_currency | some s ↦ ok s ]

  pub from_minor : Scales → ℤ → String → Result Error Money
  from_minor r minor c = do _ ← scale r c; ok (record { minor = minor; currency = c })

  pub same_currency : Money → Money → Result Error (Unit {0})
  unfolding code
  same_currency m o =
      if not (str_eq (code m.currency) (code o.currency)) then err currency_mismatch else ok tt

  pub add : Money → Money → Result Error Money
  unfolding same_currency add_overflows
  add m o = do
    same_currency m o
    if add_overflows m.minor o.minor
        then err overflow
        else ok (record { minor = wrap (m.minor +ℤ o.minor); currency = m.currency })

  pub sub : Money → Money → Result Error Money
  unfolding same_currency sub_overflows
  sub m o = do
    same_currency m o
    if sub_overflows m.minor o.minor
        then err overflow
        else ok (record { minor = wrap (m.minor -ℤ o.minor); currency = m.currency })

  pub equal : Money → Money → Bool
  unfolding code
  equal m o = str_eq (code m.currency) (code o.currency) && eqb_ℤ m.minor o.minor

  pub cmp : Money → Money → Result Error ℤ
  unfolding same_currency
  cmp m o = do
    same_currency m o
    if ltb_ℤ m.minor o.minor
        then ok (negsuc 0)
        else if ltb_ℤ o.minor m.minor
        then ok (pos 1)
        else ok (pos 0)

  -- `New`, over the interface of float64.
  pub new : (fl : Float64) → Scales → fl.Carrier → String → Result Error Money
  new fl r amount c = do
    s ← scale r c
    let v = fl.mul amount (fl.pow10 s)
    if fl.is_nan amount || fl.is_inf amount
        then err invalid_format
        else if fl.lt (fl.of_int max_int64) v || fl.lt v (fl.of_int min_int64)
        then err overflow
        else ok (record { minor = fl.to_int v; currency = c })

pub mul_int : Money → ℤ → Result Error Money
mul_int m factor =
    if is_zero_ℤ factor
    then ok (record { minor = pos 0; currency = m.currency })
    else if not (is_zero_ℤ m.minor)
        && not (eqb_ℤ (wrap (quot_ℤ (wrap (m.minor *ℤ factor)) factor)) m.minor)
    then err overflow
    else ok (record { minor = wrap (m.minor *ℤ factor); currency = m.currency })

pub div_int : Money → ℤ → Result Error Money
div_int m divisor =
    if is_zero_ℤ divisor
    then err divide_by_zero
    else ok (record { minor = wrap (quot_ℤ m.minor divisor); currency = m.currency })

pub negate : Money → Money
negate m = record { minor = wrap (neg_ℤ m.minor); currency = m.currency }

pub is_zero : Money → Bool
is_zero m = is_zero_ℤ m.minor
