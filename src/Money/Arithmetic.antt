-- ===== src/Money/Arithmetic.antt =====
-- The arithmetic of money: exact, or an error.
use gopkg.Common.{
  ◌≡◌, ◌≢◌, refl, ◌∙◌, inl, inr, ◌↔◌, arith, Bool, true, false, not, String, str_eq, eq_iff,
  if◌then◌else◌, ℤ, pos, negsuc, ◌+ℤ◌, ◌-ℤ◌, ◌*ℤ◌, ◌<ℤ◌, quot_ℤ, Result, ok, err, Bool-cases,
  +ℤ_parts, -ℤ_parts, int_laws,
}
use gopkg.Money.{
  Money, Error, currency_mismatch, overflow, code, add, sub, mul_int, div_int, negate, cmp, equal,
  add_overflows, sub_overflows, is_zero_ℤ,
}
use gopkg.Money.Int64.{Fits, wrap, wrap_of_Fits, max_int64, min_int64}
use gopkg.Money.Product.{fits, mul_test, *ℤ-zero}

-- What a checked operation returns for an exact result.
abbrev pub checked : ℤ → String → Bool → Result Error Money
checked exact' c true = ok (record { minor = exact'; currency = c })
checked exact' c false = err overflow

add_overflows-fits : (a b : ℤ) → Fits a → Fits b → add_overflows a b ≡ not (fits (a +ℤ b))
unfolding add_overflows
add_overflows-fits a b h k = ground (
  arith,
  -ℤ_parts max_int64 b,
  -ℤ_parts min_int64 b,
  +ℤ_parts a b,
  wrap_of_Fits (max_int64 -ℤ b),
  wrap_of_Fits (min_int64 -ℤ b),
)

sub_overflows-fits : (a b : ℤ) → Fits a → Fits b → sub_overflows a b ≡ not (fits (a -ℤ b))
unfolding sub_overflows
sub_overflows-fits a b h k = ground (
  arith,
  +ℤ_parts max_int64 b,
  +ℤ_parts min_int64 b,
  -ℤ_parts a b,
  wrap_of_Fits (max_int64 +ℤ b),
  wrap_of_Fits (min_int64 +ℤ b),
)

module _ (upper : String → String) where
  -- For amounts in int64, `Add` returns the exact sum in the first currency if that sum fits in
  -- int64, and otherwise the overflow error; if the codes differ it returns the mismatch error.
  pub add_exact :
      (m o : Money)
      → Fits m.minor
      → Fits o.minor
      → add upper m o ≡ (
          if str_eq (upper m.currency) (upper o.currency)
          then checked (m.minor +ℤ o.minor) m.currency (fits (m.minor +ℤ o.minor))
          else err currency_mismatch)
  unfolding add code
  add_exact m o h k =
      ground (arith, add_overflows-fits m.minor o.minor h k, wrap_of_Fits (m.minor +ℤ o.minor))

  -- For amounts in int64, `Sub` returns the exact difference in the first currency if it fits in
  -- int64, and otherwise the overflow error; if the codes differ it returns the mismatch error.
  pub sub_exact :
      (m o : Money)
      → Fits m.minor
      → Fits o.minor
      → sub upper m o ≡ (
          if str_eq (upper m.currency) (upper o.currency)
          then checked (m.minor -ℤ o.minor) m.currency (fits (m.minor -ℤ o.minor))
          else err currency_mismatch)
  unfolding sub code
  sub_exact m o h k =
      ground (arith, sub_overflows-fits m.minor o.minor h k, wrap_of_Fits (m.minor -ℤ o.minor))

  -- What `Add` put on, `Sub` takes off: if the sum of two amounts in int64 is not an error, taking
  -- the second amount from it gives the first, and no error.
  pub sub-add :
      (m o r : Money) → Fits m.minor → Fits o.minor → add upper m o ≡ ok r → sub upper r o ≡ ok m
  sub-add m o r h k e =
      let sum = add_exact m o h k in
      let same : str_eq (upper m.currency) (upper o.currency) ≡ true = ground arith in
      let room : Fits (m.minor +ℤ o.minor) = ground arith in
      let value : r ≡ record { minor = m.minor +ℤ o.minor; currency = m.currency } = ground arith in
      let back : m.minor +ℤ o.minor -ℤ o.minor ≡ m.minor = omega int_laws in
      rw value (sub_exact _ o room k ∙ rw (same, back) (ground arith))

  -- `Cmp` and `Equal` agree: `Cmp` returns 0 exactly on amounts that are equal, -1 exactly when the
  -- codes are one and the first amount is less, 1 exactly when they are one and the second is less,
  -- and the mismatch error exactly when the codes differ.
  pub cmp-equal :
      (m o : Money)
      → ((cmp upper m o ≡ ok (pos 0)) ↔ (equal upper m o ≡ true))
        × ((cmp upper m o ≡ ok (negsuc 0))
            ↔ ((upper m.currency ≡ upper o.currency) × (m.minor <ℤ o.minor)))
        × ((cmp upper m o ≡ ok (pos 1))
            ↔ ((upper m.currency ≡ upper o.currency) × (o.minor <ℤ m.minor)))
        × ((cmp upper m o ≡ err currency_mismatch) ↔ (upper m.currency ≢ upper o.currency))
  unfolding cmp equal
  cmp-equal m o = ground (arith, eq_iff (upper m.currency) (upper o.currency))

-- Except for the most negative amount times -1, `MulInt` on int64 returns the exact product in the
-- same currency if it fits in int64, and otherwise the overflow error.
pub mul_int_exact :
    (m : Money) (factor : ℤ)
    → Fits m.minor
    → Fits factor
    → ¬ ((m.minor ≡ min_int64) × (factor ≡ negsuc 0))
    → mul_int m factor ≡ checked (m.minor *ℤ factor) m.currency (fits (m.minor *ℤ factor))
unfolding mul_int
mul_int_exact m factor h k x = elim (Bool-cases (is_zero_ℤ factor)) [
  | inl e ↦ let p = *ℤ-zero m.minor factor (inr (ground arith)) in rw (e, p) refl
  | inr e ↦ elim (Bool-cases (is_zero_ℤ m.minor)) [
    | inl z ↦
        let p = *ℤ-zero m.minor factor (inl (ground arith)) in
        rw (e, z, p, wrap_of_Fits (pos 0) (omega arith)) refl
    | inr z ↦
        let test = mul_test m.minor factor h k (λ q. ground arith) (λ q. ground arith) x in
        ground (arith, test, wrap_of_Fits (m.minor *ℤ factor))
  ]
]

-- The most negative amount is its own negation in all three operations that negate it, with no
-- error: `MulInt` by -1, `DivInt` by -1, and `Negate`.
min_wraps :
    (m : Money)
    → m.minor ≡ min_int64
    → (mul_int m (negsuc 0) ≡ ok m) × (div_int m (negsuc 0) ≡ ok m) × (negate m ≡ m)
unfolding mul_int div_int negate wrap quot_ℤ ◌*ℤ◌
min_wraps m h = ground arith
