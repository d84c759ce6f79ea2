-- ===== src/Money/Product.antt =====
-- Products of int64: when `(a * f) / f` is `a` again.
use native.Mathlib.Nat.{
  mod-lt, div-add-mod', add-zero, mul-div_cancel, div-le_self, zero-mul, mul-zero,
}
use gopkg.Common.{
  ℕ, zero, suc, ◌+◌, ◌*◌, ◌/◌, ◌%◌, ◌<◌, ◌≡◌, ◌≢◌, refl, sym, subst, ◌∙◌, ap, ap₂, arith, ◌⊎◌, inl,
  inr, Bool, true, false, ℤ, pos, negsuc, pos_part, neg_part, ◌*ℤ◌, abs_ℕ, is_neg, quot_ℤ, signed,
  differ, Bool-cases, ◌==◌, ==_iff, eqb_ℤ, leb_ℤ, ◌&&◌,
}
use gopkg.Money.Int64.{Fits, wrap, wrap-Fits, wrap_of_Fits, turns, wrap-turns, max_int64, min_int64}

*ℤ-signed : (a f : ℤ) → a *ℤ f ≡ signed (differ (is_neg a) (is_neg f)) (abs_ℕ a * abs_ℕ f)
unfolding ◌*ℤ◌
*ℤ-signed (pos m) (pos n) = grind arith
*ℤ-signed (pos m) (negsuc n) = grind arith
*ℤ-signed (negsuc m) (pos n) = grind arith
*ℤ-signed (negsuc m) (negsuc n) = grind arith

signed-abs : (w : ℤ) → w ≡ signed (is_neg w) (abs_ℕ w)
signed-abs (pos n) = ground arith
signed-abs (negsuc n) = ground arith

-- A nonzero quotient shows the sign and the magnitude of the dividend.
quot_inv :
    (w f a : ℤ)
    → a ≢ pos 0
    → quot_ℤ w f ≡ a
    → (abs_ℕ w / abs_ℕ f ≡ abs_ℕ a) × (is_neg w ≡ differ (is_neg a) (is_neg f))
unfolding quot_ℤ
quot_inv (pos w) (pos f) a nz h = ground arith
quot_inv (pos w) (negsuc f) a nz h = ground arith
quot_inv (negsuc w) (pos f) a nz h = ground arith
quot_inv (negsuc w) (negsuc f) a nz h = ground arith

split : (w f q : ℕ) → 0 < f → w / f ≡ q → (r : ℕ) × (r < f) × (w ≡ q * f + r)
split w f q p h = (w % f, mod-lt w p, sym (div-add-mod' w f) ∙ ap (λ (t : ℕ). t * f + w % f) h)

-- A remainder below the modulus that is a multiple of it is nothing.
no_turn :
    (s : Bool) (n r : ℕ) (t : ℤ)
    → r < 18446744073709551616
    → pos_part (signed s n) + 18446744073709551616 * neg_part t + neg_part (signed s (n + r))
      ≡ neg_part (signed s n) + 18446744073709551616 * pos_part t + pos_part (signed s (n + r))
    → r ≡ 0
no_turn true n r t h e = ground arith
no_turn false n r t h e = ground arith

-- If dividing the wrapped product gives the other factor back, the product did not wrap.
pub exact :
    (a f : ℤ)
    → a ≢ pos 0
    → f ≢ pos 0
    → Fits f
    → quot_ℤ (wrap (a *ℤ f)) f ≡ a
    → wrap (a *ℤ f) ≡ a *ℤ f
exact a f na nf fit h =
    let p = a *ℤ f in
    let w = wrap p in
    let s = differ (is_neg a) (is_neg f) in
    let (d, same) = quot_inv w f a na h in
    let (r, small, e) = split (abs_ℕ w) (abs_ℕ f) (abs_ℕ a) (ground arith) d in
    let pe : p ≡ signed s (abs_ℕ a * abs_ℕ f) = *ℤ-signed a f in
    let we : w ≡ signed s (abs_ℕ a * abs_ℕ f + r) = rw (← same, ← e) (signed-abs w) in
    let none' : r ≡ 0 =
      no_turn s (abs_ℕ a * abs_ℕ f) r (turns p) (ground arith) (rw (← pe, ← we) (wrap-turns p)) in
    we ∙ ap (λ (k : ℕ). signed s (abs_ℕ a * abs_ℕ f + k)) none' ∙ rw add-zero (sym pe)

quot-signed :
    (s : Bool) (n q : ℕ) (f : ℤ)
    → n / abs_ℕ f ≡ q
    → (n ≡ 0 → q ≡ 0)
    → quot_ℤ (signed s n) f ≡ signed (differ s (is_neg f)) q
unfolding quot_ℤ
quot-signed true zero q (pos f) h z = ground (arith, z refl)
quot-signed true zero q (negsuc f) h z = ground (arith, z refl)
quot-signed true (suc n) q (pos f) h z = ground arith
quot-signed true (suc n) q (negsuc f) h z = ground arith
quot-signed false n q (pos f) h z = ground arith
quot-signed false n q (negsuc f) h z = ground arith

differ_twice : (a b : Bool) → differ (differ a b) b ≡ a
differ_twice true true = refl
differ_twice true false = refl
differ_twice false true = refl
differ_twice false false = refl

zero_factor : (m g : ℕ) → 0 < g → m * g ≡ 0 → m ≡ 0
zero_factor zero g p h = refl
zero_factor (suc m) g p h = grind arith

-- Without a wrap, dividing gives the other factor back.
pub mul_quot : (a f : ℤ) → f ≢ pos 0 → quot_ℤ (a *ℤ f) f ≡ a
mul_quot a f nf =
    let s = differ (is_neg a) (is_neg f) in
    let g : 0 < abs_ℕ f = ground arith in
    rw (*ℤ-signed a f) (
      quot-signed s (abs_ℕ a * abs_ℕ f) (abs_ℕ a) f (mul-div_cancel (abs_ℕ a) g)
        (zero_factor (abs_ℕ a) (abs_ℕ f) g)
      ∙ ap (λ b. signed b (abs_ℕ a)) (differ_twice (is_neg a) (is_neg f))
      ∙ sym (signed-abs a))

abbrev pub Extreme : ℤ → ℤ → Type 0
Extreme a f = (a ≡ min_int64) × (f ≡ negsuc 0)

-- Only the extreme quotient leaves int64.
quot-Fits : (w f : ℤ) → Fits w → f ≢ pos 0 → (Fits (quot_ℤ w f)) ⊎ Extreme w f
unfolding quot_ℤ
quot-Fits (pos w) (pos f) h nf = inl (ground (arith, div-le_self w f))
quot-Fits (pos w) (negsuc f) h nf = inl (ground (arith, div-le_self w (suc f)))
quot-Fits (negsuc w) (pos f) h nf = inl (ground (arith, div-le_self (suc w) f))
quot-Fits (negsuc w) (negsuc zero) h nf = elim (Bool-cases (w == 9223372036854775807)) [
  | inl e ↦ inr (ap negsuc ((==_iff w _).0 e), refl)
  | inr e ↦ inl (ground arith)
]
quot-Fits (negsuc w) (negsuc (suc f)) h nf = inl (ground arith)

abbrev pub fits : ℤ → Bool
fits a = leb_ℤ min_int64 a && leb_ℤ a max_int64

extreme_quot : wrap (quot_ℤ min_int64 (negsuc 0)) ≡ min_int64
unfolding wrap quot_ℤ
extreme_quot = refl

-- The test of `MulInt` decides whether the product fits.
pub mul_test :
    (a f : ℤ)
    → Fits a
    → Fits f
    → a ≢ pos 0
    → f ≢ pos 0
    → ¬ Extreme a f
    → eqb_ℤ (wrap (quot_ℤ (wrap (a *ℤ f)) f)) a ≡ fits (a *ℤ f)
mul_test a f ha hf na nf x = elim (Bool-cases (fits (a *ℤ f))) [
  | inl e ↦
      let within : Fits (a *ℤ f) = ground arith in
      rw (e, wrap_of_Fits (a *ℤ f) within, mul_quot a f nf, wrap_of_Fits a ha) (ground arith)
  | inr e ↦ rw e (elim (Bool-cases (eqb_ℤ (wrap (quot_ℤ (wrap (a *ℤ f)) f)) a)) [
    | inr ne ↦ ne
    | inl same ↦
        let back : wrap (quot_ℤ (wrap (a *ℤ f)) f) ≡ a = ground arith in
        absurd (elim (quot-Fits (wrap (a *ℤ f)) f (wrap-Fits (a *ℤ f)) nf) [
          | inr y ↦ x (sym back ∙ ap₂ (λ v g. wrap (quot_ℤ v g)) y.0 y.1 ∙ extreme_quot, y.1)
          | inl q ↦
              let w = exact a f na nf hf (sym (wrap_of_Fits _ q) ∙ back) in
              let within : Fits (a *ℤ f) = subst (λ z. Fits z) w (wrap-Fits (a *ℤ f)) in
              ground arith
        ])
  ])
]

pub *ℤ-zero : (a f : ℤ) → (a ≡ pos 0) ⊎ (f ≡ pos 0) → a *ℤ f ≡ pos 0
*ℤ-zero a f h =
    let nothing : abs_ℕ a * abs_ℕ f ≡ 0 = elim h [
      | inl e ↦ rw e (zero-mul (abs_ℕ f))
      | inr e ↦ rw e (mul-zero (abs_ℕ a))
    ] in
    *ℤ-signed a f ∙ rw nothing (ground arith)
