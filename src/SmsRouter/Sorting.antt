-- ===== src/SmsRouter/Sorting.antt =====
-- communication/router/sms_router.go, `sortRules`: the bubble sort orders the rules by priority and
-- keeps the rules of one priority in their order.
use gopkg.Common.{
  ℕ, zero, suc, ◌-◌, ◌≡◌, refl, ap, arith, subst, Bool, true, false, List, [], ◌∷◌, ◌++◌,
  if◌then◌else◌, ℤ, append-nil, ◌∙◌, ◌≤ℤ◌, eqb_ℤ, length, All,
}
use gopkg.SmsRouter.{SmsRoutingRule, out_of_order, bubble, sort_from, sort_rules}

infix 50 ◌≼◌
abbrev pub ◌≼◌ : SmsRoutingRule → SmsRoutingRule → Type 0
a ≼ b = a.provider_priority ≤ℤ b.provider_priority

unfoldable pub Sorted : List SmsRoutingRule → Type 0
Sorted [] = Unit
Sorted (r ∷ rs) = All (λ s. r ≼ s) rs × Sorted rs

-- What a round leaves in place, and the rule that it carries to the end.
front : SmsRoutingRule → List SmsRoutingRule → List SmsRoutingRule
front a [] = []
front a (b ∷ rest) =
    (if out_of_order a b then b else a) ∷ front (if out_of_order a b then a else b) rest

top : SmsRoutingRule → List SmsRoutingRule → SmsRoutingRule
top a [] = a
top a (b ∷ rest) = top (if out_of_order a b then a else b) rest

bubble_splits :
    (n : ℕ) (a : SmsRoutingRule) (rest zs : List SmsRoutingRule)
    → length rest ≡ n
    → bubble n (a ∷ rest ++ zs) ≡ front a rest ++ top a rest ∷ zs
unfolding bubble front top
bubble_splits zero a [] zs h = refl
bubble_splits zero a (b ∷ rest) zs h = absurd (omega arith)
bubble_splits (suc n) a [] zs h = absurd (omega arith)
bubble_splits (suc n) a (b ∷ rest) zs h =
    ap (λ l. (if out_of_order a b then b else a) ∷ l)
      (bubble_splits n (if out_of_order a b then a else b) rest zs (omega arith))

length-front :
    (a : SmsRoutingRule) (rest : List SmsRoutingRule) → length (front a rest) ≡ length rest
unfolding front
length-front a [] = refl
length-front a (b ∷ rest) = ap suc (length-front (if out_of_order a b then a else b) rest)

module _ (Q : SmsRoutingRule → Type 0) where
  chosen : (t : Bool) (a b : SmsRoutingRule) → Q a → Q b → Q (if t then a else b)
  chosen true a b x y = x
  chosen false a b x y = y

  top-All : (a : SmsRoutingRule) (rest : List SmsRoutingRule) → Q a → All Q rest → Q (top a rest)
  unfolding top
  top-All a [] x xs = x
  top-All a (b ∷ rest) x (y, ys) =
      top-All (if out_of_order a b then a else b) rest (chosen (out_of_order a b) a b x y) ys

  front-All :
      (a : SmsRoutingRule) (rest : List SmsRoutingRule) → Q a → All Q rest → All Q (front a rest)
  unfolding front
  front-All a [] x xs = tt
  front-All a (b ∷ rest) x (y, ys) = (
    chosen (out_of_order a b) b a y x,
    front-All (if out_of_order a b then a else b) rest (chosen (out_of_order a b) a b x y) ys,
  )

All-both :
    (Q R : SmsRoutingRule → Type 0) (xs : List SmsRoutingRule)
    → All Q xs
    → All R xs
    → All (λ x. Q x × R x) xs
All-both Q R [] qs rs = tt
All-both Q R (x ∷ xs) (q, qs) (r, rs) = ((q, r), All-both Q R xs qs rs)

later_high : (a b : SmsRoutingRule) → a ≼ (if out_of_order a b then a else b)
later_high a b = ground arith

earlier_low :
    (a b : SmsRoutingRule)
    → (if out_of_order a b then b else a) ≼ (if out_of_order a b then a else b)
earlier_low a b = ground arith

≼_trans : (a b c : SmsRoutingRule) → a ≼ b → b ≼ c → a ≼ c
≼_trans a b c h k = omega arith

top-≼ : (a : SmsRoutingRule) (rest : List SmsRoutingRule) → a ≼ top a rest
unfolding top
top-≼ a [] = omega arith
top-≼ a (b ∷ rest) =
    let later = if out_of_order a b then a else b in
    ≼_trans a later (top later rest) (later_high a b) (top-≼ later rest)

front-≼ :
    (a : SmsRoutingRule) (rest : List SmsRoutingRule) → All (λ s. s ≼ top a rest) (front a rest)
unfolding front top
front-≼ a [] = tt
front-≼ a (b ∷ rest) =
    let earlier = if out_of_order a b then b else a in
    let later = if out_of_order a b then a else b in
    (
      ≼_trans earlier later (top later rest) (earlier_low a b) (top-≼ later rest),
      front-≼ later rest,
    )

sort_from-Sorted :
    (n : ℕ) (ys zs : List SmsRoutingRule)
    → length ys ≡ suc n
    → Sorted zs
    → All (λ y. All (λ z. y ≼ z) zs) ys
    → Sorted (sort_from n (ys ++ zs))
unfolding sort_from Sorted
sort_from-Sorted n [] zs h s low = absurd (omega arith)
sort_from-Sorted zero (a ∷ []) zs h s (low, _) = (low, s)
sort_from-Sorted zero (a ∷ b ∷ rest) zs h s low = absurd (omega arith)
sort_from-Sorted (suc n) (a ∷ rest) zs h s (low, lows) =
    let below = λ (y : SmsRoutingRule). All (λ z. y ≼ z) zs in
    rw (bubble_splits (suc n) a rest zs (omega arith)) (
      sort_from-Sorted n (front a rest) (top a rest ∷ zs) (omega (arith, length-front a rest))
        (top-All below a rest low lows, s)
        (All-both (λ y. y ≼ top a rest) below (front a rest) (front-≼ a rest)
          (front-All below a rest low lows)))

All-nil : (xs : List SmsRoutingRule) → All (λ y. All (λ z. y ≼ z) []) xs
All-nil [] = tt
All-nil (x ∷ xs) = (tt, All-nil xs)

pred_suc : (n : ℕ) → suc n - 1 ≡ n
pred_suc n = omega arith

-- sortRules puts the rules in order of their priority, the lowest number first.
pub sort_rules-Sorted : (rules : List SmsRoutingRule) → Sorted (sort_rules rules)
unfolding sort_rules Sorted
sort_rules-Sorted [] = tt
sort_rules-Sorted (a ∷ rest) = rw (pred_suc (length rest)) (
    subst (λ l. Sorted (sort_from (length rest) l)) (append-nil (a ∷ rest))
      (sort_from-Sorted (length rest) (a ∷ rest) [] refl tt (All-nil (a ∷ rest))))

-- The rules of one priority, in their order.
pub of_priority : ℤ → List SmsRoutingRule → List SmsRoutingRule
of_priority p [] = []
of_priority p (r ∷ rs) =
    let rest = of_priority p rs in if eqb_ℤ (r.provider_priority) p then r ∷ rest else rest

of_priority-bubble :
    (p : ℤ) (n : ℕ) (rules : List SmsRoutingRule)
    → of_priority p (bubble n rules) ≡ of_priority p rules
unfolding bubble of_priority
of_priority-bubble p zero rules = refl
of_priority-bubble p (suc n) [] = refl
of_priority-bubble p (suc n) (a ∷ []) = refl
of_priority-bubble p (suc n) (a ∷ b ∷ rest) =
    ground (arith, of_priority-bubble p n ((if out_of_order a b then a else b) ∷ rest))

of_priority-sort_from :
    (p : ℤ) (n : ℕ) (rules : List SmsRoutingRule)
    → of_priority p (sort_from n rules) ≡ of_priority p rules
unfolding sort_from
of_priority-sort_from p zero rules = refl
of_priority-sort_from p (suc n) rules =
    of_priority-sort_from p n (bubble (suc n) rules) ∙ of_priority-bubble p (suc n) rules

-- sortRules is stable, and loses and invents no rule: for each priority, the rules of that priority
-- are the same ones in the same order as before.
pub sort_rules_stable :
    (rules : List SmsRoutingRule) (p : ℤ) → of_priority p (sort_rules rules) ≡ of_priority p rules
unfolding sort_rules
sort_rules_stable rules p = of_priority-sort_from p (length rules - 1) rules
