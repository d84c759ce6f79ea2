-- ===== src/Common/Keys.antt =====
-- Go's `comparable`: a type whose `==` decides equality.
use Prim.Native.Nat.{ℕ}
use Prim.Native.String.{String}
use mathlib.Core.Path.{◌≡◌, refl, subst}
use mathlib.Core.Logic.{◌↔◌}
use mathlib.Core.Bool.{Bool, true, false, ◌&&◌}
use mathlib.Core.List.{List, [], ◌∷◌}
use native.Mathlib.Omega.{arith}
use text.Mathlib.Text.{◌==◌ as str_eq}
use text.Mathlib.TextEquality.{eq_iff}
use gopkg.Common.Tests.{◌==◌, ==_iff}

pub record Comparable {ℓ} (A : Type ℓ) : Type ℓ where
  pub beq : A → A → Bool
  pub beq_iff : (a b : A) → (beq a b ≡ true) ↔ (a ≡ b)

instance abbrev pub nat_comparable : Comparable ℕ
nat_comparable = record { beq = ◌==◌; beq_iff = ==_iff }

instance abbrev pub string_comparable : Comparable String
string_comparable = record { beq = str_eq; beq_iff = eq_iff }

pub beq_refl {ℓ} : {A : Type ℓ} (c : Comparable A) (a : A) → c.beq a a ≡ true
beq_refl c a = (c.beq_iff a a).1 refl

-- Equality of two lists, element by element.
unfoldable pub list_eq {ℓ} : {A : Type ℓ} → Comparable A → List A → List A → Bool
list_eq c [] [] = true
list_eq c (x ∷ xs) (y ∷ ys) = c.beq x y && list_eq c xs ys
list_eq c _ _ = false

pub list_eq_refl {ℓ} : {A : Type ℓ} (c : Comparable A) (xs : List A) → list_eq c xs xs ≡ true
unfolding list_eq
list_eq_refl c [] = refl
list_eq_refl c (x ∷ xs) = ground (arith, c.beq_iff x x, list_eq_refl c xs)

pub list_eq_sound {ℓ} :
    {A : Type ℓ} (c : Comparable A) (xs ys : List A) → list_eq c xs ys ≡ true → xs ≡ ys
unfolding list_eq
list_eq_sound c [] [] h = refl
list_eq_sound c [] (y ∷ ys) h = ground arith
list_eq_sound c (x ∷ xs) [] h = ground arith
list_eq_sound c (x ∷ xs) (y ∷ ys) h = ground (arith, c.beq_iff x y, list_eq_sound c xs ys)

instance abbrev pub list_comparable {ℓ} : {A : Type ℓ} → ⦃c : Comparable A⦄ → Comparable (List A)
list_comparable ⦃c⦄ = record {
  beq = list_eq c;
  beq_iff = λ xs ys.
      (list_eq_sound c xs ys, λ e. subst (λ zs. list_eq c xs zs ≡ true) e (list_eq_refl c xs));
}
