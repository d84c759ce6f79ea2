-- ===== src/VoicePipeline/Itoa.antt =====
-- voice/pipeline/observer.go: itoa, which names the marks of the turns, with its buffer of 20 bytes.
use gopkg.Common.{
  ℕ, zero, suc, ◌+◌, ◌-◌, ◌*◌, ◌/◌, ◌%◌, ◌≤◌, ◌<◌, ◌≡◌, refl, ap, ◌∙◌, arith, List, [], ◌∷◌, ltb,
  if◌then◌else◌, Bool-cases, inl, inr, All, ◌==◌, sub_ℕ, length, ℤ, pos, negsuc, abs_ℕ, is_neg,
  eqb_ℤ,
}
use gopkg.Common.Decimal.{pow10}

-- The loop: the bytes of the buffer that are left, the number, and what stands in the buffer.
pub itoa_digits : ℕ → ℕ → List ℕ → List ℕ
itoa_digits zero n buf = buf
itoa_digits (suc left) n buf =
    let rest = itoa_digits left (n / 10) ((48 + n % 10) ∷ buf) in if ltb 0 n then rest else buf

-- -n of a negative n, as an int64: that of the smallest is the smallest again, so no digit is printed.
negated : ℕ → ℕ
negated n = if ltb 9223372036854775807 n then 0 else n

pub itoa : ℤ → List ℕ
unfolding negated
itoa n =
    if eqb_ℤ n (pos 0)
    then 48 ∷ []
    else if is_neg n
    then 45 ∷ itoa_digits 20 (negated (abs_ℕ n)) []
    else itoa_digits 20 (abs_ℕ n) []

-- The number that digits stand for.
unfoldable pub value : List ℕ → ℕ
unfolding pow10
value [] = 0
value (d ∷ ds) = (d - 48) * pow10 (length ds) + value ds

shifted : (q r n p v : ℕ) → n ≡ 10 * q + r → q * (10 * p) + (r * p + v) ≡ n * p + v
shifted q r n p v h = rw h (grind arith)

digit_back : (r : ℕ) → 48 + r - 48 ≡ r
digit_back r = omega arith

value-itoa_digits :
    (left n : ℕ) (buf : List ℕ)
    → n < pow10 left
    → value (itoa_digits left n buf) ≡ n * pow10 (length buf) + value buf
unfolding itoa_digits value pow10
value-itoa_digits zero n buf h = ground (arith, h)
value-itoa_digits (suc left) n buf h = elim (Bool-cases (ltb 0 n)) [
  | inl more ↦
      rw (more, value-itoa_digits left (n / 10) ((48 + n % 10) ∷ buf) (omega arith))
        (rw (digit_back (n % 10))
          (shifted (n / 10) (n % 10) n (pow10 (length buf)) (value buf) (omega arith)))
  | inr done ↦ ground arith
]

itoa_digits-All :
    (left n : ℕ) (buf : List ℕ) → All (λ d. 48 ≤ d) buf → All (λ d. 48 ≤ d) (itoa_digits left n buf)
unfolding itoa_digits
itoa_digits-All zero n buf h = h
itoa_digits-All (suc left) n buf h = elim (Bool-cases (ltb 0 n)) [
  | inl more ↦ rw more (itoa_digits-All left (n / 10) ((48 + n % 10) ∷ buf) (omega arith, h))
  | inr done ↦ rw done h
]

-- The integer that a text of an optional `-` and digits stands for.
pub parse : List ℕ → ℤ
unfolding value
parse [] = pos 0
parse (c ∷ ds) = if c == 45 then sub_ℕ 0 (value ds) else pos (value (c ∷ ds))

parse_digits : (ds : List ℕ) → All (λ d. 48 ≤ d) ds → parse ds ≡ pos (value ds)
unfolding parse value
parse_digits [] h = refl
parse_digits (c ∷ ds) (h, _) = ground arith

buffer_fits : (n : ℕ) → n ≤ 9223372036854775808 → n < pow10 20
unfolding pow10
buffer_fits n h = omega arith

itoa_pos : (n : ℕ) → itoa (pos (suc n)) ≡ itoa_digits 20 (suc n) []
unfolding itoa
itoa_pos n = ground arith

negated_small : (n : ℕ) → n ≤ 9223372036854775807 → negated n ≡ n
unfolding negated
negated_small n h = ground (arith, h)

itoa-negated : (n : ℕ) → itoa (negsuc n) ≡ 45 ∷ itoa_digits 20 (negated (suc n)) []
unfolding itoa
itoa-negated n = ground arith

itoa_neg : (n : ℕ) → suc n ≤ 9223372036854775807 → itoa (negsuc n) ≡ 45 ∷ itoa_digits 20 (suc n) []
itoa_neg n h = itoa-negated n ∙ ap (λ (m : ℕ). 45 ∷ itoa_digits 20 m []) (negated_small (suc n) h)

times_one : (n : ℕ) → n * pow10 (length {A = ℕ} []) + value [] ≡ n
unfolding pow10 value
times_one n = omega arith

parse_zero : parse (itoa (pos 0)) ≡ pos 0
unfolding itoa parse value pow10
parse_zero = refl

value_of : (n : ℕ) → n ≤ 9223372036854775808 → value (itoa_digits 20 n []) ≡ n
value_of n h = value-itoa_digits 20 n [] (buffer_fits n h) ∙ times_one n

-- The text of every int64 but the smallest fits the buffer of 20 bytes, and stands for the number
-- again.
pub parse-itoa : (n : ℤ) → abs_ℕ n ≤ 9223372036854775807 → parse (itoa n) ≡ n
unfolding parse
parse-itoa (pos zero) h = parse_zero
parse-itoa (pos (suc n)) h = rw (
  itoa_pos n,
  parse_digits (itoa_digits 20 (suc n) []) (itoa_digits-All 20 (suc n) [] tt),
  value_of (suc n) (omega arith),
)
parse-itoa (negsuc n) h =
    rw (itoa_neg n (omega (arith, h)), value_of (suc n) (omega arith)) (ground arith)
