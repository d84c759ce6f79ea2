-- ===== src/Money/Int64.antt =====
-- Go's int64: integers between -2^63 and 2^63 - 1, with arithmetic that wraps around.
use gopkg.Common.{
  ℕ, ◌+◌, ◌-◌, ◌*◌, ◌/◌, ◌%◌, ◌≡◌, arith, ltb, if◌then◌else◌, ℤ, pos, negsuc, pos_part, neg_part,
  sub_ℕ, ◌≤ℤ◌,
}

abbrev pub max_int64 : ℤ
max_int64 = pos 9223372036854775807

abbrev pub min_int64 : ℤ
min_int64 = negsuc 9223372036854775807

abbrev pub Fits : ℤ → Type 0
Fits a = (min_int64 ≤ℤ a) × (a ≤ℤ max_int64)

-- The bits of an integer, and the integer that 64 bits stand for.
abbrev pub to_u64 : ℤ → ℕ
to_u64 (pos n) = n % 18446744073709551616
to_u64 (negsuc n) = 18446744073709551615 - n % 18446744073709551616

abbrev pub of_u64 : ℕ → ℤ
of_u64 n = if ltb n 9223372036854775808 then pos n else sub_ℕ n 18446744073709551616

unfoldable pub wrap : ℤ → ℤ
wrap a = of_u64 (to_u64 a)

pub wrap-Fits : (a : ℤ) → Fits (wrap a)
unfolding wrap
wrap-Fits (pos n) = ground arith
wrap-Fits (negsuc n) = ground arith

pub wrap_of_Fits : (a : ℤ) → Fits a → wrap a ≡ a
unfolding wrap
wrap_of_Fits (pos n) h = ground arith
wrap_of_Fits (negsuc n) h = ground arith

-- How often the modulus went in.
pub turns : ℤ → ℤ
turns (pos n) =
    if ltb (n % 18446744073709551616) 9223372036854775808
    then pos (n / 18446744073709551616)
    else pos (n / 18446744073709551616 + 1)
turns (negsuc n) =
    if ltb (n % 18446744073709551616) 9223372036854775808
    then sub_ℕ 0 (n / 18446744073709551616)
    else negsuc (n / 18446744073709551616)

pub wrap-turns :
    (a : ℤ)
    → pos_part a + 18446744073709551616 * neg_part (turns a) + neg_part (wrap a)
      ≡ neg_part a + 18446744073709551616 * pos_part (turns a) + pos_part (wrap a)
unfolding wrap turns
wrap-turns (pos n) = ground arith
wrap-turns (negsuc n) = ground arith
