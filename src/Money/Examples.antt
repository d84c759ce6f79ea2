-- ===== src/Money/Examples.antt =====
-- Amounts at the edges of int64, with codes taken as they are written.
use gopkg.Common.{◌≡◌, refl, false, arith, String, ℤ, pos, negsuc, ◌*ℤ◌, ok}
use gopkg.Money.{Money, defaults, code, scale, mul_int}
use gopkg.Common.Assoc.{lookup}
use gopkg.Common.Text.{codes}
use gopkg.Money.Text.{to_string, read_amount, read-to_string}
use gopkg.Money.Int64.{min_int64}
use gopkg.Money.Product.{fits}
use gopkg.Money.Arithmetic.{checked, mul_int_exact}

abbrev same : String → String
same s = s

abbrev usd : ℤ → Money
usd n = record { minor = n; currency = "USD" }

mul_int_exact_example :
    mul_int (usd min_int64) (pos 2) ≡ checked (min_int64 *ℤ pos 2) "USD" (fits (min_int64 *ℤ pos 2))
mul_int_exact_example =
    mul_int_exact (usd min_int64) (pos 2) (omega arith) (omega arith) (λ h. ground arith)

printed : to_string same defaults (usd (pos 12345)) ≡ codes "123.45 USD"
unfolding to_string defaults lookup
printed = refl

printed_debt : to_string same defaults (usd (negsuc 4)) ≡ codes "-0.05 USD"
unfolding to_string defaults lookup
printed_debt = refl

printed_whole :
    to_string same defaults (record { minor = pos 5000; currency = "IQD" }) ≡ codes "5000 IQD"
unfolding to_string defaults lookup
printed_whole = refl

-- The most negative amount is not turned round, and prints three signs.
printed_least : to_string same defaults (usd min_int64) ≡ codes "--92233720368547758.-8 USD"
unfolding to_string defaults lookup
printed_least = refl

not_registered :
    to_string same defaults (record { minor = pos 7; currency = "XXX" }) ≡ codes "7 <unknown:XXX>"
unfolding to_string defaults lookup
not_registered = refl

two_places : scale same defaults "USD" ≡ ok 2
unfolding scale defaults lookup
two_places = refl

read-to_string_example :
    read_amount false false 0 0 (to_string same defaults (usd (negsuc 4)))
    ≡ (negsuc 4, 2, codes "USD")
unfolding code
read-to_string_example =
    read-to_string same defaults (usd (negsuc 4)) 2 two_places (omega arith, omega arith)
      (λ h. ground (arith, h))
