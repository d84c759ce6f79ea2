-- ===== src/Fx/Examples.antt =====
-- financial/fx: tests, and the theorems with floats that happen to be whole numbers.
use gopkg.Common.{
  quot_ℤ, ◌≡◌, refl, true, false, List, [], ◌∷◌, none, pos, ok, err, All, string_comparable,
}
use gopkg.Common.Float.{integral}
use gopkg.Fx.{rate_not_found, key, valid_rate, get_rate, convert}
use gopkg.Fx.Rates.{Call, sets, sets_pair, run_calls, safe, rates_valid}

abbrev calls : List (Call integral)
calls = sets_pair "GBP" "XAU" (pos 1) ∷ sets "USD" "IQD" (pos 1500) ∷ sets "USD" "EUR" (pos 0) ∷ []

found : get_rate integral none "USD" "IQD" (run_calls integral calls []) ≡ ok (pos 1500)
unfolding get_rate run_calls
found = refl

missing :
    convert integral none (pos 2) "IQD" "USD" (run_calls integral calls [])
    ≡ err (rate_not_found "IQD" "USD")
unfolding convert run_calls
missing = refl

all_safe : All (λ c. safe integral c ≡ true) calls
unfolding safe valid_rate quot_ℤ
all_safe = (refl, (refl, (refl, tt)))

one_valid : valid_rate integral (pos 1) ≡ true
unfolding valid_rate
one_valid = refl

rates_valid_example : valid_rate integral (pos 1500) ≡ true
rates_valid_example = rates_valid integral calls "USD" "IQD" (pos 1500) one_valid all_safe found

keys_differ : string_comparable.beq (key "XAU" "GBP") (key "GBP" "XAU") ≡ false
unfolding key
keys_differ = refl
