-- ===== src/Slicex/Examples.antt =====
-- slicex/slicex.go: tests, and the theorems at concrete inputs.
use gopkg.Common.{ℕ, ◌+◌, ◌≡◌, refl, Bool, List, [], ◌∷◌, ◌==◌, ◌%◌, some, nat_comparable}
use gopkg.Slicex.{reduce, chunk, unique}

abbrev sample : List ℕ
sample = 3 ∷ 1 ∷ 3 ∷ 2 ∷ 1 ∷ []

abbrev odd : ℕ → Bool
odd n = n % 2 == 1

folded : reduce sample 0 ◌+◌ ≡ 10
unfolding reduce
folded = refl

deduplicated : unique sample ≡ 3 ∷ 1 ∷ 2 ∷ []
unfolding unique
deduplicated = refl

in_pairs : chunk sample 2 ≡ some ((3 ∷ 1 ∷ []) ∷ (3 ∷ 2 ∷ []) ∷ (1 ∷ []) ∷ [])
unfolding chunk
in_pairs = refl
