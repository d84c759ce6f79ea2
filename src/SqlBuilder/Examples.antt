-- ===== src/SqlBuilder/Examples.antt =====
-- sqlbuilder/sqlbuilder.go: tests, and the theorem at a query of three filters, of which one is off.
use gopkg.Common.{◌*ℤ◌, ◌-ℤ◌, ℕ, ◌≡◌, refl, Bool, true, false, List, [], ◌∷◌, map, pos}
use gopkg.Common.Text.{codes}
use gopkg.Money.Int64.{wrap}
use gopkg.SqlBuilder.{
  set_order_by, where_multi_like, where_not_empty, join, new, build_count_query, build_list_query,
}
use gopkg.SqlBuilder.Numbering.{
  Call, wheres, where_not_emptys, where_multi_likes, orders, run_calls, numbered, filters_of, value,
  run_calls-Numbered,
}

-- A value is its text.
abbrev of_bool : Bool → List ℕ
of_bool true = codes "true"
of_bool false = codes "false"

abbrev is_nil : List ℕ → Bool
is_nil v = false

abbrev filters : List (Call (List ℕ))
filters =
    wheres (codes "status") (codes "active")
    ∷ where_not_emptys (codes "city") []
    ∷ where_multi_likes (codes "%al%") (codes "name" ∷ codes "email" ∷ [])
    ∷ orders (codes "id")
    ∷ []

count_query :
    build_count_query (run_calls (λ s. s) of_bool is_nil filters (new (List ℕ) (codes "users"))) ≡ (
      codes "SELECT COUNT(*) FROM users WHERE status = $1 AND (name ILIKE $2 OR email ILIKE $2)",
      codes "active" ∷ codes "%al%" ∷ [],
    )
unfolding build_count_query run_calls new set_order_by where_multi_like where_not_empty join
count_query = refl

list_query :
    build_list_query [] (pos 20) (pos 3) (new (List ℕ) (codes "users"))
    ≡ (codes "SELECT * FROM users LIMIT 20 OFFSET 40", [])
unfolding build_list_query new wrap ◌*ℤ◌ ◌-ℤ◌
list_query = refl

run_calls-Numbered_example :
    ((run_calls (λ s. s) of_bool is_nil filters (new (List ℕ) (codes "users"))).conditions
      ≡ numbered 1 (filters_of (λ s. s) of_bool is_nil filters))
    × ((run_calls (λ s. s) of_bool is_nil filters (new (List ℕ) (codes "users"))).args
        ≡ map value (filters_of (λ s. s) of_bool is_nil filters))
run_calls-Numbered_example = run_calls-Numbered (λ s. s) of_bool is_nil filters (codes "users")

second_named :
    numbered 1 (filters_of (λ s. s) of_bool is_nil filters)
    ≡ codes "status = $1" ∷ codes "(name ILIKE $2 OR email ILIKE $2)" ∷ []
unfolding numbered filters_of
second_named = refl
