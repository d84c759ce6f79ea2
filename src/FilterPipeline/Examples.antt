-- ===== src/FilterPipeline/Examples.antt =====
-- A chain of three filters over numbers; the one in the middle fails on an empty list.
use gopkg.Common.{ℕ, ◌≡◌, refl, false, List, [], ◌∷◌, ◌++◌, some, String, Result, ok, err, length}
use gopkg.FilterPipeline.{critical, enrichment, Filter, round, run, failed_log}
use gopkg.FilterPipeline.Runs.{critical_aborts}

-- Drops the first item.
abbrev drop_first : List ℕ → Unit {0} → Result String (List ℕ) × ℕ
drop_first [] meta = (ok [], 1)
drop_first (x ∷ xs) meta = (ok xs, 1)

abbrev refuse : List ℕ → Unit {0} → Result String (List ℕ) × ℕ
refuse items meta = (err "upstream", 7)

abbrev drop : Filter ℕ (Unit {0}) String
drop = record { name = "drop"; criticality = critical; phase = 0; apply = drop_first }

abbrev enrich : Filter ℕ (Unit {0}) String
enrich = record { name = "enrich"; criticality = enrichment; phase = 1; apply = refuse }

abbrev guard : Filter ℕ (Unit {0}) String
guard = record { name = "guard"; criticality = critical; phase = 1; apply = refuse }

critical_aborts_example : run (drop ∷ guard ∷ drop ∷ []) (1 ∷ 2 ∷ []) tt ≡ record {
  items = [];
  logs =
      (run (drop ∷ []) (1 ∷ 2 ∷ []) tt).logs
      ++ failed_log guard (length (run (drop ∷ []) (1 ∷ 2 ∷ []) tt).items) 7 "upstream" false ∷ [];
  failure = some ("guard", "upstream");
}
unfolding run round
critical_aborts_example =
    critical_aborts (drop ∷ []) (drop ∷ []) guard (1 ∷ 2 ∷ []) tt "upstream" 7 refl refl refl
