-- ===== src/FilterPipeline.antt =====
-- pipeline/pipeline.go: a chain of filters over a slice of items. A filter is a record of functions;
-- `apply` gets the items and the caller's metadata and returns the new items or an error, with the
-- milliseconds that it took. Texts of errors are kept as values of a type `E`. The context is passed
-- through by the source and so is part of `apply`; logging is left out.
pub mod Runs
mod Examples
use gopkg.Common.{
  ℕ, Bool, true, false, List, [], ◌∷◌, ◌++◌, Option, none, some, String, if◌then◌else◌, length,
  Result, ok, err, ℤ, pos, sub_ℕ, ◌==◌,
}

pub data Criticality : Type 0 where
  critical enrichment : Criticality

pub record Filter {ℓ} (T M E : Type ℓ) : Type ℓ where
  pub name : String
  pub criticality : Criticality
  pub phase : ℕ
  pub apply : List T → M → Result E (List T) × ℕ

pub record StepLog {ℓ} (E : Type ℓ) : Type ℓ where
  pub filter_name : String
  pub criticality : Criticality
  pub phase : ℕ
  pub before_count : ℕ
  pub after_count : ℕ
  pub duration_ms : ℕ
  pub removed : ℤ
  pub skipped : Bool
  pub error : Option E

-- What `Run` returns: items, logs, and the critical filter that failed with its error. On an error
-- the items are nil.
pub record Outcome {ℓ} (T E : Type ℓ) : Type ℓ where
  pub items : List T
  pub logs : List (StepLog E)
  pub failure : Option (String × E)

module _ {ℓ} {T M E : Type ℓ} where
  pub failed_log : Filter T M E → ℕ → ℕ → E → Bool → StepLog E
  failed_log f before ms e skipped = record {
    filter_name = f.name;
    criticality = f.criticality;
    phase = f.phase;
    before_count = before;
    after_count = before;
    duration_ms = ms;
    removed = pos 0;
    skipped = skipped;
    error = some e;
  }

  pub done_log : Filter T M E → ℕ → ℕ → ℕ → StepLog E
  done_log f before after ms = record {
    filter_name = f.name;
    criticality = f.criticality;
    phase = f.phase;
    before_count = before;
    after_count = after;
    duration_ms = ms;
    removed = sub_ℕ before after;
    skipped = false;
    error = none;
  }

  -- One round of the loop: the log, and the items to go on with or the failure.
  abbrev pub settle :
      Filter T M E
      → Criticality
      → List T
      → Result E (List T) × ℕ
      → StepLog E × Result (String × E) (List T)
  settle f critical items (err e, ms) = (failed_log f (length items) ms e false, err (f.name, e))
  settle f enrichment items (err e, ms) = (failed_log f (length items) ms e true, ok items)
  settle f critical items (ok result, ms) =
      (done_log f (length items) (length result) ms, ok result)
  settle f enrichment items (ok result, ms) =
      (done_log f (length items) (length result) ms, ok result)

  pub round : Filter T M E → List T → M → StepLog E × Result (String × E) (List T)
  unfolding failed_log done_log
  round f items meta = settle f f.criticality items (f.apply items meta)

  -- The loop of `Run`, from the items and the logs so far.
  pub run_from : List (Filter T M E) → List T → M → List (StepLog E) → Outcome T E
  run_from [] items meta logs = record { items = items; logs = logs; failure = none }
  run_from (f ∷ fs) items meta logs =
      let (entry, next) = round f items meta in
      elim next [
        | ok result ↦ run_from fs result meta (logs ++ entry ∷ [])
        | err e ↦ record { items = []; logs = logs ++ entry ∷ []; failure = some e }
      ]

  pub run : List (Filter T M E) → List T → M → Outcome T E
  unfolding run_from
  run fs items meta = run_from fs items meta []

  -- The loop of `RunPhase`.
  pub subset : ℕ → List (Filter T M E) → List (Filter T M E)
  subset phase [] = []
  subset phase (f ∷ fs) = let rest = subset phase fs in if f.phase == phase then f ∷ rest else rest

  pub run_phase : List (Filter T M E) → ℕ → List T → M → Outcome T E
  unfolding run subset
  run_phase fs phase items meta = run (subset phase fs) items meta
