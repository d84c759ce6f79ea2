-- ===== src/Registry/Examples.antt =====
-- A registry of two providers, and a queue that waits for it.
use gopkg.Common.{ℕ, ◌≡◌, refl, List, [], ◌∷◌, ◌++◌, Option, String, string_comparable, length}
use gopkg.Common.Assoc
use gopkg.Registry.{
  Registry, Call, registers, replaces, deletes, Error, new, register, lookup, run, empty_queue,
  flush, run_pending,
}
use gopkg.Registry.Laws.{IsMap, run-refines, spec_run}
use gopkg.Registry.Pending.{add_all, apply_all, deferred_in_order}

abbrev two : Registry String ℕ
two = record { entries = ("sms", 1) ∷ ("email", 2) ∷ [] }

two-IsMap : IsMap two
unfolding Assoc.lookup
two-IsMap = (refl, (refl, tt))

abbrev calls : List (Call String ℕ)
calls = registers "push" 3 ∷ registers "sms" 9 ∷ deletes "email" ∷ replaces "sms" 4 ∷ []

run-refines_example :
    (lookup "sms" (run two calls) ≡ spec_run (λ i. lookup i two) calls "sms")
    × IsMap (run two calls)
run-refines_example = run-refines two calls "sms" two-IsMap

-- Two registrations of one key: the second fails.
abbrev queued : List (Registry String ℕ → Registry String ℕ × Option Error)
queued = register "sms" 1 ∷ register "sms" 2 ∷ []

deferred_in_order_example :
    let (q, r') = add_all queued (empty_queue, new) in
    let (s, errs) = flush (q, r') in
    (r' ≡ new)
    × (errs ≡ (run_pending queued new).1)
    × (length errs ≡ 2)
    × ((add_all (register "push" 3 ∷ []) s).1 ≡ apply_all (queued ++ register "push" 3 ∷ []) new)
deferred_in_order_example = deferred_in_order queued (register "push" 3 ∷ []) new
