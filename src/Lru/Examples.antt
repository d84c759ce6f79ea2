-- ===== src/Lru/Examples.antt =====
-- A cache of capacity two with a time to live of ten nanoseconds.
use gopkg.Common.{ℕ, ◌≡◌, refl, List, [], ◌∷◌, some, String, pos, string_comparable, nat_comparable}
use gopkg.Common.Assoc.{lookup, insert, delete}
use gopkg.Lru.{Cache, Call, sets, gets, new, step, run, set, get, back, set_new, set_old}
use gopkg.Lru.Invariant.{Inv}
use gopkg.Lru.Methods.{run-new-Inv}
use gopkg.Lru.Refine.{view, spec_set, spec_get, set-refines, get-refines}

abbrev calls : List (Call String ℕ)
calls = sets 1 "a" 10 ∷ sets 2 "b" 20 ∷ gets 3 "a" ∷ []

abbrev full : Cache String ℕ
unfolding new run
full = run (new (pos 2) (pos 10)) calls

full_view : view full.ll ≡ ("a", (10, some 11)) ∷ ("b", (20, some 12)) ∷ []
unfolding full step set_new set_old lookup insert delete
full_view = refl

set_evicts : view (set 4 "c" 30 full).ll ≡ ("c", (30, some 14)) ∷ ("a", (10, some 11)) ∷ []
unfolding full step set set_new lookup insert delete back
set_evicts = refl

run-new-Inv_example : Inv (run (new (pos 2) (pos 10)) calls)
run-new-Inv_example = run-new-Inv (pos 2) (pos 10) calls

full-Inv : Inv full
unfolding full
full-Inv = run-new-Inv (pos 2) (pos 10) calls

set-refines_example :
    view (set 4 "c" 30 full).ll ≡ spec_set full.capacity full.ttl 4 "c" 30 (view full.ll)
set-refines_example = set-refines full 4 "c" 30 full-Inv

get-refines_example :
    let (s', r) = get 20 "b" full in (view s'.ll, r) ≡ spec_get full.ttl 20 "b" (view full.ll)
get-refines_example = get-refines full 20 "b" full-Inv
