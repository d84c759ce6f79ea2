-- ===== src/Registry/Laws.antt =====
-- A registry is a partial function from keys to values that only `Replace` and `Delete` can change.
use gopkg.Common.{
  suc, ◌≡◌, refl, ap, ◌∙◌, inl, inr, Bool, true, false, List, [], ◌∷◌, ◌++◌, Option, none, some,
  if◌then◌else◌, Comparable, arith, is_some, Option-cases, All,
}
use gopkg.Common.Assoc.{
  Distinct, lookup-insert, lookup-delete, insert-Distinct, delete-Distinct, length-insert,
  length-delete,
}
use gopkg.Common.Assoc
use mathlib.Core.Path.{fun_ext}
use gopkg.Registry.{
  Registry, already_registered, register, lookup, delete, len, range, Call, registers, replaces,
  deletes, step, run,
}

module _ {ℓ κ} {K : Type ℓ} {V : Type κ} ⦃c : Comparable K⦄ where
  abbrev pub IsMap : Registry K V → Type κ
  IsMap r = Distinct r.entries

  -- `Register` returns the error exactly for a key that is taken, and then changes no key; otherwise
  -- it stores the value, leaves every other key `j` as it was, and has one entry more.
  pub register_lem :
      (k j : K) (v : V) (r : Registry K V)
      → let (r', e) = register k v r in
        let taken = is_some (lookup k r) in
        (e ≡ (if taken then some already_registered else none))
        × (lookup j r' ≡ (if taken then lookup j r else if c.beq k j then some v else lookup j r))
        × (len r' ≡ (if taken then len r else suc (len r)))
  unfolding register lookup len
  register_lem k j v r = ground (arith, lookup-insert k j v r.entries, length-insert k v r.entries)

  -- On a registry in which no key stands twice, `Delete` reports whether the key was there; after it
  -- the key is absent, every other key `j` is as it was, and there is one entry less if it was there.
  pub delete_lem :
      (k j : K) (r : Registry K V)
      → IsMap r
      → let (r', there) = delete k r in
        (there ≡ is_some (lookup k r))
        × (lookup j r' ≡ (if c.beq k j then none else lookup j r))
        × (len r ≡ (if there then suc (len r') else len r'))
  unfolding delete lookup len
  delete_lem k j r m =
      ground (arith, c.beq_iff k j, lookup-delete k j r.entries, length-delete k r.entries m)

  -- The specification: a partial function.
  pub spec_step : (K → Option V) → Call K V → K → Option V
  spec_step f (registers k v) j = if is_some (f k) then f j else if c.beq k j then some v else f j
  spec_step f (replaces k v) j = if c.beq k j then some v else f j
  spec_step f (deletes k) j = if c.beq k j then none else f j

  pub spec_run : (K → Option V) → List (Call K V) → K → Option V
  spec_run f [] = f
  spec_run f (a ∷ as') = spec_run (spec_step f a) as'

  step-IsMap : (r : Registry K V) (a : Call K V) → IsMap r → IsMap (step r a)
  unfolding step
  step-IsMap r (registers k v) m = elim (Option-cases (Assoc.lookup k r.entries)) [
    | inl e ↦ rw (e, step) (insert-Distinct k v r.entries m)
    | inr (w, e) ↦ rw (e, step) m
  ]
  step-IsMap r (replaces k v) m = insert-Distinct k v r.entries m
  step-IsMap r (deletes k) m = elim (Option-cases (Assoc.lookup k r.entries)) [
    | inl e ↦ rw (e, step) m
    | inr (w, e) ↦ rw (e, step) (delete-Distinct k r.entries m)
  ]

  step-refines :
      (r : Registry K V) (a : Call K V) (j : K)
      → lookup j (step r a) ≡ spec_step (λ i. lookup i r) a j
  unfolding step spec_step lookup
  step-refines r (registers k v) j = ground (arith, lookup-insert k j v r.entries)
  step-refines r (replaces k v) j = lookup-insert k j v r.entries
  step-refines r (deletes k) j = ground (arith, c.beq_iff k j, lookup-delete k j r.entries)

  -- After any calls the registry is the partial function that the specification computes, starting
  -- from the one that it was, and no key stands twice if none did before.
  pub run-refines :
      (r : Registry K V) (as' : List (Call K V)) (j : K)
      → IsMap r
      → (lookup j (run r as') ≡ spec_run (λ i. lookup i r) as' j) × IsMap (run r as')
  unfolding run spec_run
  run-refines r [] j m = (refl, m)
  run-refines r (a ∷ as') j m =
      let (same, m') = run-refines (step r a) as' j (step-IsMap r a m) in
      (same ∙ ap (λ f. spec_run f as' j) (fun_ext (step-refines r a)), m')

-- `Range` calls the function on the entries in order, up to and with the first on which it returns
-- false, and on no entry after it.
pub range-stops {ℓ κ} :
    {K : Type ℓ} {V : Type κ} (fn : K → V → Bool) (xs ys : List (K × V)) (k : K) (v : V)
    → All (λ e. fn e.0 e.1 ≡ true) xs
    → fn k v ≡ false
    → range fn (record { entries = xs ++ (k, v) ∷ ys }) ≡ xs ++ (k, v) ∷ []
unfolding range
range-stops fn [] ys k v a h = rw h
range-stops fn ((j, w) ∷ xs) ys k v a h =
    rw (a.0) (ap (◌∷◌ (j, w)) (range-stops fn xs ys k v a.1 h))
