-- ===== src/Fx/Rates.antt =====
-- financial/fx/fx.go: no invalid rate is ever stored or returned, and a pair answers in both directions.
use gopkg.Common.{
  ◌≡◌, refl, subst, arith, Bool, true, false, ◌⊎◌, All, beq_refl, List, [], ◌∷◌, none, some,
  Option-cases, Bool-cases, inl, inr, String, str_eq, string_comparable, if◌then◌else◌, ok,
}
use gopkg.Common.Assoc
use gopkg.Common.Float.{Float64}
use gopkg.Fx.{key, valid_rate, Table, set_rate, set_pair, first_invalid, copy_rates, load, get_rate}

-- The operations of Memory.
pub data Call (fl : Float64) : Type 0 where
  sets : String → String → fl.Carrier → Call fl
  sets_pair : String → String → fl.Carrier → Call fl
  loads : List (String × fl.Carrier) → Call fl

module _ (fl : Float64) where
  unfoldable pub call : Call fl → Table fl → Table fl
  unfolding set_rate set_pair load
  call (sets from to rate) table = (set_rate fl from to rate table).0
  call (sets_pair from to rate) table = (set_pair fl from to rate table).0
  call (loads rates) table = (load fl rates table).0

  unfoldable pub run_calls : List (Call fl) → Table fl → Table fl
  unfolding call
  run_calls [] table = table
  run_calls (c ∷ cs) table = run_calls cs (call c table)

  -- Every rate that the table has is finite and positive.
  pub AllValid : Table fl → Type 0
  AllValid table =
      (k : String) (r : fl.Carrier) → Assoc.lookup k table ≡ some r → valid_rate fl r ≡ true

  insert-AllValid :
      (k : String) (r : fl.Carrier) (table : Table fl)
      → valid_rate fl r ≡ true
      → AllValid table
      → AllValid (Assoc.insert k r table)
  unfolding AllValid
  insert-AllValid k r table h v j x at = elim (Bool-cases (string_comparable.beq k j)) [
    | inl same ↦
        subst (λ y. valid_rate fl y ≡ true) (ground (arith, Assoc.lookup-insert k j r table)) h
    | inr other ↦ v j x (ground (arith, Assoc.lookup-insert k j r table))
  ]

  copy-AllValid :
      (rates next : Table fl)
      → first_invalid fl rates ≡ none
      → AllValid next
      → AllValid (copy_rates fl rates next)
  unfolding first_invalid copy_rates
  copy-AllValid [] next h v = v
  copy-AllValid ((k, r) ∷ rates) next h v = elim (Bool-cases (valid_rate fl r)) [
    | inl good ↦
        copy-AllValid rates (Assoc.insert k r next) (ground (arith, h, good))
          (insert-AllValid k r next good v)
    | inr bad ↦ absurd (ground (arith, h, bad))
  ]

  nil-AllValid : AllValid []
  unfolding AllValid Assoc.lookup
  nil-AllValid k r h = cc

  -- A pair whose way back is a valid rate too; not so for a denormal, whose reciprocal is infinite.
  unfoldable pub safe : Call fl → Bool
  safe (sets from to rate) = true
  safe (sets_pair from to rate) =
      if valid_rate fl rate then valid_rate fl (fl.div fl.one rate) else true
  safe (loads rates) = true

  sets_table :
      (from to : String) (rate : fl.Carrier) (table : Table fl)
      → (set_rate fl from to rate table).0
        ≡ (if valid_rate fl rate then Assoc.insert (key from to) rate table else table)
  unfolding set_rate
  sets_table from to rate table = ground arith

  sets_pair_table :
      (from to : String) (rate : fl.Carrier) (table : Table fl)
      → (set_pair fl from to rate table).0 ≡ (
          if valid_rate fl rate
          then Assoc.insert
              (key to from)
              (fl.div fl.one rate)
              (Assoc.insert (key from to) rate table)
          else table)
  unfolding set_pair
  sets_pair_table from to rate table = ground arith

  loads_table :
      (rates table : Table fl)
      → ((first_invalid fl rates ≡ none) × ((load fl rates table).0 ≡ copy_rates fl rates []))
        ⊎ ((load fl rates table).0 ≡ table)
  unfolding load
  loads_table rates table = elim (Option-cases (first_invalid fl rates)) [
    | inl good ↦ inl (good, ground arith)
    | inr (e, bad) ↦ inr (ground arith)
  ]

  either-AllValid :
      (good : Bool) (a b : Table fl)
      → (good ≡ true → AllValid a)
      → AllValid b
      → AllValid (if good then a else b)
  either-AllValid true a b f v = f refl
  either-AllValid false a b f v = v

  call-AllValid :
      (c : Call fl) (table : Table fl) → safe c ≡ true → AllValid table → AllValid (call c table)
  unfolding call safe
  call-AllValid (sets from to rate) table ok_call v = rw (sets_table from to rate table) (
      either-AllValid (valid_rate fl rate) (Assoc.insert (key from to) rate table) table
        (λ good. insert-AllValid (key from to) rate table good v) v)
  call-AllValid (sets_pair from to rate) table ok_call v =
      let there = Assoc.insert (key from to) rate table in
      let back = Assoc.insert (key to from) (fl.div fl.one rate) there in
      rw (sets_pair_table from to rate table) (
        either-AllValid (valid_rate fl rate) back table
          (λ good.
            insert-AllValid (key to from) (fl.div fl.one rate) there (ground (arith, ok_call, good))
              (insert-AllValid (key from to) rate table good v))
          v)
  call-AllValid (loads rates) table ok_call v = elim (loads_table rates table) [
    | inl (good, e) ↦ rw e (copy-AllValid rates [] good nil-AllValid)
    | inr e ↦ rw e v
  ]

  run-AllValid :
      (cs : List (Call fl)) (table : Table fl)
      → All (λ c. safe c ≡ true) cs
      → AllValid table
      → AllValid (run_calls cs table)
  unfolding run_calls
  run-AllValid [] table oks v = v
  run-AllValid (c ∷ cs) table (ok_call, oks) v =
      run-AllValid cs (call c table) oks (call-AllValid c table ok_call v)

  got :
      (from to : String) (table : Table fl) (r : fl.Carrier)
      → get_rate fl none from to table ≡ ok r
      → (fl.one ≡ r) ⊎ (Assoc.lookup (key from to) table ≡ some r)
  unfolding get_rate
  got from to table r h = ground arith

  -- Whatever calls filled a new store, provided the way back of every pair was a valid rate, a rate that
  -- it returns is finite and positive, if 1 is.
  pub rates_valid :
      (cs : List (Call fl)) (from to : String) (r : fl.Carrier)
      → valid_rate fl fl.one ≡ true
      → All (λ c. safe c ≡ true) cs
      → get_rate fl none from to (run_calls cs []) ≡ ok r
      → valid_rate fl r ≡ true
  unfolding AllValid
  rates_valid cs from to r one oks h = elim (got from to (run_calls cs []) r h) [
    | inl e ↦ subst (λ y. valid_rate fl y ≡ true) e one
    | inr e ↦ run-AllValid cs [] oks nil-AllValid (key from to) r e
  ]

  -- SetPair of a valid rate answers in both directions at once, the way back with the reciprocal,
  -- if the two currencies differ and so do their two keys.
  pub set_pair-get :
      (from to : String) (rate : fl.Carrier) (table : Table fl)
      → valid_rate fl rate ≡ true
      → str_eq from to ≡ false
      → str_eq to from ≡ false
      → string_comparable.beq (key to from) (key from to) ≡ false
      → (get_rate fl none from to (set_pair fl from to rate table).0 ≡ ok rate)
        × (get_rate fl none to from (set_pair fl from to rate table).0 ≡ ok (fl.div fl.one rate))
  unfolding get_rate set_pair
  set_pair-get from to rate table good d d' apart = (
    ground (
      arith,
      good,
      d,
      apart,
      Assoc.lookup-insert (key to from) (key from to) (fl.div fl.one rate)
          (Assoc.insert (key from to) rate table),
      Assoc.lookup-insert (key from to) (key from to) rate table,
      beq_refl string_comparable (key from to),
    ),
    ground (
      arith,
      good,
      d',
      Assoc.lookup-insert (key to from) (key to from) (fl.div fl.one rate)
          (Assoc.insert (key from to) rate table),
      beq_refl string_comparable (key to from),
    ),
  )
