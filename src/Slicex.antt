-- ===== src/Slicex.antt =====
-- slicex/slicex.go: the generic slice helpers. A nil slice and an empty one are both []; a map that
-- is only tested for membership is the list of its keys.
pub mod Laws
pub mod Groups
mod Examples
use gopkg.Common.{
  ℕ, zero, suc, ◌+◌, ◌-◌, Bool, true, false, List, [], ◌∷◌, ◌++◌, ltb, if◌then◌else◌, length, take,
  drop, Option, none, some, Comparable,
}
use gopkg.Common.Assoc

module _ {ℓ} {A : Type ℓ} where
  -- The loop appends to `out`: the kept elements stand in their order.
  pub filter : List A → (A → Bool) → List A
  filter [] keep = []
  filter (v ∷ rest) keep = let out = filter rest keep in if keep v then v ∷ out else out

  pub reduce {κ} : {R : Type κ} → List A → R → (R → A → R) → R
  reduce [] acc fn = acc
  reduce (v ∷ rest) acc fn = reduce rest (fn acc v) fn

  -- The loop of Partition, with its two named results.
  pub partition_from : List A → (A → Bool) → List A → List A → List A × List A
  partition_from [] keep kept dropped = (kept, dropped)
  partition_from (v ∷ rest) keep kept dropped =
      partition_from rest keep (if keep v then kept ++ v ∷ [] else kept)
        (if keep v then dropped else dropped ++ v ∷ [])

  pub partition : List A → (A → Bool) → List A × List A
  unfolding partition_from
  partition xs keep = partition_from xs keep [] []

  pub any : List A → (A → Bool) → Bool
  any [] pred = false
  any (v ∷ rest) pred = if pred v then true else any rest pred

  pub all : List A → (A → Bool) → Bool
  all [] pred = true
  all (v ∷ rest) pred = if pred v then all rest pred else false

  pub find : List A → (A → Bool) → Option A
  find [] pred = none
  find (v ∷ rest) pred = if pred v then some v else find rest pred

  -- The loop of Chunk from one index on, on what is left of the slice. Each round takes at least one
  -- element, so the length is enough fuel.
  pub chunk_from : ℕ → List A → ℕ → List (List A)
  chunk_from zero xs n = []
  chunk_from (suc fuel) [] n = []
  chunk_from (suc fuel) (x ∷ xs) n = take n (x ∷ xs) ∷ chunk_from fuel (drop n (x ∷ xs)) n

  -- `none` is the panic.
  pub chunk : List A → ℕ → Option (List (List A))
  unfolding chunk_from
  chunk xs zero = none
  chunk xs (suc n) = some (chunk_from (length xs) xs (suc n))

module _ {ℓ} {A : Type ℓ} ⦃c : Comparable A⦄ where
  pub seen : A → List A → Bool
  seen v [] = false
  seen v (w ∷ ws) = if c.beq w v then true else seen v ws

  -- The loop of Unique; `out` is in order, and holds the keys of `seen`.
  pub unique_from : List A → List A → List A
  unfolding seen
  unique_from [] out = out
  unique_from (v ∷ rest) out = unique_from rest (if seen v out then out else out ++ v ∷ [])

  pub unique : List A → List A
  unfolding unique_from
  unique xs = unique_from xs []

module _ {ℓ κ} {A : Type ℓ} {K : Type κ} ⦃c : Comparable K⦄ where
  -- `out[k]` of a missing key is the nil slice.
  pub group : K → List (K × List A) → List A
  unfolding Assoc.lookup
  group k out = elim (Assoc.lookup k out) [ none ↦ [] | some vs ↦ vs ]

  pub group_by_from : List A → (A → K) → List (K × List A) → List (K × List A)
  unfolding group Assoc.insert
  group_by_from [] key_fn out = out
  group_by_from (v ∷ rest) key_fn out =
      group_by_from rest key_fn (Assoc.insert (key_fn v) (group (key_fn v) out ++ v ∷ []) out)

  pub group_by : List A → (A → K) → List (K × List A)
  unfolding group_by_from
  group_by xs key_fn = group_by_from xs key_fn []
