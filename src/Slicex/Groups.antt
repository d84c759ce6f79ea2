-- ===== src/Slicex/Groups.antt =====
-- slicex/slicex.go: deduplicating and grouping.
use gopkg.Common.{
  ◌≡◌, refl, arith, true, false, List, [], ◌∷◌, ◌++◌, if◌then◌else◌, Bool-cases, inl, inr,
  Comparable,
}
use gopkg.Common.Assoc
use gopkg.Slicex.{filter, seen, unique_from, unique, group, group_by_from, group_by}
use gopkg.Slicex.Laws.{snoc_append, append_nil}

module _ {ℓ} {A : Type ℓ} ⦃c : Comparable A⦄ where
  seen-snoc :
      (v w : A) (xs : List A) → seen v (xs ++ w ∷ []) ≡ (if seen v xs then true else c.beq w v)
  unfolding seen
  seen-snoc v w [] = ground arith
  seen-snoc v w (x ∷ xs) = ground (arith, seen-snoc v w xs)

  -- No element stands twice.
  pub NoRepeats : List A → Type 0
  NoRepeats [] = Unit
  NoRepeats (x ∷ xs) = (seen x xs ≡ false) × NoRepeats xs

  snoc-NoRepeats :
      (xs : List A) (v : A) → NoRepeats xs → seen v xs ≡ false → NoRepeats (xs ++ v ∷ [])
  unfolding NoRepeats seen
  snoc-NoRepeats [] v d h = (refl, tt)
  snoc-NoRepeats (x ∷ xs) v d h =
      ground (arith, snoc-NoRepeats xs v, seen-snoc x v xs, c.beq_iff x v, c.beq_iff v x)

  unique_from-NoRepeats : (xs out : List A) → NoRepeats out → NoRepeats (unique_from xs out)
  unfolding unique_from
  unique_from-NoRepeats [] out d = d
  unique_from-NoRepeats (v ∷ rest) out d = elim (Bool-cases (seen v out)) [
    | inl h ↦ rw (h) (unique_from-NoRepeats rest out d)
    | inr h ↦ rw (h) (unique_from-NoRepeats rest (out ++ v ∷ []) (snoc-NoRepeats out v d h))
  ]

  seen-unique_from :
      (xs out : List A) (v : A)
      → seen v (unique_from xs out) ≡ (if seen v out then true else seen v xs)
  unfolding unique_from seen
  seen-unique_from [] out v = ground arith
  seen-unique_from (w ∷ rest) out v = elim (Bool-cases (seen w out)) [
    | inl h ↦ rw (h) ground (arith, seen-unique_from rest out v, c.beq_iff w v)
    | inr h ↦ rw (h) ground (arith, seen-unique_from rest (out ++ w ∷ []) v, seen-snoc v w out)
  ]

  -- Unique keeps exactly the elements of the slice, each once.
  pub unique-seen :
      (xs : List A) → NoRepeats (unique xs) × ((v : A) → seen v (unique xs) ≡ seen v xs)
  unfolding unique NoRepeats seen
  unique-seen xs = (unique_from-NoRepeats xs [] tt, λ v. seen-unique_from xs [] v)

module _ {ℓ κ} {A : Type ℓ} {K : Type κ} ⦃c : Comparable K⦄ where
  group-insert :
      (k j : K) (vs : List A) (out : List (K × List A))
      → group j (Assoc.insert k vs out) ≡ (if c.beq k j then vs else group j out)
  unfolding group
  group-insert k j vs out = ground (arith, Assoc.lookup-insert k j vs out)

  group_by_from_lem :
      (xs : List A) (key_fn : A → K) (out : List (K × List A)) (k : K)
      → group k (group_by_from xs key_fn out) ≡ group k out ++ filter xs (λ v. c.beq (key_fn v) k)
  unfolding group_by_from filter
  group_by_from_lem [] key_fn out k = rw (append_nil (group k out))
  group_by_from_lem (v ∷ rest) key_fn out k =
      let vs = group (key_fn v) out ++ v ∷ [] in
      let rest_lem = group_by_from_lem rest key_fn (Assoc.insert (key_fn v) vs out) k in
      elim (Bool-cases (c.beq (key_fn v) k)) [
        | inl h ↦ rw (
          rest_lem,
          group-insert (key_fn v) k vs out,
          h,
          (c.beq_iff (key_fn v) k).0 h,
          snoc_append (group k out) v (filter rest (λ w. c.beq (key_fn w) k)),
        )
        | inr h ↦ rw (rest_lem, group-insert (key_fn v) k vs out, h)
      ]

  group_by_from-Distinct :
      (xs : List A) (key_fn : A → K) (out : List (K × List A))
      → Assoc.Distinct out
      → Assoc.Distinct (group_by_from xs key_fn out)
  unfolding group_by_from
  group_by_from-Distinct [] key_fn out d = d
  group_by_from-Distinct (v ∷ rest) key_fn out d =
      group_by_from-Distinct rest key_fn
        (Assoc.insert (key_fn v) (group (key_fn v) out ++ v ∷ []) out)
        (Assoc.insert-Distinct (key_fn v) (group (key_fn v) out ++ v ∷ []) out d)

  -- GroupBy makes a map: the group of a key is the elements with that key, in their order.
  pub group_by_groups :
      (xs : List A) (key_fn : A → K)
      → Assoc.Distinct (group_by xs key_fn)
        × ((k : K) → group k (group_by xs key_fn) ≡ filter xs (λ v. c.beq (key_fn v) k))
  unfolding group_by group Assoc.lookup
  group_by_groups xs key_fn =
      (group_by_from-Distinct xs key_fn [] tt, λ k. group_by_from_lem xs key_fn [] k)
