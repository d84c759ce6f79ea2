-- ===== src/Slicex/Laws.antt =====
-- slicex/slicex.go: filtering, searching, splitting and chunking.
use gopkg.Common.{
  ℕ, zero, suc, ◌≤◌, ◌<◌, ◌≡◌, refl, ap, arith, Bool, true, false, List, [], ◌∷◌, ◌++◌,
  if◌then◌else◌, Bool-cases, inl, inr, length, drop, length-take, length-drop, take-append-drop,
  some, is_some, All,
}
use gopkg.Slicex.{filter, partition_from, partition, any, all, find, chunk_from, chunk}

module _ {ℓ} {A : Type ℓ} where
  pub concat : List (List A) → List A
  concat [] = []
  concat (xs ∷ xss) = xs ++ concat xss

  pub snoc_append : (xs : List A) (v : A) (ys : List A) → (xs ++ v ∷ []) ++ ys ≡ xs ++ v ∷ ys
  snoc_append [] v ys = refl
  snoc_append (x ∷ xs) v ys = ap (λ r. x ∷ r) (snoc_append xs v ys)

  pub append_nil : (xs : List A) → xs ++ [] ≡ xs
  append_nil [] = refl
  append_nil (x ∷ xs) = ap (λ r. x ∷ r) (append_nil xs)

  pub not : (A → Bool) → A → Bool
  not p x = if p x then false else true

  partition_from_filters :
      (xs : List A) (keep : A → Bool) (kept dropped : List A)
      → partition_from xs keep kept dropped
        ≡ (kept ++ filter xs keep, dropped ++ filter xs (not keep))
  unfolding partition_from filter not
  partition_from_filters [] keep kept dropped = rw (append_nil kept, append_nil dropped)
  partition_from_filters (v ∷ rest) keep kept dropped = elim (Bool-cases (keep v)) [
    | inl h ↦ rw (
      h,
      partition_from_filters rest keep (kept ++ v ∷ []) dropped,
      snoc_append kept v (filter rest keep),
    )
    | inr h ↦ rw (
      h,
      partition_from_filters rest keep kept (dropped ++ v ∷ []),
      snoc_append dropped v (filter rest (not keep)),
    )
  ]

  chunk_from_covers :
      (fuel : ℕ) (xs : List A) (n : ℕ) → length xs ≤ fuel → concat (chunk_from fuel xs (suc n)) ≡ xs
  unfolding chunk_from concat
  chunk_from_covers zero [] n h = refl
  chunk_from_covers zero (x ∷ xs) n h = absurd (omega arith)
  chunk_from_covers (suc fuel) [] n h = refl
  chunk_from_covers (suc fuel) (x ∷ xs) n h = rw (
    chunk_from_covers fuel (drop n xs) n (omega (arith, length-drop n xs)),
    take-append-drop n xs,
  )

  -- Partition returns the elements that Filter keeps and those that it drops, each in their order.
  pub partition-filter :
      (xs : List A) (keep : A → Bool) → partition xs keep ≡ (filter xs keep, filter xs (not keep))
  unfolding partition
  partition-filter xs keep = partition_from_filters xs keep [] []

  chunk_from_sizes :
      (fuel : ℕ) (xs : List A) (n : ℕ)
      → All (λ c. (0 < length c) × (length c ≤ suc n)) (chunk_from fuel xs (suc n))
  unfolding chunk_from
  chunk_from_sizes zero xs n = tt
  chunk_from_sizes (suc fuel) [] n = tt
  chunk_from_sizes (suc fuel) (x ∷ xs) n =
      ((omega arith, omega (arith, length-take n xs)), chunk_from_sizes fuel (drop n xs) n)

  -- Chunk of a positive size succeeds; its chunks in order make up the slice, and each has at least
  -- one element and at most the size asked for.
  pub chunk_covers :
      (xs : List A) (n : ℕ)
      → 0 < n
      → (chunks : List (List A)) × (chunk xs n ≡ some chunks)
        × (concat chunks ≡ xs)
        × All (λ c. (0 < length c) × (length c ≤ n)) chunks
  unfolding chunk
  chunk_covers xs zero h = absurd (omega arith)
  chunk_covers xs (suc n) h = (
    chunk_from (length xs) xs (suc n),
    refl,
    chunk_from_covers (length xs) xs n (omega arith),
    chunk_from_sizes (length xs) xs n,
  )

  -- Find succeeds exactly when Any does, with an element that the predicate holds of; All is Any of
  -- the negation, negated.
  pub searches_agree :
      (xs : List A) (pred : A → Bool)
      → (any xs pred ≡ is_some (find xs pred))
        × ((v : A) → find xs pred ≡ some v → pred v ≡ true)
        × (all xs pred ≡ (if any xs (not pred) then false else true))
  unfolding any all find not
  searches_agree [] pred = (refl, (λ v h. ground arith), refl)
  searches_agree (x ∷ xs) pred = ground (arith, searches_agree xs pred)
