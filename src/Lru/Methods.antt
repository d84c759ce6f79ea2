-- ===== src/Lru/Methods.antt =====
-- Every method of the cache keeps the invariant.
use gopkg.Common.{
  ℕ, suc, ◌≤◌, ◌≡◌, refl, inl, inr, List, [], ◌∷◌, none, some, arith, ltb, ℤ, Comparable,
  nat_comparable, length, Bool-cases, Option-cases,
}
use gopkg.Common.Assoc.{lookup, Distinct}
use gopkg.Lru.{
  Entry, Cache, new, back, to_front, remove, remove_oldest, set_old, set_new, find, set, get,
  delete_key, expiry, is_expired, Call, sets, gets, deletes, clears, step, run,
}
use gopkg.Lru.Invariant.{
  Owned, Linked, Inv, new-Inv, clear-Inv, All-lookup, remove-Linked, length-remove, to_front-Linked,
  push-Linked,
}

pub length-back {κ} : {A : Type κ} (xs : List A) → back xs ≡ none → length xs ≡ 0
unfolding back
length-back [] h = refl
length-back (x ∷ []) h = cc
length-back (x ∷ y ∷ xs) h = absurd (omega (arith, length-back (y ∷ xs) h))

module _ {ℓ κ} {K : Type ℓ} {V : Type κ} ⦃c : Comparable K⦄ where
  pub lookup-back :
      (i : ℕ) (en : Entry K V) (ll : List (ℕ × Entry K V))
      → Distinct ll
      → back ll ≡ some (i, en)
      → lookup i ll ≡ some en
  unfolding back lookup
  lookup-back i en [] d h = cc
  lookup-back i en ((j, e) ∷ []) d h = ground arith
  lookup-back i en ((j, e) ∷ y ∷ ll) d h = ground (arith, lookup-back i en (y ∷ ll) d.1 h, d.0)

  -- What the map and the list say of a key that is found, and of one that is not.
  pub find-some :
      (s : Cache K V) (k : K) (i : ℕ) (en : Entry K V)
      → Linked s
      → find k s ≡ some (i, en)
      → (lookup k s.items ≡ some i) × (lookup i s.ll ≡ some en) × (en.key ≡ k)
  unfolding find
  find-some s k i en v h =
      let has : lookup k s.items ≡ some i = ground arith in
      let at : lookup i s.ll ≡ some en = ground arith in
      (has, at, (c.beq_iff en.key k).0 ((All-lookup (Owned s.items) i en s.ll v.owned at).1 k has))

  pub find-none : (s : Cache K V) (k : K) → Linked s → find k s ≡ none → lookup k s.items ≡ none
  unfolding find
  find-none s k v h = elim (Option-cases (lookup k s.items)) [
    | inl e ↦ e
    | inr (i, e) ↦ ground (arith, v.found k i e)
  ]

  remove-Inv :
      (s : Cache K V) (i : ℕ) (en : Entry K V)
      → Inv s
      → lookup i s.ll ≡ some en
      → Inv (remove i en s)
  unfolding remove
  remove-Inv s i en v h = record {
    linked = remove-Linked s i en v.linked h;
    bounded = omega (arith, length-remove s i en v.linked h);
    roomy = v.roomy;
  }

  to_front-Inv :
      (s : Cache K V) (i : ℕ) (en en' : Entry K V)
      → Inv s
      → lookup i s.ll ≡ some en
      → en'.key ≡ en.key
      → Inv (record s { ll = to_front i en' s.ll })
  unfolding remove
  to_front-Inv s i en en' v h same = record {
    linked = to_front-Linked s i en en' v.linked h same;
    bounded = omega (arith, length-remove s i en v.linked h);
    roomy = v.roomy;
  }

  -- One element too many, and the oldest goes.
  evict-Inv :
      (s : Cache K V)
      → Linked s
      → length s.ll ≡ suc s.capacity
      → 1 ≤ s.capacity
      → Inv (remove_oldest s)
  unfolding remove_oldest remove
  evict-Inv s v n r = elim (Option-cases (back s.ll)) [
    | inl e ↦ absurd (omega (arith, length-back s.ll e))
    | inr ((i, en), e) ↦
        rw (e, remove_oldest)
          (record {
            linked = remove-Linked s i en v (lookup-back i en s.ll v.distinct e);
            bounded = omega (arith, length-remove s i en v (lookup-back i en s.ll v.distinct e));
            roomy = r;
          })
  ]

  set_new-Inv :
      (s : Cache K V) (now : ℕ) (k : K) (x : V)
      → Inv s
      → lookup k s.items ≡ none
      → Inv (set_new now k x s)
  unfolding set_new
  set_new-Inv s now k x v absent =
      let en : Entry K V = record { key = k; value = x; expire_at = expiry s.ttl now none } in
      let l = push-Linked s k en v.linked absent refl in
      elim (Bool-cases (ltb s.capacity (suc (length s.ll)))) [
        | inl e ↦ rw e (evict-Inv _ l (ground (arith, v.bounded)) v.roomy)
        | inr e ↦ rw e (record { linked = l; bounded = ground arith; roomy = v.roomy })
      ]

  set-Inv : (s : Cache K V) (now : ℕ) (k : K) (x : V) → Inv s → Inv (set now k x s)
  unfolding set set_old
  set-Inv s now k x v = elim (Option-cases (find k s)) [
    | inl e ↦ rw (e, set) (set_new-Inv s now k x v (find-none s k v.linked e))
    | inr ((i, en), e) ↦
        rw (e, set) (to_front-Inv s i en _ v (find-some s k i en v.linked e).1 refl)
  ]

  get-Inv : (s : Cache K V) (now : ℕ) (k : K) → Inv s → Inv (get now k s).0
  unfolding get
  get-Inv s now k v = elim (Option-cases (find k s)) [
    | inl e ↦ rw (e, get) v
    | inr ((i, en), e) ↦
        let has = (find-some s k i en v.linked e).1 in
        rw (e, get)
          (elim (Bool-cases (is_expired s.ttl now en.expire_at)) [
            | inl x ↦ rw x (remove-Inv s i en v has)
            | inr x ↦ rw x (to_front-Inv s i en en v has refl)
          ])
  ]

  delete_key-Inv : (s : Cache K V) (k : K) → Inv s → Inv (delete_key k s)
  unfolding delete_key
  delete_key-Inv s k v = elim (Option-cases (find k s)) [
    | inl e ↦ rw (e, delete_key) v
    | inr ((i, en), e) ↦ rw (e, delete_key) (remove-Inv s i en v (find-some s k i en v.linked e).1)
  ]

  pub step-Inv : (s : Cache K V) (a : Call K V) → Inv s → Inv (step s a)
  unfolding step
  step-Inv s (sets now k x) v = set-Inv s now k x v
  step-Inv s (gets now k) v = get-Inv s now k v
  step-Inv s (deletes k) v = delete_key-Inv s k v
  step-Inv s clears v = clear-Inv s v

  pub run_from-Inv : (s : Cache K V) (as' : List (Call K V)) → Inv s → Inv (run s as')
  unfolding run
  run_from-Inv s [] v = v
  run_from-Inv s (a ∷ as') v = run_from-Inv (step s a) as' (step-Inv s a v)

  -- Whatever is called on a new cache, its list and its map agree: each element is the one that the
  -- map has for its key and for no other, every key of the map has an element in the list, no
  -- element stands twice, and there are at most as many elements as the capacity, which is positive.
  pub run-new-Inv : (capacity ttl : ℤ) (as' : List (Call K V)) → Inv (run (new capacity ttl) as')
  run-new-Inv capacity ttl as' = run_from-Inv (new capacity ttl) as' (new-Inv capacity ttl)
