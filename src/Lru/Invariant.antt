-- ===== src/Lru/Invariant.antt =====
-- The list and the map of a cache agree, and the cache keeps its capacity.
use gopkg.Common.{
  ℕ, suc, ◌≤◌, ◌<◌, ◌≡◌, refl, subst, inl, inr, true, false, List, [], ◌∷◌, Option, none, some,
  arith, ◌==◌, ==_iff, ℤ, Comparable, nat_comparable, beq_refl, length, All, is_some, Bool-cases,
}
use gopkg.Common.Assoc.{
  lookup, insert, delete, Distinct, lookup-insert, lookup-delete, delete-Distinct, length-delete,
}
use gopkg.Lru.{Entry, Cache, new, to_front, remove, clear}

module _ {ℓ κ} {K : Type ℓ} {V : Type κ} ⦃c : Comparable K⦄ where
  -- An element is the one that the map has for its key, and for no other key.
  abbrev pub Owned : List (K × ℕ) → ℕ × Entry K V → Type ℓ
  Owned items (i, en) =
      (lookup en.key items ≡ some i) × ((k : K) → lookup k items ≡ some i → c.beq en.key k ≡ true)

  abbrev pub Below : ℕ → ℕ × Entry K V → Type 0
  Below n (i, en) = i < n

  pub record Linked (s : Cache K V) : Type (ℓ ⊔ κ) where
    pub owned : All (Owned s.items) s.ll
    pub distinct : Distinct s.ll
    pub found : (k : K) (i : ℕ) → lookup k s.items ≡ some i → is_some (lookup i s.ll) ≡ true
    pub fresh : All (Below s.next_element) s.ll

  pub record Inv (s : Cache K V) : Type (ℓ ⊔ κ) where
    pub linked : Linked s
    pub bounded : length s.ll ≤ s.capacity
    pub roomy : 1 ≤ s.capacity

  empty-Linked : (s : Cache K V) → s.ll ≡ [] → s.items ≡ [] → Linked s
  unfolding lookup
  empty-Linked s e f = record {
    owned = rw e tt;
    distinct = rw e tt;
    found = λ k i h. absurd (no_entry k i (rw f at h));
    fresh = rw e tt;
  }
    where
      no_entry : (k : K) (i : ℕ) → ◌≡◌ {A = Option ℕ} (lookup k []) (some i) → ⊥
      no_entry k i h = cc

  pub new-Inv : (capacity ttl : ℤ) → Inv (new capacity ttl)
  unfolding new
  new-Inv capacity ttl = record {
    linked = empty-Linked (new capacity ttl) refl refl;
    bounded = omega arith;
    roomy = ground arith;
  }

  pub clear-Inv : (s : Cache K V) → Inv s → Inv (clear s)
  unfolding clear
  clear-Inv s v = record {
    linked = empty-Linked (clear s) refl refl;
    bounded = omega arith;
    roomy = v.roomy;
  }

  All-delete {μ} :
      (P : ℕ × Entry K V → Type μ) (i : ℕ) (ll : List (ℕ × Entry K V))
      → All P ll
      → All P (delete i ll)
  unfolding delete
  All-delete P i [] a = a
  All-delete P i ((j, en) ∷ ll) a = elim (Bool-cases (j == i)) [
    | inl e ↦ rw e (All-delete P i ll a.1)
    | inr e ↦ rw e (a.0, All-delete P i ll a.1)
  ]

  pub All-lookup {μ} :
      (P : ℕ × Entry K V → Type μ) (i : ℕ) (en : Entry K V) (ll : List (ℕ × Entry K V))
      → All P ll
      → lookup i ll ≡ some en
      → P (i, en)
  unfolding lookup
  All-lookup P i en [] a h = cc
  All-lookup P i en ((j, e) ∷ ll) a h = elim (Bool-cases (j == i)) [
    | inl q ↦
        let h' : some e ≡ some en = rw q at h in
        let same : e ≡ en = cc in
        subst (λ x. P (x, en)) ((==_iff j i).0 q) (subst (λ y. P (j, y)) same a.0)
    | inr q ↦ All-lookup P i en ll a.1 (rw q at h)
  ]

  All-impl {μ ν} :
      (P : ℕ × Entry K V → Type μ) (Q : ℕ × Entry K V → Type ν) (ll : List (ℕ × Entry K V))
      → ((x : ℕ × Entry K V) → P x → Q x)
      → All P ll
      → All Q ll
  All-impl P Q [] f a = tt
  All-impl P Q (x ∷ ll) f a = (f x a.0, All-impl P Q ll f a.1)

  -- Which elements survive when the entry of an owned key is dropped.
  Owned-delete :
      (items : List (K × ℕ)) (i : ℕ) (en : Entry K V) (x : ℕ × Entry K V)
      → Owned items (i, en)
      → (x.0 == i) ≡ false
      → Owned items x
      → Owned (delete en.key items) x
  Owned-delete items i en (j, e) o ne (has, only) = (
    ground (arith, lookup-delete en.key e.key items, c.beq_iff en.key e.key, o.0),
    λ k h. ground (arith, lookup-delete en.key k items, only k),
  )

  Owned-insert :
      (items : List (K × ℕ)) (k : K) (n : ℕ) (x : ℕ × Entry K V)
      → lookup k items ≡ none
      → Below n x
      → Owned items x
      → Owned (insert k n items) x
  Owned-insert items k n (j, e) absent low (has, only) = (
    ground (arith, lookup-insert k e.key n items, c.beq_iff k e.key),
    λ k' h. ground (arith, lookup-insert k k' n items, only k'),
  )

  survivors :
      (items : List (K × ℕ)) (i : ℕ) (en : Entry K V) (ll : List (ℕ × Entry K V))
      → Owned items (i, en)
      → All (Owned items) ll
      → All (Owned (delete en.key items)) (delete i ll)
  unfolding delete
  survivors items i en [] o a = tt
  survivors items i en ((j, e) ∷ ll) o a = elim (Bool-cases (j == i)) [
    | inl q ↦ rw q (survivors items i en ll o a.1)
    | inr q ↦ rw q (Owned-delete items i en (j, e) o q a.0, survivors items i en ll o a.1)
  ]

  pub remove-Linked :
      (s : Cache K V) (i : ℕ) (en : Entry K V)
      → Linked s
      → lookup i s.ll ≡ some en
      → Linked (remove i en s)
  unfolding remove
  remove-Linked s i en v h =
      let o = All-lookup (Owned s.items) i en s.ll v.owned h in
      record {
        owned = survivors s.items i en s.ll o v.owned;
        distinct = delete-Distinct i s.ll v.distinct;
        found = λ k j f.
            ground
              (arith, lookup-delete en.key k s.items, lookup-delete i j s.ll, v.found k j, o.1 k);
        fresh = All-delete (Below s.next_element) i s.ll v.fresh;
      }

  pub length-remove :
      (s : Cache K V) (i : ℕ) (en : Entry K V)
      → Linked s
      → lookup i s.ll ≡ some en
      → length s.ll ≡ suc (length (remove i en s).ll)
  unfolding remove
  length-remove s i en v h = ground (arith, length-delete i s.ll v.distinct)

  pub to_front-Linked :
      (s : Cache K V) (i : ℕ) (en en' : Entry K V)
      → Linked s
      → lookup i s.ll ≡ some en
      → en'.key ≡ en.key
      → Linked (record s { ll = to_front i en' s.ll })
  unfolding lookup
  to_front-Linked s i en en' v h same =
      let o = All-lookup (Owned s.items) i en s.ll v.owned h in
      record {
        owned = (rw same o, All-delete (Owned s.items) i s.ll v.owned);
        distinct = (ground (arith, lookup-delete i i s.ll), delete-Distinct i s.ll v.distinct);
        found = λ k j f. ground (arith, lookup-delete i j s.ll, v.found k j);
        fresh = (
          All-lookup (Below s.next_element) i en s.ll v.fresh h,
          All-delete (Below s.next_element) i s.ll v.fresh,
        );
      }

  above : (n i : ℕ) (ll : List (ℕ × Entry K V)) → All (Below n) ll → n ≤ i → lookup i ll ≡ none
  unfolding lookup
  above n i [] a h = refl
  above n i ((j, e) ∷ ll) a h = ground (arith, above n i ll a.1 h, a.0)

  Below-suc : (n : ℕ) (ll : List (ℕ × Entry K V)) → All (Below n) ll → All (Below (suc n)) ll
  Below-suc n [] a = tt
  Below-suc n ((j, e) ∷ ll) a = (let low : j < n = a.0 in omega arith, Below-suc n ll a.1)

  elders :
      (items : List (K × ℕ)) (k : K) (n : ℕ) (ll : List (ℕ × Entry K V))
      → lookup k items ≡ none
      → All (Below n) ll
      → All (Owned items) ll
      → All (Owned (insert k n items)) ll
  elders items k n [] absent b a = tt
  elders items k n (x ∷ ll) absent b a =
      (Owned-insert items k n x absent b.0 a.0, elders items k n ll absent b.1 a.1)

  pub push-Linked :
      (s : Cache K V) (k : K) (en : Entry K V)
      → Linked s
      → lookup k s.items ≡ none
      → en.key ≡ k
      → Linked (record s {
        ll = (s.next_element, en) ∷ s.ll;
        items = insert k s.next_element s.items;
        next_element = suc s.next_element;
      })
  unfolding lookup
  push-Linked s k en v absent same =
      let n = s.next_element in
      record {
        owned = (
          (
            ground (arith, lookup-insert k en.key n s.items, beq_refl c k),
            λ k' h. ground (
              arith,
              lookup-insert k k' n s.items,
              v.found k' n,
              above n n s.ll v.fresh (omega arith),
            ),
          ),
          elders s.items k n s.ll absent v.fresh v.owned,
        );
        distinct = (above n n s.ll v.fresh (omega arith), v.distinct);
        found = λ k' i h. ground (arith, lookup-insert k k' n s.items, v.found k' i);
        fresh = (omega arith, Below-suc n s.ll v.fresh);
      }
