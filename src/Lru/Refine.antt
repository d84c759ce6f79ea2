-- ===== src/Lru/Refine.antt =====
-- The cache as a list of keys by recency, which is what its user sees.
use gopkg.Common.{
  ℕ, zero, suc, ◌≤◌, ◌≡◌, refl, sym, ◌∙◌, ap, inl, inr, false, List, [], ◌∷◌, Option, none, some,
  arith, ltb, ◌==◌, if◌then◌else◌, ℤ, Comparable, nat_comparable, length, All, Bool-cases,
  Option-cases, take,
}
use mathlib.Core.Option
use gopkg.Common.Assoc.{lookup, delete, Distinct, delete-absent}
use gopkg.Lru.{
  Entry, Cache, back, remove, remove_oldest, set_old, set_new, find, set, get, delete_key, expiry,
  is_expired,
}
use gopkg.Lru.Invariant.{Owned, Linked, Inv, length-remove, push-Linked}
use gopkg.Lru.Methods.{find-some, find-none, lookup-back, length-back}

take_all {ℓ} : {A : Type ℓ} (n : ℕ) (xs : List A) → length xs ≤ n → take n xs ≡ xs
take_all zero [] h = refl
take_all zero (x ∷ xs) h = absurd (omega arith)
take_all (suc n) [] h = refl
take_all (suc n) (x ∷ xs) h = ap (◌∷◌ x) (take_all n xs (omega arith))

-- The expiry time that an entry had.
abbrev pub old_expiry {κ} : {V : Type κ} → Option (V × Option ℕ) → Option ℕ
old_expiry none = none
old_expiry (some (x, t)) = t

module _ {ℓ κ} {K : Type ℓ} {V : Type κ} ⦃c : Comparable K⦄ where
  abbrev pub payload : Entry K V → V × Option ℕ
  payload en = (en.value, en.expire_at)

  -- Keys with their values and expiry times, the most recently used first.
  abbrev pub view : List (ℕ × Entry K V) → List (K × (V × Option ℕ))
  view [] = []
  view ((i, en) ∷ ll) = (en.key, payload en) ∷ view ll

  pub spec_set : ℕ → ℤ → ℕ → K → V → List (K × (V × Option ℕ)) → List (K × (V × Option ℕ))
  spec_set capacity ttl now k x m =
      take capacity ((k, (x, expiry ttl now (old_expiry (lookup k m)))) ∷ delete k m)

  pub spec_get : ℤ → ℕ → K → List (K × (V × Option ℕ)) → List (K × (V × Option ℕ)) × Option V
  spec_get ttl now k m = elim (lookup k m) [
    | none ↦ (m, none)
    | some (x, t) ↦
        if is_expired ttl now t then (delete k m, none) else ((k, (x, t)) ∷ delete k m, some x)
  ]

  -- The element is the one that the map has for `k`, or neither identity nor key are its own.
  Agree : K → ℕ → ℕ × Entry K V → Type 0
  Agree k id (i, en) = (i == id) ≡ c.beq en.key k

  Owned-Agree :
      (items : List (K × ℕ)) (k : K) (id : ℕ) (x : ℕ × Entry K V)
      → lookup k items ≡ some id
      → Owned items x
      → Agree k id x
  unfolding Agree
  Owned-Agree items k id (i, en) h (has, only) = ground (arith, c.beq_iff en.key k, only k)

  view-delete :
      (items : List (K × ℕ)) (k : K) (id : ℕ) (ll : List (ℕ × Entry K V))
      → lookup k items ≡ some id
      → All (Owned items) ll
      → view (delete id ll) ≡ delete k (view ll)
  unfolding delete Agree
  view-delete items k id [] h a = refl
  view-delete items k id ((i, en) ∷ ll) h a =
      let same = Owned-Agree items k id (i, en) h a.0 in
      let rest = view-delete items k id ll h a.1 in
      elim (Bool-cases (i == id)) [
        | inl q ↦ rw (q, sym same ∙ q) rest
        | inr q ↦ rw (q, sym same ∙ q) (ap (◌∷◌ (en.key, payload en)) rest)
      ]

  lookup-view :
      (items : List (K × ℕ)) (k : K) (id : ℕ) (ll : List (ℕ × Entry K V))
      → lookup k items ≡ some id
      → All (Owned items) ll
      → lookup k (view ll) ≡ Option.map payload (lookup id ll)
  unfolding lookup Agree
  lookup-view items k id [] h a = refl
  lookup-view items k id ((i, en) ∷ ll) h a =
      let same = Owned-Agree items k id (i, en) h a.0 in
      elim (Bool-cases (i == id)) [
        | inl q ↦ rw (q, sym same ∙ q)
        | inr q ↦ rw (q, sym same ∙ q) (lookup-view items k id ll h a.1)
      ]

  lookup-view_absent :
      (items : List (K × ℕ)) (k : K) (ll : List (ℕ × Entry K V))
      → lookup k items ≡ none
      → All (Owned items) ll
      → lookup k (view ll) ≡ none
  unfolding lookup
  lookup-view_absent items k [] h a = refl
  lookup-view_absent items k ((i, en) ∷ ll) h a = elim (Bool-cases (c.beq en.key k)) [
    | inl q ↦ ground (arith, c.beq_iff en.key k, a.0.0)
    | inr q ↦ rw q (lookup-view_absent items k ll h a.1)
  ]

  view-take : (n : ℕ) (ll : List (ℕ × Entry K V)) → view (take n ll) ≡ take n (view ll)
  view-take zero ll = refl
  view-take (suc n) [] = refl
  view-take (suc n) ((i, en) ∷ ll) = ap (◌∷◌ (en.key, payload en)) (view-take n ll)

  length-view : (ll : List (ℕ × Entry K V)) → length (view ll) ≡ length ll
  length-view [] = refl
  length-view ((i, en) ∷ ll) = ap suc (length-view ll)

  delete-back :
      (n i : ℕ) (en : Entry K V) (ll : List (ℕ × Entry K V))
      → Distinct ll
      → length ll ≡ suc n
      → back ll ≡ some (i, en)
      → delete i ll ≡ take n ll
  unfolding back delete lookup
  delete-back n i en [] d m h = cc
  delete-back n i en ((j, e) ∷ []) d m h =
      let first : n ≡ 0 = omega arith in rw first (ground arith)
  delete-back zero i en ((j, e) ∷ y ∷ ll) d m h = absurd (omega arith)
  delete-back (suc n) i en ((j, e) ∷ y ∷ ll) d m h =
      let rest = delete-back n i en (y ∷ ll) d.1 (omega arith) h in
      let other : (j == i) ≡ false = ground (arith, lookup-back i en (y ∷ ll) d.1 h, d.0) in
      rw other (ap (◌∷◌ (j, e)) rest)

  view-evict :
      (s : Cache K V)
      → Linked s
      → length s.ll ≡ suc s.capacity
      → view (remove_oldest s).ll ≡ take s.capacity (view s.ll)
  unfolding remove_oldest remove
  view-evict s v n = elim (Option-cases (back s.ll)) [
    | inl e ↦ absurd (omega (arith, length-back s.ll e))
    | inr ((i, en), e) ↦
        rw (e, remove_oldest)
          (ap view (delete-back s.capacity i en s.ll v.distinct n e) ∙ view-take s.capacity s.ll)
  ]

  view-set_new :
      (s : Cache K V) (now : ℕ) (k : K) (x : V)
      → Inv s
      → lookup k s.items ≡ none
      → view (set_new now k x s).ll ≡ spec_set s.capacity s.ttl now k x (view s.ll)
  unfolding set_new spec_set
  view-set_new s now k x v absent =
      let en : Entry K V = record { key = k; value = x; expire_at = expiry s.ttl now none } in
      let l = push-Linked s k en v.linked absent refl in
      let gone = lookup-view_absent s.items k s.ll absent v.linked.owned in
      rw (gone, delete-absent k (view s.ll) gone)
        (elim (Bool-cases (ltb s.capacity (suc (length s.ll)))) [
          | inl e ↦ rw e (view-evict _ l (ground (arith, v.bounded)))
          | inr e ↦ rw e (sym (take_all s.capacity _ (ground (arith, length-view s.ll))))
        ])

  view-found :
      (s : Cache K V) (k : K) (i : ℕ) (en : Entry K V)
      → Linked s
      → find k s ≡ some (i, en)
      → (lookup k (view s.ll) ≡ some (payload en))
        × (view (delete i s.ll) ≡ delete k (view s.ll))
        × (length s.ll ≡ suc (length (view (delete i s.ll))))
        × (en.key ≡ k)
  unfolding remove
  view-found s k i en v h =
      let (has, there, same) = find-some s k i en v h in
      (
        lookup-view s.items k i s.ll has v.owned ∙ ap (Option.map payload) there,
        view-delete s.items k i s.ll has v.owned,
        omega (arith, length-remove s i en v there, length-view (delete i s.ll)),
        same,
      )

  -- Set, seen from outside: the key comes to the front with its new value, any old entry of it is
  -- gone, and what is then past the capacity at the least recent end is dropped.
  pub set-refines :
      (s : Cache K V) (now : ℕ) (k : K) (x : V)
      → Inv s
      → view (set now k x s).ll ≡ spec_set s.capacity s.ttl now k x (view s.ll)
  unfolding set set_old spec_set
  set-refines s now k x v = elim (Option-cases (find k s)) [
    | inl e ↦ rw (e, set) (unfold spec_set in view-set_new s now k x v (find-none s k v.linked e))
    | inr ((i, en), e) ↦
        let (has, rest, size, same) = view-found s k i en v.linked e in
        rw (e, set, has, ← rest, ← same) (sym (take_all s.capacity _ (omega (arith, v.bounded))))
  ]

  -- Get, seen from outside: a missing key returns nothing and changes nothing, an expired entry is
  -- dropped and returns nothing, and any other entry returns its value and comes to the front.
  pub get-refines :
      (s : Cache K V) (now : ℕ) (k : K)
      → Inv s
      → let (s', r) = get now k s in (view s'.ll, r) ≡ spec_get s.ttl now k (view s.ll)
  unfolding get spec_get remove
  get-refines s now k v = elim (Option-cases (find k s)) [
    | inl e ↦
        let gone = lookup-view_absent s.items k s.ll (find-none s k v.linked e) v.linked.owned in
        rw (e, get, gone, spec_get) refl
    | inr ((i, en), e) ↦
        let (has, rest, size, same) = view-found s k i en v.linked e in
        rw (e, get, has, spec_get)
          (elim (Bool-cases (is_expired s.ttl now en.expire_at)) [
            | inl q ↦ rw (q, ← rest) refl
            | inr q ↦ rw (q, ← rest, same) refl
          ])
  ]

  -- Delete, seen from outside: the key is gone and the others stay in their order.
  pub delete_key-refines :
      (s : Cache K V) (k : K) → Inv s → view (delete_key k s).ll ≡ delete k (view s.ll)
  unfolding delete_key remove
  delete_key-refines s k v = elim (Option-cases (find k s)) [
    | inl e ↦
        let gone = lookup-view_absent s.items k s.ll (find-none s k v.linked e) v.linked.owned in
        rw (e, delete_key, delete-absent k (view s.ll) gone) refl
    | inr ((i, en), e) ↦
        let (has, rest, size, same) = view-found s k i en v.linked e in rw (e, delete_key) rest
  ]
