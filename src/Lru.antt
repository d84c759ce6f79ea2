-- ===== src/Lru.antt =====
-- cache/lru/lru.go. `ll` is container/list, front first: each element has an identity (a number
-- that stands for the *list.Element) beside its entry. `items` maps a key to the identity of its
-- element, so the two structures can disagree, and that they do not is the invariant.
-- Times are nanoseconds; `expire_at` is `none` for the zero time. The mutex makes a method atomic.
pub mod Invariant
pub mod Methods
pub mod Refine
mod Examples
use gopkg.Common.{
  ℕ, suc, ◌+◌, Bool, true, false, List, [], ◌∷◌, Option, none, some, ltb, leb, if◌then◌else◌, ℤ,
  pos, pos_part, ltb_ℤ, Comparable, nat_comparable, length,
}
use gopkg.Common.Assoc
use gopkg.Common.Assoc.{lookup, insert, delete}

pub record Entry {ℓ κ} (K : Type ℓ) (V : Type κ) : Type (ℓ ⊔ κ) where
  pub key : K
  pub value : V
  pub expire_at : Option ℕ

pub record Cache {ℓ κ} (K : Type ℓ) (V : Type κ) : Type (ℓ ⊔ κ) where
  pub capacity : ℕ
  pub ttl : ℤ
  pub ll : List (ℕ × Entry K V)
  pub items : List (K × ℕ)
  pub next_element : ℕ

-- list.Back
pub back {ℓ} : {A : Type ℓ} → List A → Option A
back [] = none
back (x ∷ []) = some x
back (x ∷ y ∷ xs) = back (y ∷ xs)

-- `now.Add(c.ttl)`, if there is a ttl.
abbrev pub expiry : ℤ → ℕ → Option ℕ → Option ℕ
expiry ttl now old = if ltb_ℤ (pos 0) ttl then some (now + pos_part ttl) else old

-- `!en.expireAt.IsZero() && c.now().After(en.expireAt)`, behind the test of the ttl.
abbrev pub past : ℕ → Option ℕ → Bool
past now none = false
past now (some t) = ltb t now

abbrev pub is_expired : ℤ → ℕ → Option ℕ → Bool
is_expired ttl now e = if ltb_ℤ (pos 0) ttl then past now e else false

-- The methods as calls, each with the time that it reads.
pub data Call {ℓ κ} (K : Type ℓ) (V : Type κ) : Type (ℓ ⊔ κ) where
  sets : ℕ → K → V → Call K V
  gets : ℕ → K → Call K V
  deletes : K → Call K V
  clears : Call K V

module _ {ℓ κ} {K : Type ℓ} {V : Type κ} ⦃c : Comparable K⦄ where
  pub new : ℤ → ℤ → Cache K V
  new capacity ttl = record {
    capacity = if ltb_ℤ capacity (pos 1) then 1 else pos_part capacity;
    ttl = ttl;
    ll = [];
    items = [];
    next_element = 0;
  }

  -- list.MoveToFront, of an element with the given entry.
  abbrev pub to_front : ℕ → Entry K V → List (ℕ × Entry K V) → List (ℕ × Entry K V)
  to_front id en ll = (id, en) ∷ delete id ll

  pub remove : ℕ → Entry K V → Cache K V → Cache K V
  remove id en s = record s { items = delete en.key s.items; ll = delete id s.ll }

  pub remove_oldest : Cache K V → Cache K V
  unfolding remove
  remove_oldest s = elim (back s.ll) [ none ↦ s | some (id, en) ↦ remove id en s ]

  -- The two branches of `Set`.
  pub set_old : ℕ → V → ℕ → Entry K V → Cache K V → Cache K V
  set_old now v id en s =
      let en' = record en { value = v; expire_at = expiry s.ttl now en.expire_at } in
      record s { ll = to_front id en' s.ll }

  pub set_new : ℕ → K → V → Cache K V → Cache K V
  unfolding remove_oldest
  set_new now k v s =
      let en : Entry K V = record { key = k; value = v; expire_at = expiry s.ttl now none } in
      let s' = record s {
        ll = (s.next_element, en) ∷ s.ll;
        items = insert k s.next_element s.items;
        next_element = suc s.next_element;
      } in
      if ltb s.capacity (length s'.ll) then remove_oldest s' else s'

  -- `c.items[key]`, with the entry of the element.
  pub find : K → Cache K V → Option (ℕ × Entry K V)
  find k s = elim (lookup k s.items) [
    | none ↦ none
    | some id ↦ elim (lookup id s.ll) [ none ↦ none | some en ↦ some (id, en) ]
  ]

  pub set : ℕ → K → V → Cache K V → Cache K V
  unfolding find
  set now k v s = elim (find k s) [
    | none ↦ set_new now k v s
    | some (id, en) ↦ set_old now v id en s
  ]

  pub get : ℕ → K → Cache K V → Cache K V × Option V
  unfolding find remove
  get now k s = elim (find k s) [
    | none ↦ (s, none)
    | some (id, en) ↦
        if is_expired s.ttl now en.expire_at
        then (remove id en s, none)
        else (record s { ll = to_front id en s.ll }, some en.value)
  ]

  pub delete_key : K → Cache K V → Cache K V
  unfolding find remove
  delete_key k s = elim (find k s) [ none ↦ s | some (id, en) ↦ remove id en s ]

  pub len : Cache K V → ℕ
  len s = length s.ll

  pub clear : Cache K V → Cache K V
  clear s = record s { ll = []; items = [] }

  pub step : Cache K V → Call K V → Cache K V
  unfolding set get delete_key clear
  step s (sets now k x) = set now k x s
  step s (gets now k) = (get now k s).0
  step s (deletes k) = delete_key k s
  step s clears = clear s

  pub run : Cache K V → List (Call K V) → Cache K V
  run s [] = s
  run s (a ∷ as') = run (step s a) as'
