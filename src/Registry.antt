-- ===== src/Registry.antt =====
-- registry/registry.go: a keyed registry, and the queue of registrations that wait for it. The mutex
-- makes a method atomic. The order of Go's map is undefined; the order of the association list
-- stands for one such order. A queue's target is the registry itself, shared with its other users,
-- so the queue keeps only whether it was flushed and its functions act on the registry passed in.
pub mod Laws
pub mod Pending
mod Examples
use gopkg.Common.{
  ℕ, Bool, true, false, List, [], ◌∷◌, ◌++◌, Option, none, some, if◌then◌else◌, Comparable, length,
  Result, ok, err,
}
use gopkg.Common.Assoc.{keys}
use gopkg.Common.Assoc

pub data Error : Type 0 where
  already_registered not_found : Error

pub record Registry {ℓ κ} (K : Type ℓ) (V : Type κ) : Type (ℓ ⊔ κ) where
  pub entries : List (K × V)

module _ {ℓ κ} {K : Type ℓ} {V : Type κ} ⦃c : Comparable K⦄ where
  pub new : Registry K V
  new = record { entries = [] }

  pub register : K → V → Registry K V → Registry K V × Option Error
  register k v r = elim (Assoc.lookup k r.entries) [
    | some _ ↦ (r, some already_registered)
    | none ↦ (record { entries = Assoc.insert k v r.entries }, none)
  ]

  -- The previous value, if there was one.
  pub replace : K → V → Registry K V → Registry K V × Option V
  replace k v r = (record { entries = Assoc.insert k v r.entries }, Assoc.lookup k r.entries)

  pub get : K → Registry K V → Result Error V
  get k r = elim (Assoc.lookup k r.entries) [ none ↦ err not_found | some v ↦ ok v ]

  pub lookup : K → Registry K V → Option V
  lookup k r = Assoc.lookup k r.entries

  pub delete : K → Registry K V → Registry K V × Bool
  delete k r = elim (Assoc.lookup k r.entries) [
    | none ↦ (r, false)
    | some _ ↦ (record { entries = Assoc.delete k r.entries }, true)
  ]

  pub keys_of : Registry K V → List K
  keys_of r = keys r.entries

  pub len : Registry K V → ℕ
  len r = length r.entries

-- The calls that change a registry.
pub data Call {ℓ κ} (K : Type ℓ) (V : Type κ) : Type (ℓ ⊔ κ) where
  registers replaces : K → V → Call K V
  deletes : K → Call K V

module _ {ℓ κ} {K : Type ℓ} {V : Type κ} ⦃c : Comparable K⦄ where
  pub step : Registry K V → Call K V → Registry K V
  unfolding register replace delete
  step r (registers k v) = (register k v r).0
  step r (replaces k v) = (replace k v r).0
  step r (deletes k) = (delete k r).0

  pub run : Registry K V → List (Call K V) → Registry K V
  run r [] = r
  run r (a ∷ as') = run (step r a) as'

-- The loop of `Range`: the entries on which `fn` is called.
pub visit {ℓ κ} : {K : Type ℓ} {V : Type κ} → (K → V → Bool) → List (K × V) → List (K × V)
visit fn [] = []
visit fn ((k, v) ∷ m) = let rest = visit fn m in (k, v) ∷ (if fn k v then rest else [])

pub range {ℓ κ} : {K : Type ℓ} {V : Type κ} → (K → V → Bool) → Registry K V → List (K × V)
unfolding visit
range fn r = visit fn r.entries

-- PendingQueue. A queued function changes the registry and may return an error of any type.
pub record PendingQueue {ℓ} (E : Type 0) (R : Type ℓ) : Type ℓ where
  pub flushed : Bool
  pub pending : List (R → R × Option E)

module _ {ℓ} {E : Type 0} {R : Type ℓ} where
  pub empty_queue : PendingQueue E R
  empty_queue = record { flushed = false; pending = [] }

  pub add : (R → R × Option E) → PendingQueue E R × R → PendingQueue E R × R
  add fn (q, r) =
      if q.flushed then (q, (fn r).0) else (record q { pending = q.pending ++ fn ∷ [] }, r)

  -- The loop of `Flush`.
  pub run_pending : List (R → R × Option E) → R → R × List (Option E)
  run_pending [] r = (r, [])
  run_pending (fn ∷ fns) r =
      let (r', e) = fn r in let (r'', es) = run_pending fns r' in (r'', e ∷ es)

  pub flush : PendingQueue E R × R → (PendingQueue E R × R) × List (Option E)
  unfolding run_pending
  flush (q, r) =
      let (r', es) = run_pending q.pending r in
      if q.flushed then ((q, r), []) else ((record { flushed = true; pending = [] }, r'), es)
