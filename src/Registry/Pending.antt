-- ===== src/Registry/Pending.antt =====
-- PendingQueue: registering later is registering in order.
use gopkg.Common.{
  suc, ◌≡◌, refl, sym, ap, ◌∙◌, true, false, List, [], ◌∷◌, ◌++◌, Option, length, append-nil,
  append_assoc, arith,
}
use gopkg.Registry.{PendingQueue, empty_queue, add, flush, run_pending}

module _ {ℓ} {E : Type 0} {R : Type ℓ} where
  pub add_all : List (R → R × Option E) → PendingQueue E R × R → PendingQueue E R × R
  add_all [] s = s
  add_all (fn ∷ fns) s = add_all fns (add fn s)

  -- The functions called one after the other on a registry.
  pub apply_all : List (R → R × Option E) → R → R
  apply_all [] r = r
  apply_all (fn ∷ fns) r = apply_all fns (fn r).0

  abbrev waiting : List (R → R × Option E) → PendingQueue E R
  waiting ps = record { flushed = false; pending = ps }

  abbrev done : PendingQueue E R
  done = record { flushed = true; pending = [] }

  waits :
      (fns ps : List (R → R × Option E)) (r : R)
      → add_all fns (waiting ps, r) ≡ (waiting (ps ++ fns), r)
  unfolding add_all add
  waits [] ps r = simp append-nil
  waits (fn ∷ fns) ps r = waits fns (ps ++ fn ∷ []) r ∙ simp append_assoc

  passes : (fns : List (R → R × Option E)) (r : R) → add_all fns (done, r) ≡ (done, apply_all fns r)
  unfolding add_all add apply_all
  passes [] r = refl
  passes (fn ∷ fns) r = passes fns (fn r).0

  run_pending-apply_all :
      (fns : List (R → R × Option E)) (r : R) → (run_pending fns r).0 ≡ apply_all fns r
  unfolding run_pending apply_all
  run_pending-apply_all [] r = refl
  run_pending-apply_all (fn ∷ fns) r = run_pending-apply_all fns (fn r).0

  length-run_pending :
      (fns : List (R → R × Option E)) (r : R) → length (run_pending fns r).1 ≡ length fns
  unfolding run_pending
  length-run_pending [] r = refl
  length-run_pending (fn ∷ fns) r = ap suc (length-run_pending fns (fn r).0)

  apply_all-append :
      (xs ys : List (R → R × Option E)) (r : R)
      → apply_all (xs ++ ys) r ≡ apply_all ys (apply_all xs r)
  unfolding apply_all
  apply_all-append [] ys r = refl
  apply_all-append (fn ∷ xs) ys r = apply_all-append xs ys (fn r).0

  -- Functions added before the flush wait and leave the registry alone; the flush calls them in the
  -- order in which they were added and returns one result for each; functions added afterwards are
  -- called at once. So the registry ends as if all had been called in that order.
  pub deferred_in_order :
      (before after : List (R → R × Option E)) (r : R)
      → let (q, r') = add_all before (empty_queue, r) in
        let (s, errs) = flush (q, r') in
        (r' ≡ r)
        × (errs ≡ (run_pending before r).1)
        × (length errs ≡ length before)
        × ((add_all after s).1 ≡ apply_all (before ++ after) r)
  unfolding flush empty_queue
  deferred_in_order before after r = rw (waits before [] r) (
    refl,
    refl,
    length-run_pending before r,
    ap (λ s. s.1) (passes after (run_pending before r).0)
        ∙ ap (apply_all after) (run_pending-apply_all before r)
        ∙ sym (apply_all-append before after r),
  )

  -- A second flush calls nothing, changes nothing and returns no results.
  pub flush_twice :
      (s : PendingQueue E R × R) (later : R)
      → flush ((flush s).0.0, later) ≡ (((flush s).0.0, later), [])
  unfolding flush
  flush_twice (q, r) later = ground arith
