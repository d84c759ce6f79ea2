-- ===== src/WorkerPool/Draining/Ends.antt =====
-- workerpool/workerpool.go: a closed pool can always be drained, so that Wait can return.
use gopkg.Common.{
  ℕ, zero, suc, ◌≤◌, ◌≡◌, ◌∙◌, refl, sym, ap, subst, arith, inl, inr, true, List, [], ◌∷◌, none,
  some, Option-cases, Bool-cases, length, set, get_elem?, get_elem?-set, ◌==◌, ==_iff, ℤ,
}
use gopkg.WorkerPool.{
  Worker, idle, busy, exited, Pool, worker_count, new_pool, all_exited, move_worker, Move,
  worker_moves, step, run,
}
use gopkg.WorkerPool.Draining.Runs.{pool-Inv}

-- Each worker moves twice: it finishes its task, if it has one, and leaves its loop.
abbrev pub drain : ℕ → List Move
drain zero = []
drain (suc n) = worker_moves n ∷ worker_moves n ∷ drain n

-- The workers from k on are gone.
Gone : ℕ → List Worker → Type 0
Gone k ws = (i : ℕ) (x : Worker) → get_elem? ws i ≡ some x → k ≤ i → x ≡ exited

Gone-all_exited : (ws : List Worker) → Gone 0 ws → all_exited ws ≡ true
unfolding Gone all_exited
Gone-all_exited [] g = refl
Gone-all_exited (idle ∷ ws) g = absurd (ground (arith, g 0 idle refl (omega arith)))
Gone-all_exited (busy t ∷ ws) g = absurd (ground (arith, g 0 (busy t) refl (omega arith)))
Gone-all_exited (exited ∷ ws) g = Gone-all_exited ws (λ i x at le. g (suc i) x at (omega arith))

abbrev moved : Worker → Worker
moved (busy t) = idle
moved idle = exited
moved exited = exited

moved_twice : (x : Worker) → moved (moved x) ≡ exited
moved_twice idle = refl
moved_twice (busy t) = refl
moved_twice exited = refl

set_same {ℓ} :
    {A : Type ℓ} (xs : List A) (i : ℕ) (x : A) → get_elem? xs i ≡ some x → set xs i x ≡ xs
set_same [] i x h = refl
set_same (y ∷ ys) zero x h = ground (arith, h)
set_same (y ∷ ys) (suc i) x h = ap (λ zs. y ∷ zs) (set_same ys i x h)

move-workers :
    (w : ℕ) (x : Worker) (p : Pool)
    → p.closed ≡ true
    → get_elem? p.workers w ≡ some x
    → ((step (worker_moves w) p).closed ≡ true)
      × ((step (worker_moves w) p).workers ≡ set p.workers w (moved x))
unfolding step move_worker
move-workers w idle p c at = rw (at, step) (ground (arith, c), ground (arith, c))
move-workers w (busy t) p c at = rw (at, step) (c, refl)
move-workers w exited p c at = rw (at, step) (c, sym (set_same p.workers w exited at))

stay-workers : (w : ℕ) (p : Pool) → get_elem? p.workers w ≡ none → step (worker_moves w) p ≡ p
unfolding step
stay-workers w p at = rw (at, step) refl

-- Both moves of worker w, when the pool is closed.
set-Gone :
    (w : ℕ) (x : Worker) (ws : List Worker) → Gone (suc w) ws → Gone w (set (set ws w x) w exited)
unfolding Gone
set-Gone w x ws g i y at le = elim (Bool-cases (w == i)) [
  | inl same ↦ ground (arith, at, same, get_elem?-set (set ws w x) w i exited)
  | inr other ↦
      g i y
        (ground (arith, at, other, get_elem?-set (set ws w x) w i exited, get_elem?-set ws w i x))
        (ground (arith, other, le))
]

absent-Gone : (w : ℕ) (ws : List Worker) → get_elem? ws w ≡ none → Gone (suc w) ws → Gone w ws
unfolding Gone
absent-Gone w ws out g i y at le = elim (Bool-cases (w == i)) [
  | inl same ↦ absurd (ground (arith, at, out, ==_iff w i, ap (get_elem? ws) ((==_iff w i).0 same)))
  | inr other ↦ g i y at (ground (arith, other, le))
]

two_moves :
    (w : ℕ) (p : Pool)
    → p.closed ≡ true
    → Gone (suc w) p.workers
    → let q = step (worker_moves w) (step (worker_moves w) p) in
      (q.closed ≡ true) × Gone w q.workers
two_moves w p c g = elim (Option-cases (get_elem? p.workers w)) [
  | inl out ↦ rw (stay-workers w p out, stay-workers w p out) (c, absent-Gone w p.workers out g)
  | inr (x, at) ↦
      let (c', ws') = move-workers w x p c at in
      let (c'', ws'') = move-workers w (moved x) (step (worker_moves w) p) c' (
        subst (λ ws. get_elem? ws w ≡ some (moved x)) (sym ws')
          (ground (arith, at, get_elem?-set p.workers w w (moved x)))) in
      (
        c'',
        subst (Gone w)
            (sym (
              ws''
              ∙ ap (λ ws. set ws w (moved (moved x))) ws'
              ∙ ap (set (set p.workers w (moved x)) w) (moved_twice x)))
            (set-Gone w (moved x) p.workers g),
      )
]

drained :
    (n : ℕ) (p : Pool)
    → p.closed ≡ true
    → Gone n p.workers
    → all_exited (run (drain n) p).workers ≡ true
unfolding run
drained zero p c g = Gone-all_exited p.workers g
drained (suc n) p c g =
    let (c', g') = two_moves n p c g in
    drained n (step (worker_moves n) (step (worker_moves n) p)) c' g'

beyond : (n : ℕ) (ws : List Worker) → length ws ≡ n → Gone n ws
unfolding Gone
beyond n [] e i x at le = absurd (ground (arith, at))
beyond zero (w ∷ ws) e i x at le = absurd (omega (arith, e))
beyond (suc n) (w ∷ ws) e zero x at le = absurd (omega (arith, le))
beyond (suc n) (w ∷ ws) e (suc i) x at le =
    beyond n ws (omega (arith, e)) i x at (omega (arith, le))

-- Whatever happened before: once the pool is closed, two moves of each worker (the end of its task, if it
-- has one, and its leave) make all workers gone, so that every Wait that waits can return.
pub closed_can_drain :
    (workers : ℤ) (ms : List Move)
    → (run ms (new_pool workers)).closed ≡ true
    → all_exited (run (drain (worker_count workers)) (run ms (new_pool workers))).workers ≡ true
closed_can_drain workers ms c =
    let p = run ms (new_pool workers) in
    drained (worker_count workers) p c
      (beyond (worker_count workers) p.workers (pool-Inv workers ms).sized)
