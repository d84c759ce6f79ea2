-- ===== src/WorkerPool/Draining.antt =====
-- workerpool/workerpool.go: what Wait waits for.
pub mod Runs
pub mod Ends
use gopkg.Common.{
  ℕ, zero, suc, ◌+◌, ◌≤◌, ◌<◌, ◌≡◌, ◌∙◌, refl, sym, ap, subst, arith, ◌⊎◌, inl, inr, Bool, true,
  false, ◌&&◌, ◌||◌, List, [], ◌∷◌, ◌++◌, Option, none, some, Option-cases, Bool-cases,
  if◌then◌else◌, length, set, get_elem?, All, set-All, append-All, elem-All, ◌==◌, ==_iff, ℤ,
}
use gopkg.WorkerPool.{
  Worker, idle, busy, exited, Kind, submit, submit_ctx, Caller, entering, sending, accepted,
  err_closed, cancelled, panicked, wait_entering, waiting, joined, already_closed, Pool,
  idle_workers, worker_count, new_pool, refusal, put_caller, hand_over, send, all_exited,
  move_caller, cancel, move_worker, Move, calls, calls_wait, caller_moves, context_ends,
  worker_moves, step, run,
}

-- How often a task stands in a list, and how many workers run it.
abbrev pub count : ℕ → List ℕ → ℕ
count t [] = 0
count t (u ∷ us) = if t == u then suc (count t us) else count t us

abbrev pub running : ℕ → List Worker → ℕ
running t [] = 0
running t (busy u ∷ ws) = if t == u then suc (running t ws) else running t ws
running t (_ ∷ ws) = running t ws

-- A Wait that has joined the workers found them gone.
abbrev pub Rested : List Worker → Caller → Type 0
Rested ws joined = all_exited ws ≡ true
Rested ws _ = Unit

pub record Inv (n : ℕ) (p : Pool) : Type 0 where
  pub sized : length p.workers ≡ n
  pub accounted : (t : ℕ) → count t p.taken ≡ count t p.done + running t p.workers
  pub rested : All (Rested p.workers) p.callers

pub idle-running : (t n : ℕ) → running t (idle_workers n) ≡ 0
unfolding idle_workers
idle-running t zero = refl
idle-running t (suc n) = idle-running t n

pub length-idle_workers : (n : ℕ) → length (idle_workers n) ≡ n
unfolding idle_workers
length-idle_workers zero = refl
length-idle_workers (suc n) = ap suc (length-idle_workers n)

pub exited-running : (t : ℕ) (ws : List Worker) → all_exited ws ≡ true → running t ws ≡ 0
unfolding all_exited
exited-running t [] h = refl
exited-running t (idle ∷ ws) h = absurd (ground (arith, h))
exited-running t (busy u ∷ ws) h = absurd (ground (arith, h))
exited-running t (exited ∷ ws) h = exited-running t ws h

pub start-running :
    (t u w : ℕ) (ws : List Worker)
    → get_elem? ws w ≡ some idle
    → running t (set ws w (busy u)) ≡ (if t == u then suc (running t ws) else running t ws)
start-running t u w [] h = absurd (ground (arith, h))
start-running t u zero (idle ∷ ws) h = refl
start-running t u zero (busy v ∷ ws) h = absurd (ground (arith, h))
start-running t u zero (exited ∷ ws) h = absurd (ground (arith, h))
start-running t u (suc w) (idle ∷ ws) h = start-running t u w ws h
start-running t u (suc w) (busy v ∷ ws) h = ground (arith, start-running t u w ws h)
start-running t u (suc w) (exited ∷ ws) h = start-running t u w ws h

pub finish-running :
    (t u w : ℕ) (ws : List Worker)
    → get_elem? ws w ≡ some (busy u)
    → running t ws ≡ (if t == u then suc (running t (set ws w idle)) else running t (set ws w idle))
finish-running t u w [] h = absurd (ground (arith, h))
finish-running t u zero (idle ∷ ws) h = absurd (ground (arith, h))
finish-running t u zero (busy v ∷ ws) h = ground (arith, h)
finish-running t u zero (exited ∷ ws) h = absurd (ground (arith, h))
finish-running t u (suc w) (idle ∷ ws) h = finish-running t u w ws h
finish-running t u (suc w) (busy v ∷ ws) h = ground (arith, finish-running t u w ws h)
finish-running t u (suc w) (exited ∷ ws) h = finish-running t u w ws h

pub exit-running :
    (t w : ℕ) (ws : List Worker)
    → get_elem? ws w ≡ some idle
    → running t (set ws w exited) ≡ running t ws
exit-running t w [] h = refl
exit-running t zero (idle ∷ ws) h = refl
exit-running t zero (busy v ∷ ws) h = absurd (ground (arith, h))
exit-running t zero (exited ∷ ws) h = refl
exit-running t (suc w) (idle ∷ ws) h = exit-running t w ws h
exit-running t (suc w) (busy v ∷ ws) h = ground (arith, exit-running t w ws h)
exit-running t (suc w) (exited ∷ ws) h = exit-running t w ws h

-- A worker that is not gone cannot stand among workers that all are.
pub not_all :
    (w : ℕ) (x : Worker) (ws : List Worker)
    → get_elem? ws w ≡ some x
    → all_exited ws ≡ true
    → x ≡ exited
unfolding all_exited
not_all w x [] h e = absurd (ground (arith, h))
not_all w x (idle ∷ ws) h e = absurd (ground (arith, e))
not_all w x (busy u ∷ ws) h e = absurd (ground (arith, e))
not_all zero x (exited ∷ ws) h e = ground (arith, h)
not_all (suc w) x (exited ∷ ws) h e = not_all w x ws h e
