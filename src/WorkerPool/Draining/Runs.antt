-- ===== src/WorkerPool/Draining/Runs.antt =====
-- workerpool/workerpool.go: every move keeps the account of the tasks; Wait returns only when they are done.
use gopkg.Common.{
  ℕ, ◌+◌, ◌≡◌, ◌∙◌, refl, sym, ap, arith, inl, inr, Bool, true, false, List, [], ◌∷◌, some,
  Option-cases, if◌then◌else◌, set, get_elem?, length-set, All, set-All, append-All, elem-All, ℤ,
}
use gopkg.WorkerPool.{
  Worker, idle, busy, exited, Kind, submit, submit_ctx, Caller, entering, sending, accepted,
  err_closed, cancelled, panicked, wait_entering, waiting, joined, already_closed, Pool,
  worker_count, new_pool, refusal, put_caller, hand_over, send, all_exited, move_caller, cancel,
  move_worker, Move, calls, calls_wait, caller_moves, context_ends, worker_moves, step, run,
}
use gopkg.WorkerPool.Draining.{
  count, Rested, Inv, idle-running, length-idle_workers, exited-running, start-running,
  finish-running, exit-running, not_all,
}

-- While some worker is not gone, no Wait has returned, so the workers may change.
stirred-Rested :
    (ws ws' : List Worker) (w : ℕ) (x : Worker) (c : Caller)
    → get_elem? ws w ≡ some x
    → (x ≡ exited → true ≡ false)
    → Rested ws c
    → Rested ws' c
stirred-Rested ws ws' w x (entering k t) at live r = tt
stirred-Rested ws ws' w x (sending k t) at live r = tt
stirred-Rested ws ws' w x accepted at live r = tt
stirred-Rested ws ws' w x err_closed at live r = tt
stirred-Rested ws ws' w x cancelled at live r = tt
stirred-Rested ws ws' w x panicked at live r = tt
stirred-Rested ws ws' w x wait_entering at live r = tt
stirred-Rested ws ws' w x waiting at live r = tt
stirred-Rested ws ws' w x joined at live r = absurd (ground (arith, live (not_all w x ws at r)))
stirred-Rested ws ws' w x already_closed at live r = tt

all-Rested :
    (ws ws' : List Worker) (w : ℕ) (x : Worker) (cs : List Caller)
    → get_elem? ws w ≡ some x
    → (x ≡ exited → true ≡ false)
    → All (Rested ws) cs
    → All (Rested ws') cs
all-Rested ws ws' w x [] at live v = tt
all-Rested ws ws' w x (c ∷ cs) at live (v, vs) =
    (stirred-Rested ws ws' w x c at live v, all-Rested ws ws' w x cs at live vs)

put-Inv :
    (n i : ℕ) (c : Caller) (p : Pool) → Rested p.workers c → Inv n p → Inv n (put_caller i c p)
unfolding put_caller
put-Inv n i c p r v = record {
  sized = v.sized;
  accounted = v.accounted;
  rested = set-All (Rested p.workers) p.callers i c r v.rested;
}

hand_over-Inv :
    (n i w task : ℕ) (x : Worker) (p : Pool)
    → get_elem? p.workers w ≡ some x
    → Inv n p
    → Inv n (hand_over i w task x p)
unfolding hand_over put_caller
hand_over-Inv n i w task idle p at v = record {
  sized = length-set p.workers w (busy task) ∙ v.sized;
  accounted = λ t. ground (arith, v.accounted t, start-running t task w p.workers at);
  rested =
      all-Rested p.workers (set p.workers w (busy task)) w idle (set p.callers i accepted) at
        (λ e. ground (arith, e)) (set-All (Rested p.workers) p.callers i accepted tt v.rested);
}
hand_over-Inv n i w task (busy u) p at v = v
hand_over-Inv n i w task exited p at v = v

send-Inv : (n i w task : ℕ) (p : Pool) → Inv n p → Inv n (send i w task p)
unfolding send
send-Inv n i w task p v = elim (Option-cases (get_elem? p.workers w)) [
  | inl e ↦ rw (e, send) v
  | inr (x, e) ↦ rw (e, send) (hand_over-Inv n i w task x p e v)
]

either-Rested :
    (ws : List Worker) (b : Bool) (c d : Caller)
    → Rested ws c
    → Rested ws d
    → Rested ws (if b then c else d)
either-Rested ws true c d r s = r
either-Rested ws false c d r s = s

refusal-Rested : (ws : List Worker) (k : Kind) → Rested ws (refusal k)
unfolding refusal
refusal-Rested ws submit = tt
refusal-Rested ws submit_ctx = tt

either-Inv :
    (n : ℕ) (b : Bool) (p q : Pool) → (b ≡ true → Inv n p) → Inv n q → Inv n (if b then p else q)
either-Inv n true p q v w = v refl
either-Inv n false p q v w = w

move_caller-Inv : (n i w : ℕ) (c : Caller) (p : Pool) → Inv n p → Inv n (move_caller i w c p)
unfolding move_caller
move_caller-Inv n i w (entering k task) p v =
    put-Inv n i (if p.closed then refusal k else sending k task) p
      (either-Rested p.workers p.closed (refusal k) (sending k task) (refusal-Rested p.workers k)
        tt)
      v
move_caller-Inv n i w (sending k task) p v =
    either-Inv n p.closed (put_caller i panicked p) (send i w task p)
      (λ e. put-Inv n i panicked p tt v) (send-Inv n i w task p v)
move_caller-Inv n i w accepted p v = v
move_caller-Inv n i w err_closed p v = v
move_caller-Inv n i w cancelled p v = v
move_caller-Inv n i w panicked p v = v
move_caller-Inv n i w wait_entering p v =
    either-Inv n p.closed (put_caller i already_closed p)
      (record (put_caller i waiting p) { closed = true }) (λ e. put-Inv n i already_closed p tt v)
      (let u = put-Inv n i waiting p tt v in
        record { sized = u.sized; accounted = u.accounted; rested = u.rested })
move_caller-Inv n i w waiting p v =
    either-Inv n (all_exited p.workers) (put_caller i joined p) p (λ e. put-Inv n i joined p e v) v
move_caller-Inv n i w joined p v = v
move_caller-Inv n i w already_closed p v = v

cancel-Inv : (n i : ℕ) (c : Caller) (p : Pool) → Inv n p → Inv n (cancel i c p)
unfolding cancel
cancel-Inv n i (sending submit_ctx task) p v = put-Inv n i cancelled p tt v
cancel-Inv n i (sending submit task) p v = v
cancel-Inv n i (entering k task) p v = v
cancel-Inv n i accepted p v = v
cancel-Inv n i err_closed p v = v
cancel-Inv n i cancelled p v = v
cancel-Inv n i panicked p v = v
cancel-Inv n i wait_entering p v = v
cancel-Inv n i waiting p v = v
cancel-Inv n i joined p v = v
cancel-Inv n i already_closed p v = v

move_worker-Inv :
    (n w : ℕ) (x : Worker) (p : Pool)
    → get_elem? p.workers w ≡ some x
    → Inv n p
    → Inv n (move_worker w x p)
unfolding move_worker
move_worker-Inv n w (busy task) p at v = record {
  sized = length-set p.workers w idle ∙ v.sized;
  accounted = λ t. ground (arith, v.accounted t, finish-running t task w p.workers at);
  rested =
      all-Rested p.workers (set p.workers w idle) w (busy task) p.callers at
        (λ e. ground (arith, e)) v.rested;
}
move_worker-Inv n w idle p at v =
    either-Inv n p.closed (record p { workers = set p.workers w exited }) p
      (λ e. record {
        sized = length-set p.workers w exited ∙ v.sized;
        accounted =
            λ t. v.accounted t ∙ ap (λ r. count t p.done + r) (sym (exit-running t w p.workers at));
        rested =
            all-Rested p.workers (set p.workers w exited) w idle p.callers at
              (λ e. ground (arith, e)) v.rested;
      })
      v
move_worker-Inv n w exited p at v = v

step-Inv : (n : ℕ) (m : Move) (p : Pool) → Inv n p → Inv n (step m p)
unfolding step
step-Inv n (calls k task) p v = record {
  sized = v.sized;
  accounted = v.accounted;
  rested = append-All (Rested p.workers) p.callers (entering k task ∷ []) v.rested (tt, tt);
}
step-Inv n calls_wait p v = record {
  sized = v.sized;
  accounted = v.accounted;
  rested = append-All (Rested p.workers) p.callers (wait_entering ∷ []) v.rested (tt, tt);
}
step-Inv n (caller_moves i w) p v = elim (Option-cases (get_elem? p.callers i)) [
  | inl e ↦ rw (e, step) v
  | inr (c, e) ↦ rw (e, step) (move_caller-Inv n i w c p v)
]
step-Inv n (context_ends i) p v = elim (Option-cases (get_elem? p.callers i)) [
  | inl e ↦ rw (e, step) v
  | inr (c, e) ↦ rw (e, step) (cancel-Inv n i c p v)
]
step-Inv n (worker_moves w) p v = elim (Option-cases (get_elem? p.workers w)) [
  | inl e ↦ rw (e, step) v
  | inr (x, e) ↦ rw (e, step) (move_worker-Inv n w x p e v)
]

run-Inv_from : (n : ℕ) (ms : List Move) (p : Pool) → Inv n p → Inv n (run ms p)
unfolding run
run-Inv_from n [] p v = v
run-Inv_from n (m ∷ ms) p v = run-Inv_from n ms (step m p) (step-Inv n m p v)

new-Inv : (workers : ℤ) → Inv (worker_count workers) (new_pool workers)
unfolding new_pool
new-Inv workers = record {
  sized = length-idle_workers (worker_count workers);
  accounted = λ t. omega (arith, idle-running t (worker_count workers));
  rested = tt;
}

-- Whatever the interleaving, the pool has as many workers as New started, each task has been taken as
-- often as it has finished or runs on a worker, and once a Wait has joined, every worker is gone.
pub pool-Inv :
    (workers : ℤ) (ms : List Move) → Inv (worker_count workers) (run ms (new_pool workers))
pool-Inv workers ms = run-Inv_from (worker_count workers) ms (new_pool workers) (new-Inv workers)

-- When the Wait that closed the pool has returned, each task that a worker ever took has finished as
-- often as it was taken, whatever happened before.
pub joined_all_done :
    (workers : ℤ) (ms : List Move) (i t : ℕ)
    → get_elem? (run ms (new_pool workers)).callers i ≡ some joined
    → count t (run ms (new_pool workers)).taken ≡ count t (run ms (new_pool workers)).done
joined_all_done workers ms i t at =
    let p = run ms (new_pool workers) in
    let v = pool-Inv workers ms in
    ground (
      arith,
      v.accounted t,
      exited-running t p.workers (elem-All (Rested p.workers) p.callers i joined at v.rested),
    )
