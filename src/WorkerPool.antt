-- ===== src/WorkerPool.antt =====
-- workerpool/workerpool.go: the pool, its workers and its callers as threads that move in any order. The
-- channel has no buffer: a send is one move of the caller and of an idle worker together. A task is a
-- number; its panic is swallowed, so that finishing covers both its ends. A move that is not possible
-- where the pool stands does nothing.
pub mod Draining
mod Examples
use gopkg.Common.{
  ℕ, zero, suc, Bool, true, false, not, ◌&&◌, List, [], ◌∷◌, ◌++◌, Option, none, some, String,
  if◌then◌else◌, ltb_ℤ, ℤ, pos, pos_part, set, get_elem?, ◌==◌, ◌||◌,
}

pub data Worker : Type 0 where
  idle : Worker
  busy : ℕ → Worker
  exited : Worker

-- Submit has no context; SubmitCtx has one, and says ErrClosed where Submit panics.
pub data Kind : Type 0 where
  submit submit_ctx : Kind

-- Where a call of Submit, SubmitCtx or Wait stands: before the mutex, blocked in the send or in wg.Wait,
-- or at its end.
pub data Caller : Type 0 where
  entering : Kind → ℕ → Caller
  sending : Kind → ℕ → Caller
  accepted : Caller
  err_closed : Caller
  cancelled : Caller
  panicked : Caller
  wait_entering : Caller
  waiting : Caller
  joined : Caller
  already_closed : Caller

-- `taken` and `done` are the tasks that a worker has taken and finished.
pub record Pool : Type 0 where
  pub workers : List Worker
  pub closed : Bool
  pub callers : List Caller
  pub taken : List ℕ
  pub done : List ℕ

unfoldable pub idle_workers : ℕ → List Worker
idle_workers zero = []
idle_workers (suc n) = idle ∷ idle_workers n

-- `if workers < 1 { workers = 1 }`
unfoldable pub worker_count : ℤ → ℕ
worker_count workers = if ltb_ℤ workers (pos 1) then 1 else pos_part workers

unfoldable pub new_pool : ℤ → Pool
unfolding idle_workers worker_count
new_pool workers = record {
  workers = idle_workers (worker_count workers);
  closed = false;
  callers = [];
  taken = [];
  done = [];
}

-- The check under the mutex.
unfoldable pub refusal : Kind → Caller
refusal submit = panicked
refusal submit_ctx = err_closed

unfoldable pub put_caller : ℕ → Caller → Pool → Pool
put_caller i c p = record p { callers = set p.callers i c }

-- The send meets the receive of worker w.
unfoldable pub hand_over : ℕ → ℕ → ℕ → Worker → Pool → Pool
unfolding put_caller
hand_over i w task idle p = record (put_caller i accepted p) {
  workers = set p.workers w (busy task);
  taken = task ∷ p.taken;
}
hand_over i w task _ p = p

unfoldable pub send : ℕ → ℕ → ℕ → Pool → Pool
unfolding hand_over
send i w task p = elim (get_elem? p.workers w) [ none ↦ p | some x ↦ hand_over i w task x p ]

unfoldable pub all_exited : List Worker → Bool
all_exited [] = true
all_exited (exited ∷ ws) = all_exited ws
all_exited (_ ∷ ws) = false

-- A caller moves on; `w` is the worker that it meets if it sends. A send on the closed channel panics.
unfoldable pub move_caller : ℕ → ℕ → Caller → Pool → Pool
unfolding refusal put_caller send all_exited
move_caller i w (entering k task) p =
    put_caller i (if p.closed then refusal k else sending k task) p
move_caller i w (sending k task) p = if p.closed then put_caller i panicked p else send i w task p
move_caller i w wait_entering p =
    if p.closed
    then put_caller i already_closed p
    else record (put_caller i waiting p) { closed = true }
move_caller i w waiting p = if all_exited p.workers then put_caller i joined p else p
move_caller i w _ p = p

-- The context of a blocked SubmitCtx ends.
unfoldable pub cancel : ℕ → Caller → Pool → Pool
unfolding put_caller
cancel i (sending submit_ctx task) p = put_caller i cancelled p
cancel i _ p = p

-- A worker finishes its task; an idle one leaves its loop when the channel is closed.
unfoldable pub move_worker : ℕ → Worker → Pool → Pool
move_worker w (busy task) p = record p { workers = set p.workers w idle; done = task ∷ p.done }
move_worker w idle p = if p.closed then record p { workers = set p.workers w exited } else p
move_worker w exited p = p

pub data Move : Type 0 where
  calls : Kind → ℕ → Move
  calls_wait : Move
  caller_moves : ℕ → ℕ → Move
  context_ends : ℕ → Move
  worker_moves : ℕ → Move

unfoldable pub step : Move → Pool → Pool
unfolding move_caller cancel move_worker
step (calls k task) p = record p { callers = p.callers ++ entering k task ∷ [] }
step calls_wait p = record p { callers = p.callers ++ wait_entering ∷ [] }
step (caller_moves i w) p = elim (get_elem? p.callers i) [ none ↦ p | some c ↦ move_caller i w c p ]
step (context_ends i) p = elim (get_elem? p.callers i) [ none ↦ p | some c ↦ cancel i c p ]
step (worker_moves w) p = elim (get_elem? p.workers w) [ none ↦ p | some x ↦ move_worker w x p ]

unfoldable pub run : List Move → Pool → Pool
unfolding step
run [] p = p
run (m ∷ ms) p = run ms (step m p)
