-- ===== src/WorkerPool/Examples.antt =====
-- workerpool/workerpool.go: a pool of two workers, run, and the theorems at it.
use gopkg.Common.{◌≡◌, refl, List, [], ◌∷◌, ◌++◌, some, true, get_elem?, pos}
use gopkg.WorkerPool.{
  submit, submit_ctx, err_closed, panicked, joined, already_closed, worker_count, new_pool,
  all_exited, Move, calls, calls_wait, caller_moves, worker_moves, run,
}
use gopkg.WorkerPool.Draining.{count}
use gopkg.WorkerPool.Draining.Runs.{joined_all_done}
use gopkg.WorkerPool.Draining.Ends.{drain, closed_can_drain}

-- Two tasks are handed over, then Wait closes the pool.
abbrev two_tasks : List Move
two_tasks =
    calls submit 10
    ∷ calls submit_ctx 20
    ∷ caller_moves 0 0
    ∷ caller_moves 0 1
    ∷ caller_moves 1 0
    ∷ caller_moves 1 0
    ∷ worker_moves 1
    ∷ calls_wait
    ∷ caller_moves 2 0
    ∷ []

abbrev waited : List Move
waited =
    two_tasks
    ++ worker_moves 0 ∷ caller_moves 2 0 ∷ worker_moves 0 ∷ worker_moves 1 ∷ caller_moves 2 0 ∷ []

two_running : (run two_tasks (new_pool (pos 2))).taken ≡ 20 ∷ 10 ∷ []
unfolding run new_pool
two_running = refl

closed_by_wait : (run two_tasks (new_pool (pos 2))).closed ≡ true
unfolding run new_pool
closed_by_wait = refl

wait_joined : get_elem? (run waited (new_pool (pos 2))).callers 2 ≡ some joined
unfolding run new_pool
wait_joined = refl

-- A second Wait returns while the first one waits.
second_wait :
    get_elem? (run (two_tasks ++ calls_wait ∷ caller_moves 3 0 ∷ []) (new_pool (pos 2))).callers 3
    ≡ some already_closed
unfolding run new_pool
second_wait = refl

late_submit_ctx :
    get_elem?
      (run (two_tasks ++ calls submit_ctx 30 ∷ caller_moves 3 0 ∷ []) (new_pool (pos 2))).callers
      3
    ≡ some err_closed
unfolding run new_pool
late_submit_ctx = refl

-- A SubmitCtx that has passed the check when Wait closes the channel panics.
overtaken_submit_ctx :
    get_elem?
      (run
        (calls submit_ctx 10
          ∷ caller_moves 0 0
          ∷ calls_wait
          ∷ caller_moves 1 0
          ∷ caller_moves 0 0
          ∷ [])
        (new_pool (pos 0))).callers
      0
    ≡ some panicked
unfolding run new_pool
overtaken_submit_ctx = refl

joined_all_done_example :
    count 10 (run waited (new_pool (pos 2))).taken ≡ count 10 (run waited (new_pool (pos 2))).done
joined_all_done_example = joined_all_done (pos 2) waited 2 10 wait_joined

closed_can_drain_example :
    all_exited (run (drain (worker_count (pos 2))) (run two_tasks (new_pool (pos 2)))).workers
    ≡ true
closed_can_drain_example = closed_can_drain (pos 2) two_tasks closed_by_wait
