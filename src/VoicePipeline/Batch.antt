-- ===== src/VoicePipeline/Batch.antt =====
-- voice/pipeline/pipeline.go, dispatchToolCalls: the goroutines of one batch of tool calls. A schedule
-- says in which order they start and finish and when a frame of the hold filler comes; a move that is
-- not possible where it stands does nothing.
pub mod Order
use gopkg.Common.{
  ℕ, zero, suc, ◌+◌, ◌-◌, ◌≡◌, Bool, true, false, ◌&&◌, ◌||◌, List, [], ◌∷◌, ◌++◌, ltb, ◌==◌,
  if◌then◌else◌, length, get_elem?, set, Option, none, some,
}
use gopkg.VoicePipeline.{
  Frame, Error, tool_executor_panicked, ToolCall, ToolResult, Outcome, returned, panicked, Action,
  sent, Env,
}

abbrev pub member : ℕ → List ℕ → Bool
member i [] = false
member i (j ∷ js) = i == j || member i js

pub remove : ℕ → List ℕ → List ℕ
remove i [] = []
remove i (j ∷ js) = let rest = remove i js in if i == j then rest else j ∷ rest

module _ {D : Type 0} where
  -- The zero value of ToolResult.
  abbrev pub zero_result : ToolResult D
  zero_result = record { call_id = ""; result = none; err = none }

  pub zero_results : List (ToolCall D) → List (ToolResult D)
  zero_results [] = []
  zero_results (c ∷ cs) = zero_result ∷ zero_results cs

  -- What a goroutine writes: the outcome of its call, a panic included.
  pub result_of : ToolCall D → Outcome D → ToolResult D
  result_of call (returned data_ e) = record { call_id = call.id; result = data_; err = e }
  result_of call (panicked r) = record {
    call_id = call.id;
    result = none;
    err = some (tool_executor_panicked r);
  }

-- `started` counts the goroutines that were started; `running` holds those that hold the semaphore.
-- The watchdog pumps the filler after its delay, until the pump ends.
pub data Filler : Type 0 where
  waiting pumping stopped : Filler

pub record Batch (D : Type 0) : Type 0 where
  pub started : ℕ
  pub running : List ℕ
  pub results : List (ToolResult D)
  pub filler : Filler
  pub log : List (Action D)

pub data Move : Type 0 where
  start : Move
  finish : ℕ → Move
  delay_over : Move
  filler_frame : Frame → Move
  filler_end : Move

module _ {D : Type 0} (env : Env D) (tool_concurrency : ℕ) (calls : List (ToolCall D)) where
  unfoldable pub start_next : Batch D → Batch D
  start_next b =
      if ltb (length b.running) tool_concurrency && ltb b.started (length calls)
      then record b { started = suc b.started; running = b.started ∷ b.running }
      else b

  unfoldable pub write_result : ℕ → ToolCall D → Batch D → Batch D
  unfolding remove result_of
  write_result i call b = record b {
    running = remove i b.running;
    results = set b.results i (result_of call (env.execute b.log i call));
  }

  unfoldable pub finish_call : ℕ → Batch D → Batch D
  unfolding write_result
  finish_call i b = elim (get_elem? calls i) [
    | none ↦ b
    | some call ↦ if member i b.running then write_result i call b else b
  ]

  -- pumpHoldFiller: a frame that cannot be sent ends it.
  unfoldable pub pump : Frame → Batch D → Batch D
  pump f b = elim (env.send b.log f) [
    | none ↦ record b { log = b.log ++ sent f ∷ [] }
    | some e ↦ record b { log = b.log ++ sent f ∷ []; filler = stopped }
  ]

  unfoldable pub move_filler : Move → Filler → Batch D → Batch D
  unfolding pump
  move_filler delay_over waiting b = record b { filler = pumping }
  move_filler (filler_frame f) pumping b = pump f b
  move_filler filler_end pumping b = record b { filler = stopped }
  move_filler _ _ b = b

  unfoldable pub move : Move → Batch D → Batch D
  unfolding start_next finish_call move_filler
  move start b = start_next b
  move (finish i) b = finish_call i b
  move m b = move_filler m b.filler b

  unfoldable pub moves : List Move → Batch D → Batch D
  unfolding move
  moves [] b = b
  moves (m ∷ ms) b = moves ms (move m b)

  -- `wg.Wait()` returns when all calls were started and none is running.
  unfoldable pub done : Batch D → Bool
  done b = elim b.running [ [] ↦ b.started == length calls | _ ∷ _ ↦ false ]

  unfoldable pub run_batch : List Move → List (Action D) → Batch D
  unfolding moves zero_results
  run_batch schedule log = moves schedule (record {
    started = 0;
    running = [];
    results = zero_results calls;
    filler = waiting;
    log = log;
  })
