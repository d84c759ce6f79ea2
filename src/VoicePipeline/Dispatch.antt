-- ===== src/VoicePipeline/Dispatch.antt =====
-- voice/pipeline/pipeline.go: the handling of one event of the model. A step returns what was done so
-- far with the turn counter, and the fatal error if there is one; `none` is a batch of tool calls that
-- its schedule leaves unfinished.
pub mod Grows
use gopkg.Common.{
  ℕ, suc, ◌≡◌, Bool, true, false, List, [], ◌∷◌, ◌++◌, Option, none, some, if◌then◌else◌, Result,
  ok, err,
}
use gopkg.VoicePipeline.{
  Error, Frame, ToolCall, ToolResult, LlmEvent, audio_out, assistant_text, caller_transcript,
  turn_complete, interrupted, tool_calls, Observation, on_assistant_text, on_caller_transcript,
  on_turn_complete, on_interrupted, on_tool_call, on_tool_response, on_error, Action, observed,
  sent, marked, cleared, sent_tool_results, Env,
}
use gopkg.VoicePipeline.Bridge.{BridgeFn}
use gopkg.VoicePipeline.Batch.{Batch, Move, done, run_batch}

-- The goroutine of the model's events: what was done, the turn, and a fatal error.
pub record Handled (D : Type 0) : Type 0 where
  pub log : List (Action D)
  pub turn : ℕ
  pub fatal : Option Error

module _ {D : Type 0} where
  -- OnToolCall for every call in order.
  unfoldable pub announce : List (ToolCall D) → List (Action D) → List (Action D)
  announce [] log = log
  announce (c ∷ cs) log = announce cs (log ++ observed (on_tool_call c) ∷ [])

  -- OnToolResponse in call order.
  unfoldable pub report :
      List (ToolCall D) → List (ToolResult D) → List (Action D) → List (Action D)
  report (c ∷ cs) (r ∷ rs) log = report cs rs (log ++ observed (on_tool_response c r) ∷ [])
  report _ _ log = log

module _ {D : Type 0} (env : Env D) (tool_concurrency : ℕ) where
  -- The end of dispatchToolCalls, once `wg.Wait()` has returned.
  unfoldable pub flush_results : List (ToolCall D) → Batch D → List (Action D)
  unfolding report
  flush_results calls b =
      let reported = report calls b.results (b.log ++ cleared ∷ []) in
      let sent_log = reported ++ sent_tool_results b.results ∷ [] in
      elim (env.send_tool_results reported b.results) [
        | none ↦ sent_log
        | some e ↦ sent_log ++ observed (on_error e) ∷ []
      ]

  unfoldable pub dispatch_tool_calls :
      List Move → List (ToolCall D) → List (Action D) → Option (List (Action D))
  unfolding announce run_batch done flush_results
  dispatch_tool_calls schedule calls log =
      let b = run_batch env tool_concurrency calls schedule (announce calls log) in
      if done env tool_concurrency calls b then some (flush_results calls b) else none

  -- The frame goes through the bridge, then to the transport.
  unfoldable pub send_out : BridgeFn → Frame → ℕ → List (Action D) → Handled D
  send_out bridge f turn log = elim (bridge f) [
    | err e ↦ record { log = log; turn = turn; fatal = some e }
    | ok conv ↦ record { log = log ++ sent conv ∷ []; turn = turn; fatal = env.send log conv }
  ]

  -- The results of Mark and Clear are not read.
  unfoldable pub dispatch_llm_event :
      BridgeFn → LlmEvent D → List Move → ℕ → List (Action D) → Option (Handled D)
  unfolding dispatch_tool_calls send_out
  dispatch_llm_event bridge (audio_out f) schedule turn log = some (send_out bridge f turn log)
  dispatch_llm_event bridge (assistant_text text final) schedule turn log = some (record {
    log = log ++ observed (on_assistant_text text final) ∷ [];
    turn = turn;
    fatal = none;
  })
  dispatch_llm_event bridge (caller_transcript text) schedule turn log =
      some (record {
        log = log ++ observed (on_caller_transcript text) ∷ [];
        turn = turn;
        fatal = none;
      })
  dispatch_llm_event bridge turn_complete schedule turn log = some (record {
    log = log ++ marked (suc turn) ∷ observed (on_turn_complete (suc turn)) ∷ [];
    turn = suc turn;
    fatal = none;
  })
  dispatch_llm_event bridge interrupted schedule turn log =
      some
        (record { log = log ++ cleared ∷ observed on_interrupted ∷ []; turn = turn; fatal = none })
  dispatch_llm_event bridge (tool_calls calls) schedule turn log =
      elim (dispatch_tool_calls schedule calls log) [
        | none ↦ none
        | some log' ↦ some (record { log = log'; turn = turn; fatal = none })
      ]
