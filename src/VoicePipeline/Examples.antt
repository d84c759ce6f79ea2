-- ===== src/VoicePipeline/Examples.antt =====
-- voice/pipeline: tests, and the theorems at a call with one batch of two tools.
use gopkg.Common.{
  ℕ, zero, suc, ◌≡◌, refl, arith, true, List, [], ◌∷◌, ◌++◌, Each, none, some, is_some, pos, length,
  get_elem?, ok,
}
use gopkg.VoicePipeline.{
  AudioFormat, encoding_mulaw, encoding_pcm16le, Frame, Error, SetupRequest, ToolCall, ToolResult,
  tool_calls, turn_complete, Outcome, returned, panicked, Action, observed, on_error,
  on_session_end, fatal_error, Env,
}
use gopkg.VoicePipeline.Bridge.{resolve_bridge, bridge_mulaw8k_to_pcm16le16k, bridge_passthrough}
use gopkg.VoicePipeline.Batch.{Move, start, finish, done, moves, run_batch}
use gopkg.VoicePipeline.Batch.Order.{
  Inv, Answers, run_batch-Inv, done-Answers, run_batch_can_finish,
}
use gopkg.VoicePipeline.Session.{
  Input, frame, event, frames_closed, events_closed, Finished, Formats, run, run_session,
}
use gopkg.VoicePipeline.Ending.{Ended, run-Ended}
use gopkg.VoicePipeline.Closing.{Prolongs, closes_end}

abbrev phone_line : AudioFormat
phone_line = record { encoding = encoding_mulaw; sample_rate = pos 8000; channels = pos 1 }

abbrev speech_in : AudioFormat
speech_in = record { encoding = encoding_pcm16le; sample_rate = pos 16000; channels = pos 1 }

abbrev hello : Frame
hello = record { bytes = 255 ∷ 0 ∷ []; timestamp = pos 7 }

resolved_pair : resolve_bridge phone_line speech_in ≡ ok bridge_mulaw8k_to_pcm16le16k
unfolding resolve_bridge
resolved_pair = refl

abbrev outcome : ℕ → Outcome ℕ
outcome zero = returned (some 42) none
outcome (suc i) = panicked "boom"

-- Adapters that always answer, and tools of which the second panics.
abbrev world : Env ℕ
world = record {
  open_llm = λ log setup. none;
  send_audio = λ log f. none;
  send = λ log f. none;
  send_tool_results = λ log rs. none;
  execute = λ log i call. outcome i;
}

abbrev tool : ToolCall ℕ
tool = record { id = "a"; name = "balance"; args = [] }

abbrev other_tool : ToolCall ℕ
other_tool = record { id = "b"; name = "weather"; args = [] }

-- The second call ends first.
abbrev schedule : List Move
schedule = start ∷ start ∷ finish 1 ∷ finish 0 ∷ []

run_batch-Inv_example :
    Inv world 2 (tool ∷ other_tool ∷ []) (run_batch world 2 (tool ∷ other_tool ∷ []) schedule [])
run_batch-Inv_example = run_batch-Inv world 2 (tool ∷ other_tool ∷ []) schedule []

both_done :
    done world 2 (tool ∷ other_tool ∷ []) (run_batch world 2 (tool ∷ other_tool ∷ []) schedule [])
    ≡ true
unfolding done run_batch
both_done = refl

done-Answers_example :
    (length (run_batch world 2 (tool ∷ other_tool ∷ []) schedule []).results ≡ 2)
    × ((before : List (Action ℕ)) × (r : ToolResult ℕ) × (get_elem?
            (run_batch world 2 (tool ∷ other_tool ∷ []) schedule []).results
            1
          ≡ some r)
        × Answers world 2 (tool ∷ other_tool ∷ []) other_tool (world.execute before 1 other_tool) r)
done-Answers_example =
    done-Answers world 2 (tool ∷ other_tool ∷ []) schedule [] 1 other_tool both_done refl

run_batch_can_finish_example :
    (rest : List Move) × (done world 1 (tool ∷ other_tool ∷ []) (
        moves world 1
          (tool ∷ other_tool ∷ [])
          rest
          (run_batch world 1 (tool ∷ other_tool ∷ []) (start ∷ start ∷ []) []))
      ≡ true)
run_batch_can_finish_example =
    run_batch_can_finish world 1 (tool ∷ other_tool ∷ []) (start ∷ start ∷ []) [] (omega arith)

abbrev setup : SetupRequest ℕ
setup = record {
  system_prompt = "";
  tools = [];
  history = [];
  locale_hint = "en";
  voice = "";
  extra = [];
}

abbrev formats : Formats
formats = record {
  transport_in = phone_line;
  llm_out = speech_in;
  llm_in = phone_line;
  transport_out = phone_line;
}

abbrev conversation : List (Input ℕ)
conversation =
    frame hello ∷ event (tool_calls (tool ∷ other_tool ∷ [])) schedule ∷ event turn_complete [] ∷ []

session_runs :
    is_some (run world 2 formats setup (conversation ++ frames_closed ∷ events_closed ∷ [])) ≡ true
unfolding run bridge_mulaw8k_to_pcm16le16k bridge_passthrough
session_runs = refl

-- No bridge leads from 16 kHz to the phone.
abbrev unsupported : Formats
unsupported = record formats { llm_in = speech_in }

abbrev refused : Finished ℕ
refused = record {
  log =
      observed (on_error (Error.format_bridge speech_in phone_line))
      ∷ observed (on_session_end fatal_error)
      ∷ [];
  err = some (Error.format_bridge speech_in phone_line);
}

refused_early : run world 2 unsupported setup conversation ≡ some refused
unfolding run
refused_early = refl

run-Ended_example : Ended conversation refused
run-Ended_example = run-Ended world 2 unsupported setup conversation refused refused_early

-- A caller who hangs up while one of two tools still runs.
abbrev unfinished : List (Input ℕ)
unfinished =
    frame hello ∷ event (tool_calls (tool ∷ other_tool ∷ [])) (start ∷ start ∷ finish 1 ∷ []) ∷ []

closes_end_example :
    (inputs' : List (Input ℕ)) × Each Prolongs unfinished inputs'
    × ((fin : Finished ℕ) × (run_session world 2 bridge_passthrough bridge_passthrough setup
            (inputs' ++ frames_closed ∷ events_closed ∷ [])
          ≡ some fin))
closes_end_example =
    closes_end world 2 bridge_passthrough bridge_passthrough setup unfinished (omega arith)
