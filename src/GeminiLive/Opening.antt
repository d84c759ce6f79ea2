-- ===== src/GeminiLive/Opening.antt =====
-- voice/llm/gemini/llm.go: what is written to the server, and the schema that a tool is declared with.
pub mod Written
pub mod Schema
use gopkg.Common.{
  ℕ, zero, suc, Bool, true, false, not, ◌||◌, List, [], ◌∷◌, ◌++◌, Option, none, some, String,
  str_eq, string_comparable, Result, ok, err, if◌then◌else◌,
}
use gopkg.Common.Assoc.{lookup}
use gopkg.VoicePipeline.{Frame, HistoryTurn, SetupRequest, ToolResult}
use gopkg.VoicePipeline
use gopkg.GeminiLive.{
  Outgoing, setup_message, client_content, realtime_audio, tool_response, FunctionResponse,
  Response, value, failure, ServerMessage, build_setup,
}
use gopkg.GeminiLive.Base64.{encode}

-- The socket: whether a message can be written after those before it, and what is read first.
pub record Socket (D : Type 0) : Type 0 where
  pub write : List (Outgoing D) → Outgoing D → Option String
  pub read : List (Outgoing D) → Result String (ServerMessage D)
  pub close : Option String

pub data Error : Type 0 where
  send_setup read_setup_complete send_history_turn send_wake_signal : String → Error
  expected_setup_complete : Error

module _ {D : Type 0} (socket : Socket D) where
  -- writeJSON, with what was tried to write so far.
  unfoldable pub write_json : Outgoing D → List (Outgoing D) → List (Outgoing D) × Option String
  write_json m log = (log ++ m ∷ [], socket.write log m)

  unfoldable pub is_replayed : HistoryTurn → Bool
  is_replayed turn = not (str_eq turn.content "" || not (str_eq turn.role "user"))

  unfoldable pub replay : List HistoryTurn → List (Outgoing D) → List (Outgoing D) × Option Error
  unfolding write_json is_replayed
  replay [] log = (log, none)
  replay (turn ∷ turns) log = elim (is_replayed turn) [
    | false ↦ replay turns log
    | true ↦
        let (log', e) = write_json (client_content "user" turn.content) log in
        elim e [ some x ↦ (log', some (send_history_turn x)) | none ↦ replay turns log' ]
  ]

  -- The wake signal: a string that is not empty under its key.
  unfoldable pub wake_signal : (D → Option String) → List (String × D) → String
  unfolding lookup
  wake_signal as_string extra = elim (lookup "wake_signal" extra) [
    | none ↦ ""
    | some v ↦ elim (as_string v) [ none ↦ "" | some t ↦ t ]
  ]

  unfoldable pub send_wake : String → List (Outgoing D) → List (Outgoing D) × Option Error
  unfolding write_json
  send_wake wake log =
      if str_eq wake ""
      then (log, none)
      else let (log', e) = write_json (client_content "user" wake) log in
        (log', elim e [ some x ↦ some (send_wake_signal x) | none ↦ none ])

  -- After the setup is confirmed: the history, then the wake signal.
  unfoldable pub greet :
      (D → Option String) → SetupRequest D → List (Outgoing D) → List (Outgoing D) × Option Error
  unfolding replay wake_signal send_wake
  greet as_string setup log =
      let (log', e) = replay setup.history log in
      elim e [ some x ↦ (log', some x) | none ↦ send_wake (wake_signal as_string setup.extra) log' ]

  unfoldable pub await_setup :
      (D → Option String) → SetupRequest D → List (Outgoing D) → List (Outgoing D) × Option Error
  unfolding greet
  await_setup as_string setup log = elim (socket.read log) [
    | err e ↦ (log, some (read_setup_complete e))
    | ok resp ↦ elim resp.setup_complete [
      | false ↦ (log, some expected_setup_complete)
      | true ↦ greet as_string setup log
    ]
  ]

  unfoldable pub open_llm : (D → Option String) → SetupRequest D → List (Outgoing D) × Option Error
  unfolding write_json build_setup await_setup
  open_llm as_string setup =
      let (log, e) = write_json (setup_message (build_setup setup.system_prompt setup.tools)) [] in
      elim e [ some x ↦ (log, some (send_setup x)) | none ↦ await_setup as_string setup log ]

  unfoldable pub send_audio : Frame → List (Outgoing D) → List (Outgoing D) × Option String
  unfolding write_json encode
  send_audio f log = write_json (realtime_audio (encode f.bytes) "audio/pcm;rate=16000") log

  -- The results of a batch in one message; an error of a tool goes by its text.
  unfoldable pub function_responses :
      (VoicePipeline.Error → String) → List (ToolResult D) → List (FunctionResponse D)
  function_responses error_text [] = []
  function_responses error_text (r ∷ rs) =
      record {
        id = r.call_id;
        response = elim r.err [ none ↦ value r.result | some e ↦ failure (error_text e) ];
      }
      ∷ function_responses error_text rs

  unfoldable pub send_tool_results :
      (VoicePipeline.Error → String)
      → List (ToolResult D)
      → List (Outgoing D)
      → List (Outgoing D) × Option String
  unfolding write_json function_responses
  send_tool_results error_text results log =
      write_json (tool_response (function_responses error_text results)) log

  unfoldable pub inject_turn : HistoryTurn → List (Outgoing D) → List (Outgoing D) × Option String
  unfolding write_json
  inject_turn turn log =
      write_json
        (client_content (if str_eq turn.role "assistant" then "model" else "user") turn.content) log

  -- Close, with whether it was closed before: the socket is closed once.
  unfoldable pub close : Bool → Bool × Option String
  close true = (true, none)
  close false = (true, socket.close)
