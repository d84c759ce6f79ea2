-- ===== src/VoicePipeline.antt =====
-- voice/pipeline: one voice session between a transport and a language model. The values of the
-- model, and what the two sides, the tools and the observer are to the orchestrator. A value of Go's
-- `any` is of the parameter `D`; an error of the adapters is its text.
pub mod Bridge
pub mod Batch
pub mod Dispatch
pub mod Session
pub mod Recording
pub mod Ending
pub mod Causes
pub mod Closing
pub mod Itoa
mod Examples
use gopkg.Common.{ℕ, Bool, List, Option, String, ℤ}

pub record AudioFormat : Type 0 where
  pub encoding : String
  pub sample_rate : ℤ
  pub channels : ℤ

abbrev pub encoding_mulaw : String
encoding_mulaw = "mulaw"

abbrev pub encoding_pcm16le : String
encoding_pcm16le = "pcm16le"

pub record Frame : Type 0 where
  pub bytes : List ℕ
  pub timestamp : ℤ

-- ErrFormatBridge and ErrToolExecutorPanicked, with what they wrap.
pub data Error : Type 0 where
  format_bridge : AudioFormat → AudioFormat → Error
  tool_executor_panicked : String → Error
  external : String → Error

pub record HistoryTurn : Type 0 where
  pub role : String
  pub content : String

pub record ToolProperty : Type 0 where
  pub type : String
  pub description : String
  pub enum : List String
  pub format : String

pub record ToolSchema : Type 0 where
  pub type : String
  pub properties : List (String × ToolProperty)
  pub required : List String

pub record ToolDecl : Type 0 where
  pub name : String
  pub description : String
  pub parameters : ToolSchema

pub data EndReason : Type 0 where
  transport_closed llm_closed context_done fatal_error : EndReason

pub record SetupRequest (D : Type 0) : Type 0 where
  pub system_prompt : String
  pub tools : List ToolDecl
  pub history : List HistoryTurn
  pub locale_hint : String
  pub voice : String
  pub extra : List (String × D)

pub record ToolCall (D : Type 0) : Type 0 where
  pub id : String
  pub name : String
  pub args : List (String × D)

pub record ToolResult (D : Type 0) : Type 0 where
  pub call_id : String
  pub result : Option D
  pub err : Option Error

pub data LlmEvent (D : Type 0) : Type 0 where
  audio_out : Frame → LlmEvent D
  assistant_text : String → Bool → LlmEvent D
  caller_transcript : String → LlmEvent D
  turn_complete : LlmEvent D
  interrupted : LlmEvent D
  tool_calls : List (ToolCall D) → LlmEvent D

-- A call of the observer. A panic of its own is caught, so it has no effect on the session.
pub data Observation (D : Type 0) : Type 0 where
  on_session_start : Observation D
  on_history_injected : ℕ → Observation D
  on_caller_transcript : String → Observation D
  on_assistant_text : String → Bool → Observation D
  on_tool_call : ToolCall D → Observation D
  on_tool_response : ToolCall D → ToolResult D → Observation D
  on_interrupted : Observation D
  on_turn_complete : ℕ → Observation D
  on_error : Error → Observation D
  on_session_end : EndReason → Observation D

-- What the pipeline does to the outside, in order.
pub data Action (D : Type 0) : Type 0 where
  observed : Observation D → Action D
  opened : SetupRequest D → Action D
  sent_audio : Frame → Action D
  sent : Frame → Action D
  marked : ℕ → Action D
  cleared : Action D
  sent_tool_results : List (ToolResult D) → Action D
  closed_transport : Action D
  closed_llm : Action D

-- What a call of the tool executor comes to.
pub data Outcome (D : Type 0) : Type 0 where
  returned : Option D → Option Error → Outcome D
  panicked : String → Outcome D

-- The adapters: each answer may depend on all that was done so far; `none` is the nil error.
pub record Env (D : Type 0) : Type 0 where
  pub open_llm : List (Action D) → SetupRequest D → Option Error
  pub send_audio : List (Action D) → Frame → Option Error
  pub send : List (Action D) → Frame → Option Error
  pub send_tool_results : List (Action D) → List (ToolResult D) → Option Error
  -- The i-th call of the batch.
  pub execute : List (Action D) → ℕ → ToolCall D → Outcome D
