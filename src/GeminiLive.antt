-- ===== src/GeminiLive.antt =====
-- voice/llm/gemini: the Gemini Live model behind the voice pipeline. A message to the server is a value
-- of Outgoing, one from the server of ServerMessage; the socket is a parameter of what uses it, and an
-- error is its text. A value of Go's `any` is of the type `D`; audio in base64 is a list of codes.
pub mod Base64
pub mod Stream
pub mod Opening
mod Examples
use gopkg.Common.{
  ℕ, zero, suc, Bool, true, false, not, ◌&&◌, List, [], ◌∷◌, ◌++◌, Option, none, some, String,
  str_eq, length, is_some, if◌then◌else◌, pos, map,
}
use gopkg.VoicePipeline.{
  AudioFormat, encoding_pcm16le, Frame, HistoryTurn, SetupRequest, ToolProperty, ToolSchema,
  ToolDecl, ToolCall, ToolResult, LlmEvent, audio_out, assistant_text, caller_transcript,
  turn_complete, interrupted, tool_calls,
}

abbrev pub live_model : String
live_model = "models/gemini-3.1-flash-live-preview"

abbrev pub voice_name : String
voice_name = "Zephyr"

-- The wire shape of a tool's parameters.
mutual
  pub data Json : Type 0 where
    text : String → Json
    texts : List String → Json
    object : Fields → Json

  pub data Fields : Type 0 where
    no_fields : Fields
    field : String → Json → Fields → Fields

pub record FunctionDecl : Type 0 where
  pub name : String
  pub description : String
  pub parameters : Fields

-- GeminiSetupConfig, without the names of its nesting.
pub record GeminiSetup : Type 0 where
  pub model : String
  pub response_modalities : List String
  pub voice : String
  pub system_instruction : String
  pub tools : Option (List FunctionDecl)
  pub input_audio_transcription : Bool
  pub start_of_speech_sensitivity : String
  pub end_of_speech_sensitivity : String
  pub prefix_padding_ms : ℕ
  pub silence_duration_ms : ℕ

-- The response to a function call: its value, or its error.
pub data Response (D : Type 0) : Type 0 where
  value : Option D → Response D
  failure : String → Response D

pub record FunctionResponse (D : Type 0) : Type 0 where
  pub id : String
  pub response : Response D

pub data Outgoing (D : Type 0) : Type 0 where
  setup_message : GeminiSetup → Outgoing D
  client_content : String → String → Outgoing D
  realtime_audio : List ℕ → String → Outgoing D
  tool_response : List (FunctionResponse D) → Outgoing D

pub record GeminiPart : Type 0 where
  pub text : String
  pub inline_data : Option (List ℕ)

pub record ServerContent : Type 0 where
  pub model_turn : Option (List GeminiPart)
  pub turn_complete : Bool
  pub interrupted : Bool
  pub input_transcription : Option String
  pub output_transcription : Option String

pub record ServerMessage (D : Type 0) : Type 0 where
  pub setup_complete : Bool
  pub server_content : Option ServerContent
  pub tool_call : Option (List (ToolCall D))

abbrev pub inbound_format : AudioFormat
inbound_format = record { encoding = encoding_pcm16le; sample_rate = pos 24000; channels = pos 1 }

abbrev pub outbound_format : AudioFormat
outbound_format = record { encoding = encoding_pcm16le; sample_rate = pos 16000; channels = pos 1 }

-- setup.go: a key that is optional on the wire stands there only where its value is not empty.
unfoldable pub with_texts : String → List String → Fields → Fields
with_texts name [] fields = fields
with_texts name (x ∷ xs) fields = field name (texts (x ∷ xs)) fields

unfoldable pub with_text : String → String → Fields → Fields
with_text name t fields = if str_eq t "" then fields else field name (text t) fields

unfoldable pub property_to_wire : ToolProperty → Fields
unfolding with_texts with_text
property_to_wire p = field "type" (text p.type) (
    field "description" (text p.description)
      (with_texts "enum" p.enum (with_text "format" p.format no_fields)))

unfoldable pub properties_to_wire : List (String × ToolProperty) → Fields
unfolding property_to_wire
properties_to_wire [] = no_fields
properties_to_wire ((name, p) ∷ ps) =
    field name (object (property_to_wire p)) (properties_to_wire ps)

unfoldable pub schema_to_wire : ToolSchema → Fields
unfolding properties_to_wire with_texts
schema_to_wire s = field "type" (text s.type) (
    field "properties" (object (properties_to_wire s.properties))
      (with_texts "required" s.required no_fields))

unfoldable pub tools_to_wire : List ToolDecl → List FunctionDecl
unfolding schema_to_wire
tools_to_wire [] = []
tools_to_wire (t ∷ ts) =
    record { name = t.name; description = t.description; parameters = schema_to_wire t.parameters }
    ∷ tools_to_wire ts

unfoldable pub wire_tools : List ToolDecl → Option (List FunctionDecl)
unfolding tools_to_wire
wire_tools [] = none
wire_tools (t ∷ ts) = some (tools_to_wire (t ∷ ts))

unfoldable pub build_setup : String → List ToolDecl → GeminiSetup
unfolding wire_tools
build_setup system_prompt tools = record {
  model = live_model;
  response_modalities = "AUDIO" ∷ [];
  voice = voice_name;
  system_instruction = system_prompt;
  tools = wire_tools tools;
  input_audio_transcription = true;
  start_of_speech_sensitivity = "START_SENSITIVITY_LOW";
  end_of_speech_sensitivity = "END_SENSITIVITY_LOW";
  prefix_padding_ms = 300;
  silence_duration_ms = 600;
}
