-- ===== src/GeminiText.antt =====
-- ai/llm/geminitext/client.go: the Gemini text model as a provider of ai/llm. A value of
-- Go's `any` is of the type `D`.
pub mod Tools
pub mod Client
pub mod Contents
pub mod Calls
pub mod Answers
pub mod Wired
mod Examples
use gopkg.Common.{
  ℕ, zero, suc, Bool, true, false, not, ◌&&◌, ◌||◌, List, [], ◌∷◌, ◌++◌, Option, none, some, String,
  str_eq, length, leb, ltb, if◌then◌else◌, Result, ok, err, ℤ, pos, ◌==◌,
}
use Prim.Native.String.{◌++◌ as str_append}
use gopkg.Orchestrator.{
  ToolCall, ChatTurn, ToolDecl, ChatRequest, TokenUsage, ChatResponse, Provider, provider_error,
}

pub record FunctionCall (D : Type 0) : Type 0 where
  pub name : String
  pub args : List (String × D)

pub record FunctionResponse (D : Type 0) : Type 0 where
  pub name : String
  pub response : List (String × Option D)

pub record GeminiPart (D : Type 0) : Type 0 where
  pub text : String
  pub function_call : Option (FunctionCall D)
  pub function_response : Option (FunctionResponse D)
  pub thought_signature : String

pub record GeminiContent (D : Type 0) : Type 0 where
  pub role : String
  pub parts : List (GeminiPart D)

module _ {D : Type 0} where
  unfoldable pub call_part : ChatTurn D → GeminiPart D
  call_part t = record {
    text = "";
    function_call = some (record { name = t.tool_name; args = t.tool_args });
    function_response = none;
    thought_signature = t.tool_sig;
  }

  unfoldable pub response_part : ChatTurn D → GeminiPart D
  response_part t = record {
    text = "";
    function_call = none;
    function_response =
        some (record { name = t.tool_name; response = ("result", t.tool_result) ∷ [] });
    thought_signature = "";
  }

  unfoldable pub text_content : String → String → GeminiContent D
  text_content role text = record {
    role = role;
    parts =
        record {
          text = text;
          function_call = none;
          function_response = none;
          thought_signature = "";
        }
        ∷ [];
  }

  unfoldable pub is_tool : ChatTurn D → Bool
  is_tool t = str_eq t.role "tool"

  unfoldable pub turn_contents : ChatTurn D → List (GeminiContent D)
  unfolding is_tool call_part response_part text_content
  turn_contents turn =
      if is_tool turn
      then record { role = "model"; parts = call_part turn ∷ [] }
        ∷ record { role = "user"; parts = response_part turn ∷ [] }
        ∷ []
      else text_content (if str_eq turn.role "assistant" then "model" else "user") turn.text ∷ []

  -- The longest run of tool turns at the head, and what follows it.
  unfoldable pub tool_run : List (ChatTurn D) → List (ChatTurn D)
  unfolding is_tool
  tool_run [] = []
  tool_run (t ∷ ts) = let rest = tool_run ts in if is_tool t then t ∷ rest else []

  unfoldable pub after_run : List (ChatTurn D) → List (ChatTurn D)
  unfolding is_tool
  after_run [] = []
  after_run (t ∷ ts) = let rest = after_run ts in if is_tool t then rest else t ∷ ts

  unfoldable pub call_parts : List (ChatTurn D) → List (GeminiPart D)
  unfolding call_part
  call_parts [] = []
  call_parts (t ∷ ts) = call_part t ∷ call_parts ts

  unfoldable pub response_parts : List (ChatTurn D) → List (GeminiPart D)
  unfolding response_part
  response_parts [] = []
  response_parts (t ∷ ts) = response_part t ∷ response_parts ts

  -- The two contents of a run: all its calls, then all its responses.
  unfoldable pub run_contents : List (ChatTurn D) → List (GeminiContent D)
  unfolding call_parts response_parts
  run_contents run =
      record { role = "model"; parts = call_parts run }
      ∷ record { role = "user"; parts = response_parts run }
      ∷ []

  -- The loop over the history; each round takes a turn, so that its length is fuel enough.
  unfoldable pub history_contents : ℕ → List (ChatTurn D) → List (GeminiContent D)
  unfolding is_tool tool_run after_run run_contents turn_contents
  history_contents zero h = []
  history_contents (suc fuel) [] = []
  history_contents (suc fuel) (t ∷ ts) = elim (is_tool t) [
    | true ↦ run_contents (tool_run (t ∷ ts)) ++ history_contents fuel (after_run (t ∷ ts))
    | false ↦ turn_contents t ++ history_contents fuel ts
  ]

  unfoldable pub chat_contents : ChatRequest D → List (GeminiContent D)
  unfolding history_contents text_content
  chat_contents req =
      history_contents (length req.history) req.history
      ++ (if str_eq req.user_text "" then [] else text_content "user" req.user_text ∷ [])

pub record Candidate (D : Type 0) : Type 0 where
  pub content : GeminiContent D
  pub finish_reason : String

pub record GeminiResponse (D : Type 0) : Type 0 where
  pub candidates : List (Candidate D)
  pub usage_metadata : TokenUsage

module _ {D : Type 0} where
  -- The text of a part is added, its function call, if it has one, becomes a tool call.
  unfoldable pub add_text : String → ChatResponse D → ChatResponse D
  add_text t out = if str_eq t "" then out else record out { text = str_append out.text t }

  unfoldable pub tool_call_of : GeminiPart D → FunctionCall D → ToolCall D
  tool_call_of part call = record {
    id = call.name;
    name = call.name;
    args = call.args;
    thought_signature = part.thought_signature;
  }

  unfoldable pub add_part : GeminiPart D → ChatResponse D → ChatResponse D
  unfolding add_text tool_call_of
  add_part part out =
      let out' = add_text part.text out in
      elim part.function_call [
        | none ↦ out'
        | some call ↦ record out' { tool_calls = out'.tool_calls ++ tool_call_of part call ∷ [] }
      ]

  unfoldable pub add_parts : List (GeminiPart D) → ChatResponse D → ChatResponse D
  unfolding add_part
  add_parts [] out = out
  add_parts (p ∷ ps) out = add_parts ps (add_part p out)

  unfoldable pub empty_response : String → TokenUsage → ChatResponse D
  empty_response finish_reason usage = record {
    text = "";
    tool_calls = [];
    finish_reason = finish_reason;
    usage = usage;
  }

  unfoldable pub chat_response : GeminiResponse D → ChatResponse D
  unfolding add_parts empty_response
  chat_response resp = elim resp.candidates [
    | [] ↦
        empty_response "empty"
          (record { prompt_tokens = pos 0; completion_tokens = pos 0; total_tokens = pos 0 })
    | cand ∷ _ ↦
        add_parts cand.content.parts (empty_response cand.finish_reason resp.usage_metadata)
  ]
