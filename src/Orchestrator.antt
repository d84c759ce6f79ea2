-- ===== src/Orchestrator.antt =====
-- ai/orchestrator, ai/llm and the messages of ai/conversation: the loop that answers one message of
-- the user, with tools. A value of Go's `any` is of the parameter `D`. A provider is the parameter
-- that answers the n-th request of a loop; a dispatcher runs the n-th tool call of a loop.
pub mod History
pub mod Prompts
mod Examples
use gopkg.Common.{
  ℕ, zero, suc, ◌||◌, Bool, true, false, List, [], ◌∷◌, ◌++◌, length, Option, none, some, String,
  str_eq, if◌then◌else◌, Result, ok, err, ℤ, pos, leb_ℤ, pos_part,
}

pub record ToolCall (D : Type 0) : Type 0 where
  pub id : String
  pub name : String
  pub args : List (String × D)
  pub thought_signature : String

pub record ChatTurn (D : Type 0) : Type 0 where
  pub role : String
  pub text : String
  pub tool_name : String
  pub tool_args : List (String × D)
  pub tool_result : Option D
  pub tool_sig : String

-- A parameter of a tool: its type, description, enumeration and format, without and with a schema of
-- its items.
pub data ToolProperty : Type 0 where
  tool_property : String → String → List String → String → ToolProperty
  tool_property_of : String → String → List String → String → ToolProperty → ToolProperty

pub record ToolSchema : Type 0 where
  pub type : String
  pub properties : List (String × ToolProperty)
  pub required : List String

pub record ToolDecl : Type 0 where
  pub name : String
  pub description : String
  pub parameters : ToolSchema

pub record ChatRequest (D : Type 0) : Type 0 where
  pub system_prompt : String
  pub history : List (ChatTurn D)
  pub user_text : String
  pub tools : List ToolDecl
  pub locale_hint : String

pub record TokenUsage : Type 0 where
  pub prompt_tokens : ℤ
  pub completion_tokens : ℤ
  pub total_tokens : ℤ

pub record ChatResponse (D : Type 0) : Type 0 where
  pub text : String
  pub tool_calls : List (ToolCall D)
  pub finish_reason : String
  pub usage : TokenUsage

-- conversation.Message: what the loop reads of it.
pub record Message : Type 0 where
  pub role : String
  pub content : String

pub data Error : Type 0 where
  no_providers : Error
  provider_error : String → Error
  no_dispatcher : String → Error
  hop_limit : ℕ → Error

pub record Provider (D : Type 0) : Type 0 where
  pub name : String
  pub chat : ℕ → ChatRequest D → Result Error (ChatResponse D)

pub record ToolExecution (D : Type 0) : Type 0 where
  pub call : ToolCall D
  pub result : Option D
  pub error : Option String

pub record Config (D : Type 0) : Type 0 where
  pub system_prompt : String
  pub tools : List ToolDecl
  pub locale_hint : String
  pub history : List Message
  pub max_tool_hops : ℤ
  pub dispatcher : Option (ℕ → ToolCall D → Option D × Option String)

pub record Reply (D : Type 0) : Type 0 where
  pub assistant_text : String
  pub tool_history : List (ToolExecution D)
  pub finish_reason : String

-- What the loop comes to, with the requests that it made, in order.
pub record Run (D : Type 0) : Type 0 where
  pub requests : List (ChatRequest D)
  pub outcome : Result Error (Reply D)

pub register : {D : Type 0} → Provider D → List (Provider D) → List (Provider D)
register p providers = providers ++ p ∷ []

unfoldable pub primary : {D : Type 0} → List (Provider D) → Result Error (Provider D)
primary [] = err no_providers
primary (p ∷ ps) = ok p

module _ {D : Type 0} where
  unfoldable pub chat : List (Provider D) → ℕ → ChatRequest D → Result Error (ChatResponse D)
  unfolding primary
  chat providers hop req = elim (primary providers) [ err e ↦ err e | ok p ↦ p.chat hop req ]

  pub text_turn : String → String → ChatTurn D
  text_turn role text = record {
    role = role;
    text = text;
    tool_name = "";
    tool_args = [];
    tool_result = none;
    tool_sig = "";
  }

  -- A role other than "assistant" and "model" is the user's.
  pub messages_to_turns : List Message → List (ChatTurn D)
  unfolding text_turn
  messages_to_turns [] = []
  messages_to_turns (m ∷ ms) =
      text_turn (if str_eq m.role "assistant" || str_eq m.role "model" then "assistant" else "user")
        m.content
      ∷ messages_to_turns ms

  pub tool_turn : ToolExecution D → ChatTurn D
  tool_turn x = record {
    role = "tool";
    text = "";
    tool_name = x.call.name;
    tool_args = x.call.args;
    tool_result = x.result;
    tool_sig = x.call.thought_signature;
  }

module _ {D : Type 0} (providers : List (Provider D)) (cfg : Config D) where
  -- One tool call: the turns and the tool history, each with one more.
  pub execute :
      (ℕ → ToolCall D → Option D × Option String)
      → ToolCall D
      → List (ToolExecution D)
      → ToolExecution D
  execute dispatcher call done =
      let (result, e) = dispatcher (length done) call in
      record { call = call; result = result; error = e }

  pub run_tools :
      List (ToolCall D)
      → List (ChatTurn D)
      → List (ToolExecution D)
      → Result Error (List (ChatTurn D) × List (ToolExecution D))
  unfolding execute tool_turn
  run_tools [] turns done = ok (turns, done)
  run_tools (call ∷ calls) turns done = elim cfg.dispatcher [
    | none ↦ err (no_dispatcher call.name)
    | some dispatcher ↦
        let x = execute dispatcher call done in
        run_tools calls (turns ++ tool_turn x ∷ []) (done ++ x ∷ [])
  ]

  pub make_request : List (ChatTurn D) → ChatRequest D
  make_request turns = record {
    system_prompt = cfg.system_prompt;
    history = turns;
    user_text = "";
    tools = cfg.tools;
    locale_hint = cfg.locale_hint;
  }

  -- `if cfg.MaxToolHops <= 0 { cfg.MaxToolHops = 5 }`
  pub max_hops : ℕ
  max_hops = if leb_ℤ cfg.max_tool_hops (pos 0) then 5 else pos_part cfg.max_tool_hops

  -- The loop, with the hops that are left and the requests made so far.
  pub hops : ℕ → ℕ → List (ChatTurn D) → List (ToolExecution D) → List (ChatRequest D) → Run D
  unfolding make_request chat run_tools max_hops
  hops zero hop turns done requests = record {
    requests = requests;
    outcome = err (hop_limit max_hops);
  }
  hops (suc left) hop turns done requests =
      let requests' = requests ++ make_request turns ∷ [] in
      elim (chat providers hop (make_request turns)) [
        | err e ↦ record { requests = requests'; outcome = err e }
        | ok resp ↦ elim resp.tool_calls [
          | [] ↦ record {
            requests = requests';
            outcome = ok (record {
              assistant_text = resp.text;
              tool_history = done;
              finish_reason = resp.finish_reason;
            });
          }
          | _ ∷ _ ↦ elim (run_tools resp.tool_calls turns done) [
            | err e ↦ record { requests = requests'; outcome = err e }
            | ok (turns', done') ↦ hops left (suc hop) turns' done' requests'
          ]
        ]
      ]

  pub first_turns : String → List (ChatTurn D)
  unfolding messages_to_turns text_turn
  first_turns user_text = messages_to_turns cfg.history ++ text_turn "user" user_text ∷ []

  unfoldable pub process : String → Run D
  unfolding hops first_turns max_hops
  process user_text = hops max_hops 0 (first_turns user_text) [] []
