-- ===== src/GeminiText/Examples.antt =====
-- ai/llm/geminitext/client.go: a conversation with two tool calls, and a service that answers it.
use gopkg.Common.{
  ℕ, ◌≡◌, refl, true, List, [], ◌∷◌, ◌++◌, map, none, some, String, str_eq, if◌then◌else◌, ok, err,
  pos, ◌==◌,
}
use gopkg.Orchestrator.{
  ToolDecl, tool_property, tool_property_of, ChatTurn, ChatRequest, ChatResponse, Provider, Config,
  Reply, process,
}
use gopkg.GeminiText.Wired.{as_provider, Wire, Wire-told}
use gopkg.GeminiText.{GeminiContent, GeminiResponse, chat_contents}
use gopkg.GeminiText.Client.{
  Client, new_client, with_api_url, Http, Floats, chat_with_config, api_key_required, api_status,
  client_name,
}
use gopkg.GeminiText.Tools.{function_property, function_property_of, tool_decls}
use gopkg.GeminiText.Contents.{read_contents, wire_turn, text_turn, read-chat_contents}
use gopkg.GeminiText.Calls.{grouped, chat_contents-grouped}
use gopkg.GeminiText.Answers.{Answered, chat_with_config-Answered}

abbrev asked : ChatTurn String
asked = record {
  role = "user";
  text = "weather?";
  tool_name = "";
  tool_args = [];
  tool_result = none;
  tool_sig = "";
}

abbrev looked_up : String → String → ChatTurn String
looked_up city answer = record {
  role = "tool";
  text = "";
  tool_name = "weather";
  tool_args = ("city", city) ∷ [];
  tool_result = some answer;
  tool_sig = "s";
}

abbrev question : ChatRequest String
question = record {
  system_prompt = "be brief";
  history = asked ∷ looked_up "Erbil" "hot" ∷ looked_up "Oslo" "cold" ∷ [];
  user_text = "and now?";
  tools = [];
  locale_hint = "";
}

roles_sent :
    map (λ (c : GeminiContent String). c.role) (chat_contents question)
    ≡ "user" ∷ "model" ∷ "user" ∷ "user" ∷ []
unfolding chat_contents
roles_sent = refl

read-chat_contents_example :
    read_contents (chat_contents question)
    ≡ map wire_turn question.history
      ++ (if str_eq question.user_text "" then [] else text_turn "user" question.user_text ∷ [])
read-chat_contents_example = read-chat_contents question

chat_contents-grouped_example : grouped (chat_contents question) ≡ true
chat_contents-grouped_example = chat_contents-grouped question

abbrev tenths : Floats
tenths = record { F = ℕ; is_zero = λ n. n == 0; seven_tenths = 14; nineteen_twentieths = 19 }

abbrev reply : GeminiResponse String
reply = record {
  candidates =
      record {
        content = record {
          role = "model";
          parts =
              record {
                text = "It is ";
                function_call = none;
                function_response = none;
                thought_signature = "";
              }
              ∷ record {
                text = "hot.";
                function_call = none;
                function_response = none;
                thought_signature = "";
              }
              ∷ [];
        };
        finish_reason = "STOP";
      }
      ∷ [];
  usage_metadata = record {
    prompt_tokens = pos 5;
    completion_tokens = pos 3;
    total_tokens = pos 8;
  };
}

abbrev service : ℕ → Http String tenths
service status = record { post = λ url key req. ok (status, "{}"); unmarshal = λ raw. ok reply }

abbrev answer : ChatResponse String
answer = record {
  text = "It is hot.";
  tool_calls = [];
  finish_reason = "STOP";
  usage = record { prompt_tokens = pos 5; completion_tokens = pos 3; total_tokens = pos 8 };
}

abbrev client : Client
client = record { name = "gemini"; api_key = "k"; api_url = "http://x"; model = "flash" }

answers : chat_with_config tenths (service 200) (some client) question 0 (pos 0) "" ≡ ok answer
unfolding chat_with_config
answers = refl

overloaded :
    chat_with_config tenths (service 503) (some client) question 0 (pos 0) ""
    ≡ err (api_status 503 "{}")
unfolding chat_with_config
overloaded = refl

no_key : chat_with_config tenths (service 200) none question 0 (pos 0) "" ≡ err api_key_required
unfolding chat_with_config
no_key = refl

named : client_name (some (new_client "" "k" "" [])) ≡ "gemini:gemini-2.5-flash-lite"
unfolding client_name new_client
named = refl

chat_with_config-Answered_example :
    Answered tenths (service 200) client question 0 (pos 0) "" answer
chat_with_config-Answered_example =
    chat_with_config-Answered tenths (service 200) client question 0 (pos 0) "" answer answers

abbrev cfg : Config String
cfg = record {
  system_prompt = "";
  tools = [];
  locale_hint = "en";
  history = [];
  max_tool_hops = pos 0;
  dispatcher = none;
}

abbrev reported : Reply String
reported = record { assistant_text = "It is hot."; tool_history = []; finish_reason = "STOP" }

abbrev gemini : List (Provider String)
gemini = as_provider tenths (λ hop. service 200) (λ e. "error") (some client) ∷ []

replied : (process gemini cfg "weather?").outcome ≡ ok reported
unfolding process as_provider
replied = refl

Wire-told_example : Wire tenths (λ hop. service 200) client cfg "weather?" reported
Wire-told_example =
    Wire-told tenths (λ hop. service 200) (λ e. "error") client cfg "weather?" reported replied

api_url_kept :
    (new_client "" "k" "" (with_api_url "http://a" ∷ with_api_url "" ∷ [])).api_url ≡ "http://a"
unfolding new_client with_api_url
api_url_kept = refl

abbrev cities : ToolDecl
cities = record {
  name = "weather";
  description = "";
  parameters = record {
    type = "object";
    properties =
        ("cities", tool_property_of "array" "" [] "" (tool_property "string" "a city" [] "")) ∷ [];
    required = "cities" ∷ [];
  };
}

items_declared :
    map (λ f. f.parameters.properties) (tool_decls (cities ∷ []))
    ≡ (("cities", function_property_of "array" "" [] "" (function_property "string" "a city" [] ""))
        ∷ [])
      ∷ []
unfolding tool_decls
items_declared = refl
