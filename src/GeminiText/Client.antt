-- ===== src/GeminiText/Client.antt =====
-- ai/llm/geminitext/client.go: the client. The HTTP client and the JSON coding are the parameter Http.
use gopkg.Common.{
  ℕ, zero, Bool, true, false, not, ◌||◌, List, [], ◌∷◌, Option, none, some, String, str_eq, leb,
  ltb, if◌then◌else◌, Result, ok, err, ℤ, pos,
}
use Prim.Native.String.{◌++◌ as str_append}
use gopkg.Orchestrator.{ChatRequest, ChatResponse}
use gopkg.GeminiText.{GeminiContent, GeminiResponse, chat_contents, chat_response}
use gopkg.GeminiText.Tools.{GeminiFunction, tool_decls}

-- The settings of a generation; a temperature is a float64 `F`.
pub record GenerationConfig (F : Type 0) : Type 0 where
  pub temperature : F
  pub top_k : ℕ
  pub top_p : F
  pub max_output_tokens : ℤ

pub record GeminiRequest (D F : Type 0) : Type 0 where
  pub contents : List (GeminiContent D)
  pub system_instruction : Option String
  pub tools : Option (List GeminiFunction)
  pub tool_mode : Option String
  pub generation_config : GenerationConfig F

-- The number literals of the source, and the test against 0.
pub record Floats : Type 1 where
  pub F : Type 0
  pub is_zero : F → Bool
  pub seven_tenths : F
  pub nineteen_twentieths : F

pub record Client : Type 0 where
  pub name : String
  pub api_key : String
  pub api_url : String
  pub model : String

unfoldable pub with_api_url : String → Client → Client
with_api_url api_url c = if str_eq api_url "" then c else record c { api_url = api_url }

-- The options, one after the other.
unfoldable pub configure : List (Client → Client) → Client → Client
configure [] c = c
configure (opt ∷ opts) c = configure opts (opt c)

unfoldable pub new_client : String → String → String → List (Client → Client) → Client
unfolding configure
new_client name api_key model opts = configure opts (record {
  name = if str_eq name "" then "gemini" else name;
  api_key = api_key;
  api_url = "https://generativelanguage.googleapis.com/v1beta/models";
  model = if str_eq model "" then "gemini-2.5-flash-lite" else model;
})

unfoldable pub client_name : Option Client → String
client_name none = "gemini:<nil>"
client_name (some c) = str_append c.name (str_append ":" c.model)

unfoldable pub is_available : Option Client → Bool
is_available none = false
is_available (some c) = not (str_eq c.api_key "")

-- What the HTTP client makes of a POST: an error of the marshalling, of the call or of the body's
-- reading, or a status with its body; and what the JSON decoder makes of a body.
pub data HttpError : Type 0 where
  marshal_request create_request call_api read_response : String → HttpError

pub record Http (D : Type 0) (fl : Floats) : Type 0 where
  pub post : String → String → GeminiRequest D fl.F → Result HttpError (ℕ × String)
  pub unmarshal : String → Result String (GeminiResponse D)

pub data Error : Type 0 where
  api_key_required : Error
  http_error : HttpError → Error
  api_status : ℕ → String → Error
  unmarshal_response : String → Error

module _ {D : Type 0} (fl : Floats) (http : Http D fl) where
  unfoldable pub build_request : ChatRequest D → fl.F → ℤ → GeminiRequest D fl.F
  unfolding chat_contents tool_decls
  build_request req temperature max_output_tokens = record {
    contents = chat_contents req;
    system_instruction = if str_eq req.system_prompt "" then none else some req.system_prompt;
    tools = elim req.tools [ [] ↦ none | t ∷ ts ↦ some (tool_decls (t ∷ ts)) ];
    tool_mode = elim req.tools [ [] ↦ none | _ ∷ _ ↦ some "AUTO" ];
    generation_config = record {
      temperature = if fl.is_zero temperature then fl.seven_tenths else temperature;
      top_k = 40;
      top_p = fl.nineteen_twentieths;
      max_output_tokens = if is_zero_int max_output_tokens then pos 2048 else max_output_tokens;
    };
  }
    where
      is_zero_int : ℤ → Bool
      is_zero_int (pos zero) = true
      is_zero_int _ = false

  unfoldable pub read_body : ℕ → String → Result Error (ChatResponse D)
  unfolding chat_response
  read_body status raw =
      if ltb status 200 || leb 300 status
      then err (api_status status raw)
      else elim (http.unmarshal raw) [
        | err e ↦ err (unmarshal_response e)
        | ok gres ↦ ok (chat_response gres)
      ]

  unfoldable pub endpoint : Client → String → String
  endpoint c model =
      str_append c.api_url (
        str_append "/" (str_append (if str_eq model "" then c.model else model) ":generateContent"))

  unfoldable pub send_request :
      Client → ChatRequest D → fl.F → ℤ → String → Result Error (ChatResponse D)
  unfolding build_request read_body endpoint
  send_request c req temperature max_output_tokens model =
      elim (http.post (endpoint c model) c.api_key
        (build_request req temperature max_output_tokens)) [
          | err e ↦ err (http_error e)
          | ok (status, raw) ↦ read_body status raw
        ]

  unfoldable pub chat_with_config :
      Option Client → ChatRequest D → fl.F → ℤ → String → Result Error (ChatResponse D)
  unfolding is_available send_request
  chat_with_config none req temperature max_output_tokens model = err api_key_required
  chat_with_config (some c) req temperature max_output_tokens model =
      if str_eq c.api_key ""
      then err api_key_required
      else send_request c req temperature max_output_tokens model

  unfoldable pub chat : Option Client → ChatRequest D → Result Error (ChatResponse D)
  unfolding chat_with_config
  chat c req = chat_with_config c req fl.seven_tenths (pos 2048) ""

  unfoldable pub prompt_request : String → ChatRequest D
  prompt_request prompt = record {
    system_prompt = "";
    history = [];
    user_text = prompt;
    tools = [];
    locale_hint = "";
  }

  unfoldable pub generate_text_with_config :
      Option Client → String → fl.F → ℤ → String → Result Error String
  unfolding chat_with_config prompt_request
  generate_text_with_config c prompt temperature max_output_tokens model =
      elim (chat_with_config c (prompt_request prompt) temperature max_output_tokens model) [
        | err e ↦ err e
        | ok resp ↦ ok resp.text
      ]

  unfoldable pub generate_text : Option Client → String → Result Error String
  unfolding generate_text_with_config
  generate_text c prompt = generate_text_with_config c prompt fl.seven_tenths (pos 500) ""
