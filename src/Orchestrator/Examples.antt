-- ===== src/Orchestrator/Examples.antt =====
-- ai/orchestrator: a model that asks for the weather once, and one that never stops asking.
use gopkg.Common.{
  ℕ, zero, suc, ◌≤◌, ◌≡◌, refl, List, [], ◌∷◌, length, none, some, Result, ok, err, pos,
}
use gopkg.Common.Text.{codes}
use gopkg.Orchestrator.Prompts.{build_system_prompt}
use gopkg.Orchestrator.{
  ToolCall, ChatResponse, Error, hop_limit, Provider, Config, Reply, max_hops, process,
}
use gopkg.Orchestrator.History.{Informed, process-Informed, process_bounded}

abbrev ask : ToolCall ℕ
ask = record { id = "1"; name = "weather"; args = []; thought_signature = "s" }

abbrev answer_with : List (ToolCall ℕ) → ChatResponse ℕ
answer_with calls = record {
  text = "sunny";
  tool_calls = calls;
  finish_reason = "stop";
  usage = record { prompt_tokens = pos 0; completion_tokens = pos 0; total_tokens = pos 0 };
}

abbrev asks_once : ℕ → Result Error (ChatResponse ℕ)
asks_once zero = ok (answer_with (ask ∷ []))
asks_once (suc n) = ok (answer_with [])

abbrev model : List (Provider ℕ)
model = record { name = "m"; chat = λ hop req. asks_once hop } ∷ []

abbrev restless : List (Provider ℕ)
restless = record { name = "r"; chat = λ hop req. ok (answer_with (ask ∷ [])) } ∷ []

abbrev cfg : Config ℕ
cfg = record {
  system_prompt = "";
  tools = [];
  locale_hint = "en";
  history = record { role = "model"; content = "hi" } ∷ [];
  max_tool_hops = pos 0;
  dispatcher = some (λ n call. (some 21, none));
}

abbrev reply : Reply ℕ
reply = record {
  assistant_text = "sunny";
  tool_history = record { call = ask; result = some 21; error = none } ∷ [];
  finish_reason = "stop";
}

replied : (process model cfg "weather?").outcome ≡ ok reply
unfolding process
replied = refl

gives_up : (process restless cfg "weather?").outcome ≡ err (hop_limit 5)
unfolding process
gives_up = refl

process-Informed_example : Informed model cfg "weather?" (process model cfg "weather?") reply
process-Informed_example = process-Informed model cfg "weather?" reply replied

process_bounded_example : length (process restless cfg "weather?").requests ≤ max_hops restless cfg
process_bounded_example = process_bounded restless cfg "weather?"

prompt_with_hint :
    build_system_prompt "You are kind." (record { channel = "web"; hint = "Be brief." })
    ≡ "[Channel: web - Be brief.]\n\nYou are kind."
unfolding build_system_prompt
prompt_with_hint = refl

prompt_alone :
    build_system_prompt "You are kind." (record { channel = "web"; hint = "" }) ≡ "You are kind."
unfolding build_system_prompt
prompt_alone = refl

-- The escape is one character.
line_break : codes "\n" ≡ 10 ∷ []
line_break = refl
