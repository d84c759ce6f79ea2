-- ===== src/GeminiText/Calls.antt =====
-- ai/llm/geminitext/client.go: the grouping of tool calls on the wire, and what a response comes to.
use gopkg.Common.{
  ℕ, zero, suc, ◌≡◌, ◌∙◌, refl, sym, ap, arith, inl, inr, Bool, true, false, not, ◌&&◌, List, [],
  ◌∷◌, ◌++◌, append_assoc, length, none, some, String, str_eq, string_comparable, list_eq,
  list_eq_refl, if◌then◌else◌, Bool-cases,
}
use gopkg.Orchestrator.{ChatTurn, ChatRequest}
use gopkg.GeminiText.{
  GeminiPart, GeminiContent, call_part, response_part, text_content, is_tool, turn_contents,
  tool_run, after_run, call_parts, response_parts, run_contents, history_contents, chat_contents,
}
use gopkg.GeminiText.Contents.{is_calls}

module _ {D : Type 0} where
  -- The names of the calls and of the responses of a content.
  unfoldable pub call_names : List (GeminiPart D) → List String
  call_names [] = []
  call_names (p ∷ ps) = elim p.function_call [
    | none ↦ call_names ps
    | some c ↦ c.name ∷ call_names ps
  ]

  unfoldable pub response_names : List (GeminiPart D) → List String
  response_names [] = []
  response_names (p ∷ ps) = elim p.function_response [
    | none ↦ response_names ps
    | some r ↦ r.name ∷ response_names ps
  ]

  unfoldable pub starts_calls : List (GeminiContent D) → Bool
  unfolding is_calls
  starts_calls [] = false
  starts_calls (c ∷ cs) = is_calls c

  -- Every content of calls is followed by one with a response for each call, and that one by no other
  -- calls.
  unfoldable pub grouped : List (GeminiContent D) → Bool
  unfolding call_names response_names starts_calls is_calls
  grouped [] = true
  grouped (c ∷ []) = not (is_calls c)
  grouped (c ∷ r ∷ cs) =
      let plain = grouped (r ∷ cs) in
      let after = grouped cs in
      if is_calls c
      then list_eq string_comparable (call_names c.parts) (response_names r.parts)
        && (not (starts_calls cs) && after)
      else plain

  names-run :
      (ts : List (ChatTurn D)) → call_names (call_parts ts) ≡ response_names (response_parts ts)
  unfolding call_names response_names call_parts response_parts call_part response_part
  names-run [] = refl
  names-run (t ∷ ts) = ap (λ ns. t.tool_name ∷ ns) (names-run ts)

  grouped-text :
      (role text : String) (cs : List (GeminiContent D))
      → grouped cs ≡ true
      → grouped (text_content role text ∷ cs) ≡ true
  unfolding grouped text_content is_calls
  grouped-text role text [] g = refl
  grouped-text role text (c ∷ cs) g = g

  grouped-run :
      (t : ChatTurn D) (run : List (ChatTurn D)) (cs : List (GeminiContent D))
      → grouped cs ≡ true
      → starts_calls cs ≡ false
      → grouped (run_contents (t ∷ run) ++ cs) ≡ true
  unfolding grouped run_contents is_calls call_part call_parts
  grouped-run t run cs g s =
      rw
        (
          names-run (t ∷ run),
          list_eq_refl string_comparable (response_names (response_parts (t ∷ run))),
          s,
          g,
        )
        refl

  -- After a run no tool turn comes first.
  after_first :
      (t : ChatTurn D) (ts xs : List (ChatTurn D)) → after_run xs ≡ t ∷ ts → is_tool t ≡ false
  unfolding after_run
  after_first t ts [] e = absurd (ground (arith, e))
  after_first t ts (x ∷ xs) e = elim (Bool-cases (is_tool x)) [
    | inl tool ↦ after_first t ts xs (sym (rw (tool, after_run) refl) ∙ e)
    | inr other ↦
        let e' : x ∷ xs ≡ t ∷ ts = sym (rw (other, after_run) refl) ∙ e in ground (arith, other, e')
  ]

  starts-after :
      (fuel : ℕ) (h : List (ChatTurn D)) (cs : List (GeminiContent D))
      → ((t : ChatTurn D) (ts : List (ChatTurn D)) → h ≡ t ∷ ts → is_tool t ≡ false)
      → starts_calls cs ≡ false
      → starts_calls (history_contents fuel h ++ cs) ≡ false
  unfolding history_contents starts_calls turn_contents text_content is_calls
  starts-after zero h cs f s = s
  starts-after (suc fuel) [] cs f s = s
  starts-after (suc fuel) (t ∷ ts) cs f s =
      let role : String = if str_eq t.role "assistant" then "model" else "user" in
      let shape : turn_contents t ≡ text_content role t.text ∷ [] =
        rw (f t ts refl, turn_contents) refl in
      let step : starts_calls ((turn_contents t ++ history_contents fuel ts) ++ cs) ≡ false =
        ap (λ zs. starts_calls ((zs ++ history_contents fuel ts) ++ cs)) shape in
      rw (f t ts refl, history_contents) step

  grouped-history :
      (fuel : ℕ) (h : List (ChatTurn D)) (cs : List (GeminiContent D))
      → grouped cs ≡ true
      → starts_calls cs ≡ false
      → grouped (history_contents fuel h ++ cs) ≡ true
  unfolding history_contents
  grouped-history zero h cs g s = g
  grouped-history (suc fuel) [] cs g s = g
  grouped-history (suc fuel) (t ∷ ts) cs g s = elim (Bool-cases (is_tool t)) [
    | inl tool ↦
        let rest = after_run (t ∷ ts) in
        let later = history_contents fuel rest ++ cs in
        let run : tool_run (t ∷ ts) ≡ t ∷ tool_run ts = rw (tool, tool_run) refl in
        let step : grouped ((run_contents (tool_run (t ∷ ts)) ++ history_contents fuel rest) ++ cs)
            ≡ true =
          ap grouped
            (append_assoc (run_contents (tool_run (t ∷ ts))) (history_contents fuel rest) cs)
          ∙ ap (λ r. grouped (run_contents r ++ later)) run
          ∙ grouped-run t (tool_run ts) later (grouped-history fuel rest cs g s)
              (starts-after fuel rest cs (λ u us e. after_first u us (t ∷ ts) e) s) in
        rw (tool, history_contents) step
    | inr other ↦
        let role : String = if str_eq t.role "assistant" then "model" else "user" in
        let shape : turn_contents t ≡ text_content role t.text ∷ [] =
          rw (other, turn_contents) refl in
        let step : grouped ((turn_contents t ++ history_contents fuel ts) ++ cs) ≡ true =
          ap (λ zs. grouped ((zs ++ history_contents fuel ts) ++ cs)) shape
          ∙ grouped-text role t.text (history_contents fuel ts ++ cs)
              (grouped-history fuel ts cs g s) in
        rw (other, history_contents) step
  ]

  -- In the contents of every request, each content of function calls is followed by one content with a
  -- response to each call, by name and in order, and no two groups of calls stand side by side.
  pub chat_contents-grouped : (req : ChatRequest D) → grouped (chat_contents req) ≡ true
  unfolding chat_contents text_content is_calls grouped starts_calls
  chat_contents-grouped req = elim (Bool-cases (str_eq req.user_text "")) [
    | inl e ↦ rw (e, chat_contents) (grouped-history (length req.history) req.history [] refl refl)
    | inr e ↦
        rw (e, chat_contents)
          (grouped-history (length req.history) req.history (text_content "user" req.user_text ∷ [])
            refl refl)
  ]
