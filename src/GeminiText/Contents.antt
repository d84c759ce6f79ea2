-- ===== src/GeminiText/Contents.antt =====
-- ai/llm/geminitext/client.go, chatContents: the wire contents hold the whole conversation.
use gopkg.Common.{
  ℕ, zero, suc, ◌≤◌, ◌≡◌, ◌∙◌, refl, sym, ap, ap₂, subst, arith, inl, inr, Bool, true, false, List,
  [], ◌∷◌, ◌++◌, append_assoc, map, map-append, length, Option, none, some, String, str_eq,
  if◌then◌else◌, Bool-cases,
}
use gopkg.Orchestrator.{ChatTurn, ChatRequest}
use gopkg.GeminiText.{
  GeminiPart, GeminiContent, call_part, text_content, is_tool, turn_contents, tool_run, after_run,
  call_parts, response_parts, run_contents, history_contents, chat_contents,
}

-- What the wire keeps of a turn: of a tool's turn all but its text; of another one its text and whether
-- it is the assistant's.
unfoldable pub wire_turn : {D : Type 0} → ChatTurn D → ChatTurn D
unfolding is_tool
wire_turn t = if is_tool t then record t { role = "tool"; text = "" } else record {
  role = if str_eq t.role "assistant" then "assistant" else "user";
  text = t.text;
  tool_name = "";
  tool_args = [];
  tool_result = none;
  tool_sig = "";
}

unfoldable pub text_turn : {D : Type 0} → String → String → ChatTurn D
text_turn role text = record {
  role = role;
  text = text;
  tool_name = "";
  tool_args = [];
  tool_result = none;
  tool_sig = "";
}

module _ {D : Type 0} where
  -- A reader of the wire: the i-th call of a content belongs to the i-th response of the next one.
  unfoldable pub result_of : GeminiPart D → Option D
  result_of p = elim p.function_response [
    | none ↦ none
    | some r ↦ elim r.response [ [] ↦ none | (key, v) ∷ _ ↦ v ]
  ]

  unfoldable pub join_parts : List (GeminiPart D) → List (GeminiPart D) → List (ChatTurn D)
  unfolding result_of
  join_parts (c ∷ cs) (r ∷ rs) = elim c.function_call [
    | none ↦ join_parts cs rs
    | some call ↦
        record {
          role = "tool";
          text = "";
          tool_name = call.name;
          tool_args = call.args;
          tool_result = result_of r;
          tool_sig = c.thought_signature;
        }
        ∷ join_parts cs rs
  ]
  join_parts _ _ = []

  -- Whether a content is one of calls, and the text of one that is not.
  unfoldable pub is_calls : GeminiContent D → Bool
  is_calls c = elim c.parts [
    | [] ↦ false
    | p ∷ _ ↦ elim p.function_call [ none ↦ false | some call ↦ true ]
  ]

  unfoldable pub read_text : GeminiContent D → ChatTurn D
  unfolding text_turn
  read_text c =
      text_turn (if str_eq c.role "model" then "assistant" else "user")
        (elim c.parts [ [] ↦ "" | p ∷ _ ↦ p.text ])

  unfoldable pub read_contents : List (GeminiContent D) → List (ChatTurn D)
  unfolding join_parts is_calls read_text
  read_contents [] = []
  read_contents (c ∷ []) = read_text c ∷ []
  read_contents (c ∷ r ∷ cs) =
      let text_first = read_text c ∷ read_contents (r ∷ cs) in
      let calls_first = join_parts c.parts r.parts ++ read_contents cs in
      if is_calls c then calls_first else text_first

  join-run :
      (ts : List (ChatTurn D))
      → join_parts (call_parts (tool_run ts)) (response_parts (tool_run ts))
        ≡ map wire_turn (tool_run ts)
  unfolding tool_run join_parts call_parts response_parts wire_turn
  join-run [] = refl
  join-run (t ∷ ts) = elim (Bool-cases (is_tool t)) [
    | inl tool ↦ rw tool (ap₂ (λ x xs. x ∷ xs) (rw tool refl) (join-run ts))
    | inr other ↦ rw other refl
  ]

  run-after : (ts : List (ChatTurn D)) → tool_run ts ++ after_run ts ≡ ts
  unfolding tool_run after_run
  run-after [] = refl
  run-after (t ∷ ts) = elim (Bool-cases (is_tool t)) [
    | inl tool ↦ rw tool (ap (λ xs. t ∷ xs) (run-after ts))
    | inr other ↦ rw other refl
  ]

  length-after_run : (ts : List (ChatTurn D)) → length (after_run ts) ≤ length ts
  unfolding after_run
  length-after_run [] = omega arith
  length-after_run (t ∷ ts) = ground (arith, length-after_run ts)

  read-text :
      (role text : String) (cs : List (GeminiContent D))
      → read_contents (text_content role text ∷ cs)
        ≡ text_turn (if str_eq role "model" then "assistant" else "user") text ∷ read_contents cs
  unfolding read_contents text_content
  read-text role text [] = refl
  read-text role text (c ∷ cs) = refl

  tool_first :
      (t : ChatTurn D) (ts : List (ChatTurn D))
      → is_tool t ≡ true
      → tool_run (t ∷ ts) ≡ t ∷ tool_run ts
  unfolding tool_run
  tool_first t ts tool = rw tool refl

  read-pair :
      (t : ChatTurn D) (run : List (ChatTurn D)) (cs : List (GeminiContent D))
      → read_contents (run_contents (t ∷ run) ++ cs)
        ≡ join_parts (call_parts (t ∷ run)) (response_parts (t ∷ run)) ++ read_contents cs
  unfolding read_contents run_contents is_calls call_parts call_part
  read-pair t run cs = refl

  read-run :
      (t : ChatTurn D) (ts : List (ChatTurn D)) (cs : List (GeminiContent D))
      → is_tool t ≡ true
      → read_contents (run_contents (tool_run (t ∷ ts)) ++ cs)
        ≡ map wire_turn (tool_run (t ∷ ts)) ++ read_contents cs
  read-run t ts cs tool =
      subst
        (λ run.
          read_contents (run_contents run ++ cs)
          ≡ join_parts (call_parts run) (response_parts run) ++ read_contents cs)
        (sym (tool_first t ts tool)) (read-pair t (tool_run ts) cs)
      ∙ ap (λ zs. zs ++ read_contents cs) (join-run (t ∷ ts))

  wire-text :
      (t : ChatTurn D)
      → is_tool t ≡ false
      → (turn_contents t
          ≡ text_content (if str_eq t.role "assistant" then "model" else "user") t.text ∷ [])
        × (text_turn
              (if str_eq (if str_eq t.role "assistant" then "model" else "user") "model"
                then "assistant"
                else "user")
              t.text
            ≡ wire_turn t)
  unfolding turn_contents wire_turn text_turn
  wire-text t other = elim (Bool-cases (str_eq t.role "assistant")) [
    | inl e ↦ rw (other, e) (refl, refl)
    | inr e ↦ rw (other, e) (refl, refl)
  ]

  read-history :
      (fuel : ℕ) (h : List (ChatTurn D)) (cs : List (GeminiContent D))
      → length h ≤ fuel
      → read_contents (history_contents fuel h ++ cs) ≡ map wire_turn h ++ read_contents cs
  unfolding history_contents after_run
  read-history zero [] cs le = refl
  read-history zero (t ∷ ts) cs le = absurd (omega (arith, le))
  read-history (suc fuel) [] cs le = refl
  read-history (suc fuel) (t ∷ ts) cs le = elim (Bool-cases (is_tool t)) [
    | inl tool ↦
        let run = tool_run (t ∷ ts) in
        let later = history_contents fuel (after_run (t ∷ ts)) in
        let step : read_contents ((run_contents run ++ later) ++ cs)
            ≡ map wire_turn (t ∷ ts) ++ read_contents cs =
          ap read_contents (append_assoc (run_contents run) later cs)
          ∙ read-run t ts (later ++ cs) tool
          ∙ ap (λ zs. map wire_turn run ++ zs)
              (read-history fuel (after_run (t ∷ ts)) cs
                (ground (arith, tool, le, length-after_run ts)))
          ∙ sym (
              append_assoc (map wire_turn run) (map wire_turn (after_run (t ∷ ts)))
                (read_contents cs))
          ∙ ap (λ zs. zs ++ read_contents cs)
              (sym (map-append wire_turn run (after_run (t ∷ ts)))
                ∙ ap (map wire_turn) (run-after (t ∷ ts))) in
        rw (tool, history_contents) step
    | inr other ↦
        let (shape, kept) = wire-text t other in
        let role : String = if str_eq t.role "assistant" then "model" else "user" in
        let later = history_contents fuel ts in
        let step : read_contents ((turn_contents t ++ later) ++ cs)
            ≡ map wire_turn (t ∷ ts) ++ read_contents cs =
          ap (λ zs. read_contents ((zs ++ later) ++ cs)) shape
          ∙ read-text role t.text (later ++ cs)
          ∙ ap₂ (λ x xs. x ∷ xs) kept (read-history fuel ts cs (omega (arith, le))) in
        rw (other, history_contents) step
  ]

  -- The contents of a request can be read back: each turn of the history, with the assistant's and the
  -- user's texts, and with every tool call, its arguments, signature and result, in order and in spite of
  -- the grouping of the calls; then the user's new text, if there is one.
  pub read-chat_contents :
      (req : ChatRequest D)
      → read_contents (chat_contents req)
        ≡ map wire_turn req.history
          ++ (if str_eq req.user_text "" then [] else text_turn "user" req.user_text ∷ [])
  unfolding chat_contents read_contents
  read-chat_contents req =
      read-history (length req.history) req.history _ (omega arith)
      ∙ ap (λ zs. map wire_turn req.history ++ zs)
          (elim (Bool-cases (str_eq req.user_text "")) [
            | inl e ↦ rw e refl
            | inr e ↦ rw e (read-text "user" req.user_text [])
          ])
