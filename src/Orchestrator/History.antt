-- ===== src/Orchestrator/History.antt =====
-- ai/orchestrator: what the model is told in each round, and how many rounds there are.
use gopkg.Common.{
  Each, List-cases, ℕ, zero, suc, ◌+◌, ◌≤◌, ◌≡◌, ◌∙◌, refl, sym, ap, subst, arith, List, [], ◌∷◌,
  ◌++◌, map, map-append, append_assoc, append-nil, length, length-append, Option-cases,
  Result-cases, inl, inr, String, str_eq, if◌then◌else◌, Result, ok, err,
}
use gopkg.Orchestrator.{
  Message, messages_to_turns, text_turn, ToolCall, ChatTurn, ChatRequest, ChatResponse, Error,
  Provider, ToolExecution, Config, Reply, Run, chat, tool_turn, execute, run_tools, make_request,
  max_hops, hops, first_turns, process,
}

ok_inj {ℓ κ} : {E : Type ℓ} {A : Type κ} {x y : A} → ◌≡◌ {A = Result E A} (ok x) (ok y) → x ≡ y
ok_inj e = cc

-- Who speaks, of the roles that a message may have.
speaker : String → String
speaker role =
    if str_eq role "assistant"
    then "assistant"
    else if str_eq role "model"
    then "assistant"
    else "user"

module _ {D : Type 0} where
  -- The turn of a message, and that of a tool.
  unfoldable pub Says : Message → ChatTurn D → Type 0
  unfolding speaker
  Says m t = (t.role ≡ speaker m.role) × (t.text ≡ m.content)

  unfoldable pub Reports : ToolExecution D → ChatTurn D → Type 0
  Reports x t =
      (t.role ≡ "tool")
      × (t.tool_name ≡ x.call.name)
      × (t.tool_args ≡ x.call.args)
      × (t.tool_result ≡ x.result)
      × (t.tool_sig ≡ x.call.thought_signature)

  tools_reported : (xs : List (ToolExecution D)) → Each Reports xs (map tool_turn xs)
  unfolding Each Reports tool_turn
  tools_reported [] = tt
  tools_reported (x ∷ xs) = ((refl, refl, refl, refl, refl), tools_reported xs)

messages_said : (D : Type 0) (ms : List Message) → Each Says ms (messages_to_turns {D = D} ms)
unfolding Each Says messages_to_turns text_turn
messages_said D [] = tt
messages_said D (m ∷ ms) = ((ground arith, refl), messages_said D ms)

module _ {D : Type 0} (providers : List (Provider D)) (cfg : Config D) where
  -- The turns are those that the message came with, and one for each tool that ran.
  Told : List (ChatTurn D) → List (ChatTurn D) → List (ToolExecution D) → Type 0
  Told start turns done = turns ≡ start ++ map tool_turn done

  Told-more :
      (start turns : List (ChatTurn D)) (done : List (ToolExecution D)) (x : ToolExecution D)
      → Told start turns done
      → Told start (turns ++ tool_turn x ∷ []) (done ++ x ∷ [])
  unfolding Told
  Told-more start turns done x h =
      ap (λ l. l ++ tool_turn x ∷ []) h
      ∙ append_assoc start (map tool_turn done) (tool_turn x ∷ [])
      ∙ ap (λ l. start ++ l) (sym (map-append tool_turn done (x ∷ [])))

  run_tools-Told :
      (start : List (ChatTurn D)) (calls : List (ToolCall D)) (turns : List (ChatTurn D))
      (done : List (ToolExecution D)) (turns' : List (ChatTurn D)) (done' : List (ToolExecution D))
      → run_tools providers cfg calls turns done ≡ ok (turns', done')
      → Told start turns done
      → Told start turns' done'
  unfolding run_tools
  run_tools-Told start [] turns done turns' done' e t =
      subst (λ (p : List (ChatTurn D) × List (ToolExecution D)). Told start p.0 p.1) (ok_inj e) t
  run_tools-Told start (call ∷ calls) turns done turns' done' e t =
      elim (Option-cases cfg.dispatcher) [
        | inl k ↦ absurd (ground arith)
        | inr (dispatcher, k) ↦
            let x = execute providers cfg dispatcher call done in
            run_tools-Told start calls (turns ++ tool_turn x ∷ []) (done ++ x ∷ []) turns' done'
              (ground arith) (Told-more start turns done x t)
      ]

  -- What a reply rests on: the last request, its turns, and the response to it.
  record Rests (start : List (ChatTurn D)) (run : Run D) (reply : Reply D) : Type 0 where
    before : List (ChatRequest D)
    turns : List (ChatTurn D)
    made : run.requests ≡ before ++ make_request providers cfg turns ∷ []
    told : turns ≡ start ++ map tool_turn reply.tool_history
    hop : ℕ
    resp : ChatResponse D
    answered : chat providers hop (make_request providers cfg turns) ≡ ok resp
    said : reply.assistant_text ≡ resp.text

  -- A round that the model ends, and one that goes on.
  hops_end :
      (left hop : ℕ) (turns : List (ChatTurn D)) (done : List (ToolExecution D))
      (requests : List (ChatRequest D)) (resp : ChatResponse D)
      → chat providers hop (make_request providers cfg turns) ≡ ok resp
      → resp.tool_calls ≡ []
      → hops providers cfg (suc left) hop turns done requests ≡ record {
        requests = requests ++ make_request providers cfg turns ∷ [];
        outcome = ok (record {
          assistant_text = resp.text;
          tool_history = done;
          finish_reason = resp.finish_reason;
        });
      }
  unfolding hops
  hops_end left hop turns done requests resp k n = ground arith

  hops_more :
      (left hop : ℕ) (turns : List (ChatTurn D)) (done : List (ToolExecution D))
      (requests : List (ChatRequest D)) (resp : ChatResponse D) (c : ToolCall D)
      (cs : List (ToolCall D)) (turns' : List (ChatTurn D)) (done' : List (ToolExecution D))
      → chat providers hop (make_request providers cfg turns) ≡ ok resp
      → resp.tool_calls ≡ c ∷ cs
      → run_tools providers cfg resp.tool_calls turns done ≡ ok (turns', done')
      → hops providers cfg (suc left) hop turns done requests
        ≡ hops providers cfg left
            (suc hop)
            turns'
            done'
            (requests ++ make_request providers cfg turns ∷ [])
  unfolding hops
  hops_more left hop turns done requests resp c cs turns' done' k n r = ground arith

  out_of_hops :
      (hop : ℕ) (turns : List (ChatTurn D)) (done : List (ToolExecution D))
      (requests : List (ChatRequest D)) (reply : Reply D)
      → (hops providers cfg zero hop turns done requests).outcome ≡ ok reply
      → ⊥
  unfolding hops
  out_of_hops hop turns done requests reply e = cc

  chat_failed :
      (left hop : ℕ) (turns : List (ChatTurn D)) (done : List (ToolExecution D))
      (requests : List (ChatRequest D)) (reply : Reply D) (x : Error)
      → chat providers hop (make_request providers cfg turns) ≡ err x
      → (hops providers cfg (suc left) hop turns done requests).outcome ≡ ok reply
      → ⊥
  unfolding hops
  chat_failed left hop turns done requests reply x k e = ground arith

  tools_failed :
      (left hop : ℕ) (turns : List (ChatTurn D)) (done : List (ToolExecution D))
      (requests : List (ChatRequest D)) (reply : Reply D) (resp : ChatResponse D) (c : ToolCall D)
      (cs : List (ToolCall D)) (x : Error)
      → chat providers hop (make_request providers cfg turns) ≡ ok resp
      → resp.tool_calls ≡ c ∷ cs
      → run_tools providers cfg resp.tool_calls turns done ≡ err x
      → (hops providers cfg (suc left) hop turns done requests).outcome ≡ ok reply
      → ⊥
  unfolding hops
  tools_failed left hop turns done requests reply resp c cs x k n r e = ground arith

  ended :
      {start : List (ChatTurn D)} (left hop : ℕ) (turns : List (ChatTurn D))
      (done : List (ToolExecution D)) (requests : List (ChatRequest D)) (reply : Reply D)
      (resp : ChatResponse D)
      → Told start turns done
      → chat providers hop (make_request providers cfg turns) ≡ ok resp
      → resp.tool_calls ≡ []
      → (hops providers cfg (suc left) hop turns done requests).outcome ≡ ok reply
      → Rests start (hops providers cfg (suc left) hop turns done requests) reply
  unfolding Told
  ended {start} left hop turns done requests reply resp t k n e =
      let end = hops_end left hop turns done requests resp k n in
      let same = ok_inj (ap (λ (u : Run D). u.outcome) (sym end) ∙ e) in
      record {
        before = requests;
        turns = turns;
        made = ap (λ (u : Run D). u.requests) end;
        told =
            t
            ∙ ap (λ (l : List (ToolExecution D)). start ++ map tool_turn l)
                (ap (λ (a : Reply D). a.tool_history) same);
        hop = hop;
        resp = resp;
        answered = k;
        said = sym (ap (λ (a : Reply D). a.assistant_text) same);
      }

  hops-Rests :
      (start : List (ChatTurn D)) (left hop : ℕ) (turns : List (ChatTurn D))
      (done : List (ToolExecution D)) (requests : List (ChatRequest D)) (reply : Reply D)
      → (hops providers cfg left hop turns done requests).outcome ≡ ok reply
      → Told start turns done
      → Rests start (hops providers cfg left hop turns done requests) reply
  hops-Rests start zero hop turns done requests reply e t =
      absurd (out_of_hops hop turns done requests reply e)
  hops-Rests start (suc left) hop turns done requests reply e t =
      elim (Result-cases (chat providers hop (make_request providers cfg turns))) [
        | inr (x, k) ↦ absurd (chat_failed left hop turns done requests reply x k e)
        | inl (resp, k) ↦ elim (List-cases resp.tool_calls) [
          | inl n ↦ ended left hop turns done requests reply resp t k n e
          | inr (c, cs, n) ↦
              elim (Result-cases (run_tools providers cfg resp.tool_calls turns done)) [
                | inr (x, r) ↦
                    absurd (tools_failed left hop turns done requests reply resp c cs x k n r e)
                | inl ((turns', done'), r) ↦
                    let requests' = requests ++ make_request providers cfg turns ∷ [] in
                    let more =
                      hops_more left hop turns done requests resp c cs turns' done' k n r in
                    subst (λ (u : Run D). Rests start u reply) (sym more)
                      (hops-Rests start left (suc hop) turns' done' requests' reply
                        (ap (λ (u : Run D). u.outcome) (sym more) ∙ e)
                        (run_tools-Told start resp.tool_calls turns done turns' done' r t))
              ]
        ]
      ]

  process-Rests :
      (user_text : String) (reply : Reply D)
      → (process providers cfg user_text).outcome ≡ ok reply
      → Rests (first_turns providers cfg user_text) (process providers cfg user_text) reply
  unfolding process Told
  process-Rests user_text reply e =
      let start = first_turns providers cfg user_text in
      hops-Rests start (max_hops providers cfg) 0 start [] [] reply e (sym (append-nil start))

  -- The last request holds the earlier messages, then the user's text, then a turn for each tool that ran,
  -- and its response is the reply.
  pub record Informed (user_text : String) (run : Run D) (reply : Reply D) : Type 0 where
    pub before : List (ChatRequest D)
    pub last : ChatRequest D
    pub made : run.requests ≡ before ++ last ∷ []
    pub earlier : List (ChatTurn D)
    pub question : ChatTurn D
    pub tools : List (ChatTurn D)
    pub history : last.history ≡ earlier ++ question ∷ tools
    pub messages : Each Says cfg.history earlier
    pub asked : (question.role ≡ "user") × (question.text ≡ user_text)
    pub ran : Each Reports reply.tool_history tools
    pub prompt : (last.system_prompt ≡ cfg.system_prompt) × (last.user_text ≡ "")
    pub hop : ℕ
    pub resp : ChatResponse D
    pub answered : chat providers hop last ≡ ok resp
    pub said : reply.assistant_text ≡ resp.text

  -- A reply rests on all that was done for it: the last request to the model holds a turn for each of the
  -- earlier messages, with its text and its speaker, then one with the user's text, and then one for
  -- every tool call of the reply's history, with the tool's name, its arguments, its result and its
  -- signature, in order; and the reply's text is that of the response to this request.
  pub process-Informed :
      (user_text : String) (reply : Reply D)
      → (process providers cfg user_text).outcome ≡ ok reply
      → Informed user_text (process providers cfg user_text) reply
  unfolding make_request first_turns text_turn
  process-Informed user_text reply e =
      let r = process-Rests user_text reply e in
      record {
        before = r.before;
        last = make_request providers cfg r.turns;
        made = r.made;
        earlier = messages_to_turns cfg.history;
        question = text_turn "user" user_text;
        tools = map tool_turn reply.tool_history;
        history =
            r.told
            ∙ append_assoc (messages_to_turns cfg.history) (text_turn "user" user_text ∷ [])
                (map tool_turn reply.tool_history);
        messages = messages_said D cfg.history;
        asked = (refl, refl);
        ran = tools_reported reply.tool_history;
        prompt = (refl, refl);
        hop = r.hop;
        resp = r.resp;
        answered = r.answered;
        said = r.said;
      }

  hops_bounded :
      (left hop : ℕ) (turns : List (ChatTurn D)) (done : List (ToolExecution D))
      (requests : List (ChatRequest D))
      → length (hops providers cfg left hop turns done requests).requests ≤ length requests + left
  unfolding hops
  hops_bounded zero hop turns done requests = omega arith
  hops_bounded (suc left) hop turns done requests =
      elim (Result-cases (chat providers hop (make_request providers cfg turns))) [
        | inr (x, k) ↦
            ground (arith, length-append requests (make_request providers cfg turns ∷ []))
        | inl (resp, k) ↦ elim (List-cases resp.tool_calls) [
          | inl n ↦ ground (arith, length-append requests (make_request providers cfg turns ∷ []))
          | inr (c, cs, n) ↦
              elim (Result-cases (run_tools providers cfg resp.tool_calls turns done)) [
                | inr (x, r) ↦
                    ground (arith, length-append requests (make_request providers cfg turns ∷ []))
                | inl ((turns', done'), r) ↦
                    let requests' = requests ++ make_request providers cfg turns ∷ [] in
                    rw (hops_more left hop turns done requests resp c cs turns' done' k n r) (
                      omega (
                        arith,
                        hops_bounded left (suc hop) turns' done' requests',
                        length-append requests (make_request providers cfg turns ∷ []),
                      ))
              ]
        ]
      ]

  -- The loop ends: it makes at most as many requests as the limit on hops allows, whatever the model
  -- answers.
  pub process_bounded :
      (user_text : String)
      → length (process providers cfg user_text).requests ≤ max_hops providers cfg
  unfolding process
  process_bounded user_text =
      omega
        (arith, hops_bounded (max_hops providers cfg) 0 (first_turns providers cfg user_text) [] [])
