-- ===== src/GeminiText/Answers.antt =====
-- ai/llm/geminitext/client.go: what a response comes to, and when there is one.
use gopkg.Common.{
  ℕ, ◌≤◌, ◌<◌, ◌≡◌, ◌∙◌, refl, sym, ap, ap₂, subst, arith, inl, inr, false, ◌||◌, List, [], ◌∷◌,
  ◌++◌, append_assoc, append-nil, none, some, Option-cases, Result-cases, String, str_eq,
  string_comparable, Bool-cases, ok, ltb, leb, ℤ,
}
use Prim.Native.String.{◌++◌ as str_append}
use text.Mathlib.TextLemmas
use gopkg.Orchestrator.{ToolCall, ChatRequest, ChatResponse}
use gopkg.GeminiText.{
  GeminiPart, GeminiResponse, Candidate, add_text, tool_call_of, add_part, add_parts,
  empty_response, chat_response,
}
use gopkg.GeminiText.Client.{
  Client, Http, Floats, build_request, read_body, endpoint, send_request, chat_with_config,
}

module _ {D : Type 0} where
  -- The texts of the parts, one after the other, and their function calls.
  unfoldable pub texts_of : List (GeminiPart D) → String
  texts_of [] = ""
  texts_of (p ∷ ps) = str_append p.text (texts_of ps)

  unfoldable pub calls_of : List (GeminiPart D) → List (ToolCall D)
  unfolding tool_call_of
  calls_of [] = []
  calls_of (p ∷ ps) = elim p.function_call [
    | none ↦ calls_of ps
    | some c ↦ tool_call_of p c ∷ calls_of ps
  ]

  add-text :
      (t : String) (out : ChatResponse D)
      → add_text t out ≡ record out { text = str_append out.text t }
  unfolding add_text
  add-text t out = elim (Bool-cases (str_eq t "")) [
    | inl e ↦ rw e (
        ap (λ x. record out { text = x })
          (sym (TextLemmas.append-nil out.text)
            ∙ ap (str_append out.text) (sym ((string_comparable.beq_iff t "").0 e))))
    | inr e ↦ rw e refl
  ]

  add_parts-all :
      (ps : List (GeminiPart D)) (out : ChatResponse D)
      → add_parts ps out ≡ record out {
        text = str_append out.text (texts_of ps);
        tool_calls = out.tool_calls ++ calls_of ps;
      }
  unfolding add_parts add_part texts_of calls_of
  add_parts-all [] out =
      ap₂ (λ x xs. record out { text = x; tool_calls = xs }) (sym (TextLemmas.append-nil out.text))
        (sym (append-nil out.tool_calls))
  add_parts-all (p ∷ ps) out = elim (Option-cases p.function_call) [
    | inl e ↦
        ap (add_parts ps) (rw (e, add_part) (add-text p.text out))
        ∙ add_parts-all ps (record out { text = str_append out.text p.text })
        ∙ rw e (
            ap (λ x. record out { text = x; tool_calls = out.tool_calls ++ calls_of ps })
              (TextLemmas.append_assoc out.text p.text (texts_of ps)))
    | inr (c, e) ↦
        let calls = out.tool_calls ++ tool_call_of p c ∷ [] in
        ap (add_parts ps) (
          rw (e, add_part)
            (ap
              (λ (o : ChatResponse D). record o {
                tool_calls = o.tool_calls ++ tool_call_of p c ∷ [];
              })
              (add-text p.text out)))
        ∙ add_parts-all ps (record out { text = str_append out.text p.text; tool_calls = calls })
        ∙ rw e (
            ap₂ (λ x xs. record out { text = x; tool_calls = xs })
              (TextLemmas.append_assoc out.text p.text (texts_of ps))
              (append_assoc out.tool_calls (tool_call_of p c ∷ []) (calls_of ps)))
  ]

-- What a response says: the texts and calls of its first candidate, or "empty" without a candidate.
unfoldable pub Says : {D : Type 0} → List (Candidate D) → ChatResponse D → Type 0
unfolding texts_of calls_of
Says [] resp = (resp.finish_reason ≡ "empty") × (resp.tool_calls ≡ []) × (resp.text ≡ "")
Says (c ∷ cs) resp =
    (resp.text ≡ texts_of c.content.parts)
    × (resp.tool_calls ≡ calls_of c.content.parts)
    × (resp.finish_reason ≡ c.finish_reason)

module _ {D : Type 0} (fl : Floats) (http : Http D fl) where
  -- The request was posted with the client's key and answered by a status of 200 to 299 and a body.
  pub record Answered (c : Client) (req : ChatRequest D) (temperature : fl.F)
      (max_output_tokens : ℤ) (model : String) (resp : ChatResponse D) : Type 0 where
    pub key_set : str_eq c.api_key "" ≡ false
    pub status : ℕ
    pub raw : String
    pub posted :
        http.post
          (endpoint fl http c model)
          c.api_key
          (build_request fl http req temperature max_output_tokens)
        ≡ ok (status, raw)
    pub success : (200 ≤ status) × (status < 300)
    pub body : GeminiResponse D
    pub parsed : http.unmarshal raw ≡ ok body
    pub says : Says body.candidates resp

  chat_response-Says : (gres : GeminiResponse D) → Says gres.candidates (chat_response gres)
  unfolding Says chat_response empty_response
  chat_response-Says gres =
      elim gres.candidates as (λ cs. Says cs (chat_response (record gres { candidates = cs }))) [
        | [] ↦ (refl, refl, refl)
        | cand ∷ cs ↦
            let out = empty_response cand.finish_reason gres.usage_metadata in
            let e = add_parts-all cand.content.parts out in
            (
              ap (λ (r : ChatResponse D). r.text) e
                  ∙ TextLemmas.nil-append (texts_of cand.content.parts),
              ap (λ (r : ChatResponse D). r.tool_calls) e,
              ap (λ (r : ChatResponse D). r.finish_reason) e,
            )
      ]

  -- What was read out of a body.
  read_body_cases :
      (status : ℕ) (raw : String) (resp : ChatResponse D)
      → read_body fl http status raw ≡ ok resp
      → ((200 ≤ status) × (status < 300))
        × ((gres : GeminiResponse D) × (http.unmarshal raw ≡ ok gres) × (chat_response gres ≡ resp))
  unfolding read_body
  read_body_cases status raw resp h = elim (Bool-cases (ltb status 200 || leb 300 status)) [
    | inl bad ↦ absurd (ground (arith, h, bad))
    | inr good ↦ elim (Result-cases (http.unmarshal raw)) [
      | inl (gres, e) ↦
          ((ground (arith, good), ground (arith, good)), (gres, e, ground (arith, h, good, e)))
      | inr (x, e) ↦ absurd (ground (arith, h, good, e))
    ]
  ]

  -- A response is what the service said: the client has a key, the service answered the request of this
  -- call with success, and the text and the tool calls are those of its first candidate.
  pub chat_with_config-Answered :
      (c : Client) (req : ChatRequest D) (temperature : fl.F) (max_output_tokens : ℤ)
      (model : String) (resp : ChatResponse D)
      → chat_with_config fl http (some c) req temperature max_output_tokens model ≡ ok resp
      → Answered c req temperature max_output_tokens model resp
  unfolding chat_with_config send_request
  chat_with_config-Answered c req temperature max_output_tokens model resp h =
      elim (Bool-cases (str_eq c.api_key "")) [
        | inl empty ↦ absurd (ground (arith, h, empty))
        | inr key_set ↦
            elim (Result-cases (
              http.post (endpoint fl http c model) c.api_key
                (build_request fl http req temperature max_output_tokens))) [
                  | inl ((status, raw), e) ↦
                      let (range, (gres, parsed, same)) =
                        read_body_cases status raw resp (ground (arith, h, key_set, e)) in
                      record {
                        key_set = key_set;
                        status = status;
                        raw = raw;
                        posted = e;
                        success = range;
                        body = gres;
                        parsed = parsed;
                        says = subst (Says gres.candidates) same (chat_response-Says gres);
                      }
                  | inr (x, e) ↦ absurd (ground (arith, h, key_set, e))
                ]
      ]
