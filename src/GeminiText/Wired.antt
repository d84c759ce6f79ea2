-- ===== src/GeminiText/Wired.antt =====
-- ai/orchestrator with ai/llm/geminitext as its provider: what reaches the service.
use gopkg.Common.{
  Each, ℕ, ◌≡◌, ◌∙◌, ap, arith, inl, inr, List, [], ◌∷◌, ◌++◌, append-nil, map, String, Result,
  Result-cases, ok, err, Option, some, pos,
}
use gopkg.Orchestrator.{
  ChatTurn, ChatRequest, ChatResponse, Provider, provider_error, Config, Reply, process,
}
use gopkg.Orchestrator
use gopkg.Orchestrator.History.{Says, Reports, process-Informed}
use gopkg.GeminiText.{GeminiResponse}
use gopkg.GeminiText.Client.{
  Client, Http, Floats, GeminiRequest, Error, chat, client_name, chat_with_config, build_request,
  endpoint,
}
use gopkg.GeminiText.Answers
use gopkg.GeminiText.Answers.{chat_with_config-Answered}
use gopkg.GeminiText.Contents.{read_contents, wire_turn, read-chat_contents}

-- A client as a provider; `http` is the service at each request, and an error goes by its text.
unfoldable pub as_provider :
    {D : Type 0} (fl : Floats) → (ℕ → Http D fl) → (Error → String) → Option Client → Provider D
unfolding chat client_name
as_provider {D = D} fl http error_text c = record {
  name = client_name c;
  chat = λ hop req.
      elim (chat fl (http hop) c req) as (λ r. Result Orchestrator.Error (ChatResponse D)) [
        | err e ↦ err (provider_error (error_text e))
        | ok resp ↦ ok resp
      ];
}

module _ {D : Type 0} (fl : Floats) (http : ℕ → Http D fl) where
  -- What the service was told, and what it answered.
  pub record Wire (c : Client) (cfg : Config D) (user_text : String) (reply : Reply D)
      : Type 0 where
    pub hop : ℕ
    pub url : String
    pub request : GeminiRequest D fl.F
    pub status : ℕ
    pub raw : String
    pub posted : (http hop).post url c.api_key request ≡ ok (status, raw)
    pub body : GeminiResponse D
    pub parsed : (http hop).unmarshal raw ≡ ok body
    pub resp : ChatResponse D
    pub reads : Answers.Says body.candidates resp
    pub said : reply.assistant_text ≡ resp.text
    pub earlier : List (ChatTurn D)
    pub question : ChatTurn D
    pub tools : List (ChatTurn D)
    pub contents : read_contents request.contents ≡ map wire_turn (earlier ++ question ∷ tools)
    pub messages : Each Says cfg.history earlier
    pub asked : (question.role ≡ "user") × (question.text ≡ user_text)
    pub ran : Each Reports reply.tool_history tools

  module _ (error_text : Error → String) (c : Client) where
    abbrev gemini : Provider D
    gemini = as_provider fl http error_text (some c)

    provider_answered :
        (hop : ℕ) (req : ChatRequest D) (resp : ChatResponse D)
        → Orchestrator.chat (gemini ∷ []) hop req ≡ ok resp
        → chat_with_config fl (http hop) (some c) req fl.seven_tenths (pos 2048) "" ≡ ok resp
    unfolding as_provider chat Orchestrator.chat
    provider_answered hop req resp h =
        elim (Result-cases
          (chat_with_config fl (http hop) (some c) req fl.seven_tenths (pos 2048) "")) [
            | inl (r, e) ↦ ground (arith, h, e)
            | inr (x, e) ↦ absurd (ground (arith, h, e))
          ]

    contents_told :
        (hop : ℕ) (req : ChatRequest D)
        → req.user_text ≡ ""
        → read_contents (build_request fl (http hop) req fl.seven_tenths (pos 2048)).contents
          ≡ map wire_turn req.history
    unfolding build_request
    contents_told hop req none_new =
        read-chat_contents req ∙ rw none_new (append-nil (map wire_turn req.history))

    -- When a message is answered through the Gemini client, some request was posted with the client's key,
    -- and the reply's text is that of the first candidate in the answer to it; and the contents of this very
    -- request hold, in wire form and in order, the earlier messages, the user's text, and every tool
    -- call of the reply's history with its arguments and its result.
    pub Wire-told :
        (cfg : Config D) (user_text : String) (reply : Reply D)
        → (process (gemini ∷ []) cfg user_text).outcome ≡ ok reply
        → Wire c cfg user_text reply
    Wire-told cfg user_text reply h =
        let told = process-Informed (gemini ∷ []) cfg user_text reply h in
        let a =
          chat_with_config-Answered fl (http told.hop) c told.last fl.seven_tenths (pos 2048) ""
            told.resp (provider_answered told.hop told.last told.resp told.answered) in
        record {
          hop = told.hop;
          url = endpoint fl (http told.hop) c "";
          request = build_request fl (http told.hop) told.last fl.seven_tenths (pos 2048);
          status = a.status;
          raw = a.raw;
          posted = a.posted;
          body = a.body;
          parsed = a.parsed;
          resp = told.resp;
          reads = a.says;
          said = told.said;
          earlier = told.earlier;
          question = told.question;
          tools = told.tools;
          contents =
              contents_told told.hop told.last told.prompt.1 ∙ ap (map wire_turn) told.history;
          messages = told.messages;
          asked = told.asked;
          ran = told.ran;
        }
