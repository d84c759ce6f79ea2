-- ===== src/GeminiLive/Opening/Written.antt =====
-- voice/llm/gemini/llm.go, Open: what has been written when it returns.
use gopkg.Common.{
  ◌≡◌, ◌∙◌, refl, sym, ap, arith, true, false, List, [], ◌∷◌, ◌++◌, append_assoc, append-nil,
  Option, none, some, String, str_eq, ok, err, if◌then◌else◌, is_some,
}
use gopkg.VoicePipeline.{HistoryTurn, SetupRequest}
use gopkg.GeminiLive.{Outgoing, setup_message, client_content, build_setup}
use gopkg.GeminiLive.Opening.{
  Socket, Error, send_setup, read_setup_complete, send_history_turn, send_wake_signal,
  expected_setup_complete, write_json, is_replayed, replay, wake_signal, send_wake, greet,
  await_setup, open_llm,
}

-- The turns of the user that have a content, in order.
unfoldable pub user_turns : {D : Type 0} → List HistoryTurn → List (Outgoing D)
user_turns [] = []
user_turns (t ∷ ts) =
    let rest = user_turns ts in
    if str_eq t.role "user"
    then (if str_eq t.content "" then rest else client_content "user" t.content ∷ rest)
    else rest

unfoldable pub wake_turn : {D : Type 0} → String → List (Outgoing D)
wake_turn wake = if str_eq wake "" then [] else client_content "user" wake ∷ []

-- All of `plan` was written after `log`, or an error stopped it on the way.
pub Written :
    {D : Type 0} → List (Outgoing D) → List (Outgoing D) → List (Outgoing D) × Option Error → Type 0
Written {D = D} log plan r =
    (rest : List (Outgoing D)) × (r.0 ++ rest ≡ log ++ plan) × (is_some r.1 ≡ false → rest ≡ [])

module _ {D : Type 0} where
  nil-Written : (log : List (Outgoing D)) → Written log [] (log, none)
  unfolding Written
  nil-Written log = ([], refl, λ h. refl)

  stop-Written : (log plan : List (Outgoing D)) (e : Error) → Written log plan (log, some e)
  unfolding Written
  stop-Written log plan e = (plan, refl, λ h. absurd (ground (arith, h)))

  -- One message, then what follows where it could be written.
  then-Written :
      (m : Outgoing D) (log plan : List (Outgoing D)) (e : Option String) (f : String → Error)
      (r : List (Outgoing D) × Option Error)
      → Written (log ++ m ∷ []) plan r
      → Written log (m ∷ plan) (elim e as (λ x. List (Outgoing D) × Option Error) [
        | some x ↦ (log ++ m ∷ [], some (f x))
        | none ↦ r
      ])
  unfolding Written
  then-Written m log plan none f r (rest, e, k) = (rest, e ∙ append_assoc log (m ∷ []) plan, k)
  then-Written m log plan (some x) f r v =
      (plan, append_assoc log (m ∷ []) plan, λ h. absurd (ground (arith, h)))

  -- Two parts, the second where the first came to no error.
  both-Written :
      (log p q : List (Outgoing D)) (r : List (Outgoing D) × Option Error)
      (next : List (Outgoing D) → List (Outgoing D) × Option Error)
      → Written log p r
      → ((log' : List (Outgoing D)) → Written log' q (next log'))
      → Written log (p ++ q) (elim r.1 as (λ x. List (Outgoing D) × Option Error) [
        | some x ↦ (r.0, some x)
        | none ↦ next r.0
      ])
  unfolding Written
  both-Written log p q (log', some x) next (rest, e, k) w = (
    rest ++ q,
    sym (append_assoc log' rest q) ∙ ap (λ zs. zs ++ q) e ∙ append_assoc log p q,
    λ h. absurd (ground (arith, h)),
  )
  both-Written log p q (log', none) next (rest, e, k) w =
      let (rest', e', k') = w log' in
      let done : log' ≡ log ++ p =
        sym (append-nil log') ∙ ap (λ zs. log' ++ zs) (sym (k refl)) ∙ e in
      (rest', e' ∙ ap (λ zs. zs ++ q) done ∙ append_assoc log p q, k')

module _ {D : Type 0} (socket : Socket D) where
  turn_planned :
      (t : HistoryTurn) (ts : List HistoryTurn)
      → user_turns {D = D} (t ∷ ts) ≡ (
          if is_replayed socket t
          then client_content "user" t.content ∷ user_turns ts
          else user_turns ts)
  unfolding user_turns is_replayed
  turn_planned t ts = ground arith

  replay-Written :
      (ts : List HistoryTurn) (log : List (Outgoing D))
      → Written log (user_turns ts) (replay socket ts log)
  unfolding replay write_json user_turns
  replay-Written [] log = nil-Written log
  replay-Written (t ∷ ts) log =
      let m = client_content "user" t.content in
      rw (turn_planned t ts)
        (elim (is_replayed socket t)
          as (λ b.
            Written log (if b then m ∷ user_turns ts else user_turns ts)
              (elim b as (λ x. List (Outgoing D) × Option Error) [
                | false ↦ replay socket ts log
                | true ↦ elim (socket.write log m) as (λ x. List (Outgoing D) × Option Error) [
                  | some x ↦ (log ++ m ∷ [], some (send_history_turn x))
                  | none ↦ replay socket ts (log ++ m ∷ [])
                ]
              ])) [
                | false ↦ replay-Written ts log
                | true ↦
                    then-Written m log (user_turns ts) (socket.write log m) send_history_turn
                      (replay socket ts (log ++ m ∷ [])) (replay-Written ts (log ++ m ∷ []))
              ])

  one-Written :
      (m : Outgoing D) (log : List (Outgoing D)) (e : Option String) (f : String → Error)
      → Written log
          (m ∷ [])
          (log ++ m ∷ [], elim e as (λ x. Option Error) [ some x ↦ some (f x) | none ↦ none ])
  unfolding Written
  one-Written m log none f = ([], append-nil (log ++ m ∷ []), λ h. refl)
  one-Written m log (some x) f = ([], append-nil (log ++ m ∷ []), λ h. refl)

  wake-Written :
      (wake : String) (log : List (Outgoing D))
      → Written log (wake_turn wake) (send_wake socket wake log)
  unfolding send_wake wake_turn write_json
  wake-Written wake log =
      elim (str_eq wake "")
        as (λ b. Written log (if b then [] else client_content "user" wake ∷ []) (
          if b then (log, none) else (
            log ++ client_content "user" wake ∷ [],
            elim (socket.write log (client_content "user" wake)) as (λ x. Option Error) [
              | some x ↦ some (send_wake_signal x)
              | none ↦ none
            ],
          ))) [
            | true ↦ nil-Written log
            | false ↦
                one-Written (client_content "user" wake) log
                  (socket.write log (client_content "user" wake)) send_wake_signal
          ]

  await-Written :
      (as_string : D → Option String) (setup : SetupRequest D) (log : List (Outgoing D))
      → Written log
          (user_turns setup.history ++ wake_turn (wake_signal socket as_string setup.extra))
          (await_setup socket as_string setup log)
  unfolding await_setup greet
  await-Written as_string setup log =
      let plan = user_turns setup.history ++ wake_turn (wake_signal socket as_string setup.extra) in
      elim (socket.read log)
        as (λ r. Written log plan (elim r as (λ x. List (Outgoing D) × Option Error) [
          | err e ↦ (log, some (read_setup_complete e))
          | ok resp ↦ elim resp.setup_complete as (λ x. List (Outgoing D) × Option Error) [
            | false ↦ (log, some expected_setup_complete)
            | true ↦ greet socket as_string setup log
          ]
        ])) [
          | err e ↦ stop-Written log plan (read_setup_complete e)
          | ok resp ↦
              elim resp.setup_complete
                as (λ b. Written log plan (elim b as (λ x. List (Outgoing D) × Option Error) [
                  | false ↦ (log, some expected_setup_complete)
                  | true ↦ greet socket as_string setup log
                ])) [
                  | false ↦ stop-Written log plan expected_setup_complete
                  | true ↦
                      both-Written log (user_turns setup.history)
                        (wake_turn (wake_signal socket as_string setup.extra))
                        (replay socket setup.history log)
                        (send_wake socket (wake_signal socket as_string setup.extra))
                        (replay-Written setup.history log)
                        (λ log'. wake-Written (wake_signal socket as_string setup.extra) log')
                ]
        ]

  -- Open writes, in this order, the setup, the turns of the user in the history that have a content, and
  -- the wake signal if there is one: all of them if it returns no error, and else the first ones.
  pub open_llm-Written :
      (as_string : D → Option String) (setup : SetupRequest D)
      → Written []
          (setup_message (build_setup setup.system_prompt setup.tools)
            ∷ (user_turns setup.history ++ wake_turn (wake_signal socket as_string setup.extra)))
          (open_llm socket as_string setup)
  unfolding open_llm write_json
  open_llm-Written as_string setup =
      let m = setup_message (build_setup setup.system_prompt setup.tools) in
      then-Written m []
        (user_turns setup.history ++ wake_turn (wake_signal socket as_string setup.extra))
        (socket.write [] m) send_setup (await_setup socket as_string setup (m ∷ []))
        (await-Written as_string setup (m ∷ []))
