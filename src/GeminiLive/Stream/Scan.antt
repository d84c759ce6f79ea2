-- ===== src/GeminiLive/Stream/Scan.antt =====
-- voice/llm/gemini/llm.go, Events: the final text of a turn is the text that was streamed in it.
use gopkg.Common.{
  ℕ, ◌≡◌, ◌∙◌, refl, sym, ap, subst, arith, inl, inr, Bool, true, false, List, [], ◌∷◌, ◌++◌,
  Option, none, some, String, str_eq, length, if◌then◌else◌, is_some, Bool-cases, if_both,
  string_comparable, beq_refl,
}
use Prim.Native.String.{◌++◌ as str_append}
use gopkg.VoicePipeline.{
  ToolCall, LlmEvent, audio_out, assistant_text, caller_transcript, turn_complete, interrupted,
  tool_calls,
}
use gopkg.GeminiLive.{GeminiPart, ServerContent, ServerMessage}
use gopkg.GeminiLive.Base64.{decode}
use gopkg.GeminiLive.Stream.{
  Stream, new_stream, offer, emit, say, say_some, play, handle_part, handle_parts, hear, transcribe,
  model_turn, flush, end_turn, handle_content, handle_calls, handle_message, Incoming, context_done,
  received, closed_normally, read_error, Ending, ended, events,
}

-- A reader of the events keeps the text that was streamed since the last final text. A final text that
-- is another one, or the end of a turn with text left over, is an error.
unfoldable pub scan : {D : Type 0} → String → List (LlmEvent D) → Option String
scan seen [] = some seen
scan seen (assistant_text t false ∷ es) = scan (str_append seen t) es
scan seen (assistant_text t true ∷ es) =
    let rest = scan "" es in if str_eq t seen then rest else none
scan seen (turn_complete ∷ es) = let rest = scan "" es in if str_eq seen "" then rest else none
scan seen (audio_out f ∷ es) = scan seen es
scan seen (caller_transcript t ∷ es) = scan seen es
scan seen (interrupted ∷ es) = scan seen es
scan seen (tool_calls calls ∷ es) = scan seen es

scan-append :
    {D : Type 0} (seen t : String) (es fs : List (LlmEvent D))
    → scan seen es ≡ some t
    → scan seen (es ++ fs) ≡ scan t fs
unfolding scan
scan-append seen t [] fs h = ground (arith, h)
scan-append seen t (assistant_text u false ∷ es) fs h = scan-append (str_append seen u) t es fs h
scan-append seen t (assistant_text u true ∷ es) fs h = elim (Bool-cases (str_eq u seen)) [
  | inl same ↦ rw same (scan-append "" t es fs (ground (arith, h, same)))
  | inr other ↦ absurd (ground (arith, h, other))
]
scan-append seen t (turn_complete ∷ es) fs h = elim (Bool-cases (str_eq seen "")) [
  | inl same ↦ rw same (scan-append "" t es fs (ground (arith, h, same)))
  | inr other ↦ absurd (ground (arith, h, other))
]
scan-append seen t (audio_out f ∷ es) fs h = scan-append seen t es fs h
scan-append seen t (caller_transcript u ∷ es) fs h = scan-append seen t es fs h
scan-append seen t (interrupted ∷ es) fs h = scan-append seen t es fs h
scan-append seen t (tool_calls calls ∷ es) fs h = scan-append seen t es fs h

-- The reader meets no error, and while the goroutine runs it has `t`.
record Heard {D : Type 0} (t : String) (s : Stream D) : Type 0 where
  sound : is_some (scan "" s.emitted) ≡ true
  kept : s.live ≡ true → scan "" s.emitted ≡ some t

module _ {D : Type 0} (accepts : ℕ → Bool) where
  offer-Heard :
      (ev : LlmEvent D) (t u : String) (s : Stream D)
      → s.live ≡ true
      → scan t (ev ∷ []) ≡ some u
      → Heard t s
      → Heard u (offer accepts ev s)
  unfolding offer
  offer-Heard ev t u s on next v =
      let e = scan-append "" t s.emitted (ev ∷ []) (v.kept on) ∙ next in
      if_both (Heard u) (accepts (length s.emitted)) _ _
        (λ taken. record { sound = ap is_some e; kept = λ h. e })
        (λ lost. record { sound = v.sound; kept = λ h. absurd (ground (arith, h)) })

  emit-Heard :
      (ev : LlmEvent D) (t u : String) (s : Stream D)
      → scan t (ev ∷ []) ≡ some u
      → Heard t s
      → Heard u (emit accepts ev s)
  unfolding emit
  emit-Heard ev t u s next v =
      if_both (Heard u) s.live (offer accepts ev s) s (λ on. offer-Heard ev t u s on next v)
        (λ off. record { sound = v.sound; kept = λ h. absurd (ground (arith, h, off)) })

  -- Nothing that is emitted touches the text of the turn.
  emit_turn_text : (ev : LlmEvent D) (s : Stream D) → (emit accepts ev s).turn_text ≡ s.turn_text
  unfolding emit offer
  emit_turn_text ev s = ground arith

-- The reader has the text of the turn.
Told : {D : Type 0} → Stream D → Type 0
Told s = Heard s.turn_text s

module _ {D : Type 0} (accepts : ℕ → Bool) where
  -- An event that leaves the reader's text as it is.
  pass-Told :
      (ev : LlmEvent D) (s : Stream D)
      → scan s.turn_text (ev ∷ []) ≡ some s.turn_text
      → Told s
      → Told (emit accepts ev s)
  unfolding Told
  pass-Told ev s next v =
      subst (λ t. Heard t (emit accepts ev s)) (sym (emit_turn_text accepts ev s))
        (emit-Heard accepts ev s.turn_text s.turn_text s next v)

  say-Told : (t : String) (s : Stream D) → Told s → Told (say accepts t s)
  unfolding Told say scan
  say-Told t s v =
      let grown = str_append s.turn_text t in
      let s' : Stream D = record s { turn_text = grown } in
      if_both (λ (x : Stream D). Heard x.turn_text x) s.live
        (emit accepts (assistant_text t false) s') s
        (λ on.
          subst (λ u. Heard u (emit accepts (assistant_text t false) s'))
            (sym (emit_turn_text accepts (assistant_text t false) s'))
            (emit-Heard accepts (assistant_text t false) s.turn_text grown s' refl
              (record { sound = v.sound; kept = v.kept })))
        (λ off. v)

  say_some-Told : (t : String) (s : Stream D) → Told s → Told (say_some accepts t s)
  unfolding say_some
  say_some-Told t s v =
      if_both Told (str_eq t "") s (say accepts t s) (λ e. v) (λ e. say-Told t s v)

  play-Told : (bytes : List ℕ) (s : Stream D) → Told s → Told (play accepts bytes s)
  unfolding play scan
  play-Told bytes s v = pass-Told _ s refl v

  handle_part-Told : (p : GeminiPart) (s : Stream D) → Told s → Told (handle_part accepts p s)
  unfolding handle_part
  handle_part-Told p s v =
      elim p.inline_data as (λ o. Told (handle_part accepts (record p { inline_data = o }) s)) [
        | none ↦ say_some-Told p.text s v
        | some [] ↦ say_some-Told p.text s v
        | some (c ∷ cs) ↦
            elim (decode (c ∷ cs))
              as (λ r. Told (elim r [
                | none ↦ s
                | some bytes ↦ say_some accepts p.text (play accepts bytes s)
              ])) [
                | none ↦ v
                | some bytes ↦ say_some-Told p.text (play accepts bytes s) (play-Told bytes s v)
              ]
      ]

  handle_parts-Told :
      (ps : List GeminiPart) (s : Stream D) → Told s → Told (handle_parts accepts ps s)
  unfolding handle_parts
  handle_parts-Told [] s v = v
  handle_parts-Told (p ∷ ps) s v =
      handle_parts-Told ps (handle_part accepts p s) (handle_part-Told p s v)

  hear-Told : (o : Option String) (s : Stream D) → Told s → Told (hear accepts o s)
  unfolding hear scan
  hear-Told none s v = v
  hear-Told (some t) s v =
      if_both Told (str_eq t "") s (emit accepts (caller_transcript t) s) (λ e. v)
        (λ e. pass-Told (caller_transcript t) s refl v)

  transcribe-Told : (o : Option String) (s : Stream D) → Told s → Told (transcribe accepts o s)
  unfolding transcribe
  transcribe-Told none s v = v
  transcribe-Told (some t) s v = say_some-Told t s v

  model_turn-Told :
      (o : Option (List GeminiPart)) (s : Stream D) → Told s → Told (model_turn accepts o s)
  unfolding model_turn
  model_turn-Told none s v = v
  model_turn-Told (some ps) s v = handle_parts-Told ps s v

  flush-Heard :
      (s : Stream D) → Told s → Told (flush accepts s) × ((flush accepts s).turn_text ≡ "")
  unfolding Told flush scan
  flush-Heard s v =
      let s' : Stream D = record s { turn_text = "" } in
      let ev = assistant_text s.turn_text true in
      if_both (λ (x : Stream D). Heard x.turn_text x × (x.turn_text ≡ "")) (str_eq s.turn_text "") s
        (emit accepts ev s') (λ e. (v, (string_comparable.beq_iff s.turn_text "").0 e))
        (λ e. (
          subst (λ u. Heard u (emit accepts ev s')) (sym (emit_turn_text accepts ev s'))
              (emit-Heard accepts ev s.turn_text "" s'
                (ground (arith, beq_refl string_comparable s.turn_text))
                (record { sound = v.sound; kept = v.kept })),
          emit_turn_text accepts ev s',
        ))

  end_turn-Told : (s : Stream D) → Told s → Told (end_turn accepts s)
  unfolding end_turn scan
  end_turn-Told s v =
      let (w, e) = flush-Heard s v in
      if_both Told s.live (emit accepts turn_complete (flush accepts s)) s
        (λ on. pass-Told turn_complete (flush accepts s) (rw e refl) w) (λ off. v)

  handle_content-Told :
      (c : ServerContent) (s : Stream D) → Told s → Told (handle_content accepts c s)
  unfolding handle_content scan
  handle_content-Told c s v =
      let heard = hear accepts c.input_transcription s in
      let said =
        model_turn accepts c.model_turn (transcribe accepts c.output_transcription heard) in
      let broken = if c.interrupted then emit accepts interrupted said else said in
      let w =
        model_turn-Told c.model_turn (transcribe accepts c.output_transcription heard)
          (transcribe-Told c.output_transcription heard (hear-Told c.input_transcription s v)) in
      let x =
        if_both Told c.interrupted (emit accepts interrupted said) said
          (λ e. pass-Told interrupted said refl w) (λ e. w) in
      if_both Told c.turn_complete (end_turn accepts broken) broken (λ e. end_turn-Told broken x)
        (λ e. x)

  handle_calls-Told :
      (cs : List (ToolCall D)) (s : Stream D) → Told s → Told (handle_calls accepts cs s)
  unfolding handle_calls scan
  handle_calls-Told [] s v = v
  handle_calls-Told (c ∷ cs) s v = pass-Told (tool_calls (c ∷ cs)) s refl v

  content-Told :
      (o : Option ServerContent) (s : Stream D)
      → Told s
      → Told (elim o [ none ↦ s | some c ↦ handle_content accepts c s ])
  content-Told none s v = v
  content-Told (some c) s v = handle_content-Told c s v

  handle_message-Told :
      (m : ServerMessage D) (s : Stream D) → Told s → Told (handle_message accepts m s)
  unfolding handle_message
  handle_message-Told m s v =
      let spoken : Stream D = elim m.server_content [
        | none ↦ s
        | some c ↦ handle_content accepts c s
      ] in
      elim m.tool_call
        as (λ o. Told (elim o [ none ↦ spoken | some calls ↦ handle_calls accepts calls spoken ])) [
          | none ↦ content-Told m.server_content s v
          | some calls ↦ handle_calls-Told calls spoken (content-Told m.server_content s v)
        ]

  events-Told : (ins : List (Incoming D)) (s : Stream D) → Told s → Told (events accepts ins s).0
  unfolding events
  events-Told [] s v = v
  events-Told (context_done ∷ ins) s v = v
  events-Told (closed_normally ∷ ins) s v = v
  events-Told (read_error e ∷ ins) s v = v
  events-Told (received none ∷ ins) s v = events-Told ins s v
  events-Told (received (some m) ∷ ins) s v =
      let s' = handle_message accepts m s in
      elim s'.live
        as (λ b.
          Told
            (elim b as (λ x. Stream D × Ending) [
              | false ↦ (s', ended none)
              | true ↦ events accepts ins s'
            ]).0) [
              | false ↦ handle_message-Told m s v
              | true ↦ events-Told ins s' (handle_message-Told m s v)
            ]

-- Whatever the server sends, whatever fails to decode, and wherever the pipeline stops taking events: a
-- reader of the events finds each final text equal to the text streamed since the last one, and no turn
-- ends with text that was not made final.
pub final_texts_agree :
    {D : Type 0} (accepts : ℕ → Bool) (ins : List (Incoming D))
    → is_some (scan "" (events accepts ins new_stream).0.emitted) ≡ true
unfolding Told new_stream scan
final_texts_agree accepts ins =
    (events-Told accepts ins new_stream (record { sound = refl; kept = λ h. refl })).sound
