-- ===== src/VoicePipeline/Causes/First.antt =====
-- voice/pipeline/pipeline.go, Run: what ends an open session.
use gopkg.Common.{
  ℕ, ◌≡◌, ◌∙◌, ◌⊎◌, inl, inr, refl, sym, if_true, ap, subst, arith, true, List, [], ◌∷◌, Option,
  none, some, Option-cases, Result-cases, if◌then◌else◌,
}
use gopkg.VoicePipeline.{
  Error, Frame, SetupRequest, EndReason, transport_closed, llm_closed, fatal_error, LlmEvent, Env,
}
use gopkg.VoicePipeline.Bridge.{BridgeFn}
use gopkg.VoicePipeline.Batch.{Move}
use gopkg.VoicePipeline.Dispatch.{Handled, dispatch_llm_event}
use gopkg.VoicePipeline.Dispatch.Grows.{some_inj}
use gopkg.VoicePipeline.Session.{
  Input, frame, frames_closed, receive_error, event, events_closed, llm_error, ctx_done, Running,
  end_of, first_error, record_fatal, stop_audio, stop_events, take_frame, after_event, take_event,
  audio_step, events_step, step, steps, start_session,
}
use gopkg.VoicePipeline.Causes.{
  Quiet, Why, Cause, here, quietly, done_first, done_again, closed-Why, Open, Follows, still, over,
  Kept, fatal-Why, recorded_as,
}
use gopkg.VoicePipeline.Causes.Keeping.{steps-Kept}

module _ {D : Type 0} (env : Env D) (cap : ℕ) (inbound outbound : BridgeFn) where
  take_frame-Follows :
      (f : Frame) (s : Running D)
      → Open s
      → Follows (frame f) s (take_frame env cap inbound outbound f s)
  unfolding take_frame stop_audio record_fatal Quiet Why
  take_frame-Follows f s v = elim (Result-cases (inbound f)) [
    | inr (e, k) ↦
        rw (k, take_frame)
          (over (end_of fatal_error (some e) s.ctx_err)
            (fatal-Why s.ctx_err e (frame f) (λ end g. (e, g)))
            (recorded_as fatal_error (some e) s v.unrecorded))
    | inl (conv, k) ↦ elim (Option-cases (env.send_audio s.log conv)) [
      | inl m ↦
          rw (k, take_frame, m)
            (still tt refl
              (record { unrecorded = v.unrecorded; audio = v.audio; events = v.events }))
      | inr (e, m) ↦
          rw (k, take_frame, m)
            (over (end_of fatal_error (some e) s.ctx_err)
              (fatal-Why s.ctx_err e (frame f) (λ end g. (e, g)))
              (recorded_as fatal_error (some e) _ v.unrecorded))
    ]
  ]

  after_event-Follows :
      (ev : LlmEvent D) (schedule : List Move) (h : Handled D) (s : Running D)
      → Open s
      → Follows (event ev schedule) s (after_event env cap inbound outbound h s)
  unfolding after_event stop_events record_fatal Quiet Why
  after_event-Follows ev schedule h s v = elim (Option-cases h.fatal) [
    | inl k ↦
        rw (k, after_event)
          (still tt refl (record { unrecorded = v.unrecorded; audio = v.audio; events = v.events }))
    | inr (e, k) ↦
        rw (k, after_event)
          (over (end_of fatal_error (some e) s.ctx_err)
            (fatal-Why s.ctx_err e (event ev schedule) (λ end g. (e, g)))
            (recorded_as fatal_error (some e) _ v.unrecorded))
  ]

  -- A running goroutine's step is the one taken.
  audio_taken :
      (i : Input D) (s s' : Running D)
      → (if s.audio_alive then some (audio_step env cap inbound outbound i s) else some s) ≡ some s'
      → s.audio_alive ≡ true
      → audio_step env cap inbound outbound i s ≡ s'
  audio_taken i s s' e on = some_inj (sym (if_true s.audio_alive _ _ on) ∙ e)

  events_taken :
      (i : Input D) (s s' : Running D)
      → (if s.events_alive then events_step env cap inbound outbound i s else some s) ≡ some s'
      → s.events_alive ≡ true
      → events_step env cap inbound outbound i s ≡ some s'
  events_taken i s s' e on = sym (if_true s.events_alive _ _ on) ∙ e

  event-Follows :
      (ev : LlmEvent D) (schedule : List Move) (s s' : Running D)
      → take_event env cap inbound outbound ev schedule s ≡ some s'
      → Open s
      → Follows (event ev schedule) s s'
  unfolding take_event
  event-Follows ev schedule s s' e v =
      elim (Option-cases (dispatch_llm_event env cap outbound ev schedule s.turn s.log)) [
        | inl k ↦ absurd (ground arith)
        | inr (h, k) ↦
            subst (λ (t : Running D). Follows (event ev schedule) s t) (ground arith)
              (after_event-Follows ev schedule h s v)
      ]

  -- The step of an open session, for what is no context's end.
  step-Follows :
      (i : Input D) (s s' : Running D)
      → step env cap inbound outbound i s ≡ some s'
      → Open s
      → Follows i s s'
        ⊎ ((x : Error) × (i ≡ ctx_done x) × (s'.ctx_err ≡ first_error s.ctx_err x) × Open s')
  unfolding step audio_step events_step stop_audio stop_events record_fatal Quiet Why
  step-Follows (ctx_done x) s s' e v = inr (
    x,
    refl,
    ap (λ (t : Running D). t.ctx_err) (sym (some_inj e)),
    subst (λ (t : Running D). Open t) (some_inj e)
        (record { unrecorded = v.unrecorded; audio = v.audio; events = v.events }),
  )
  step-Follows (event ev schedule) s s' e v =
      inl (event-Follows ev schedule s s' (events_taken (event ev schedule) s s' e v.events) v)
  step-Follows events_closed s s' e v = inl (
      subst (λ (t : Running D). Follows events_closed s t)
        (some_inj (events_taken events_closed s s' e v.events))
        (over _ (closed-Why D s.ctx_err).1 (recorded_as llm_closed none s v.unrecorded)))
  step-Follows (llm_error none) s s' e v = inl (
      subst (λ (t : Running D). Follows (llm_error none) s t)
        (some_inj (events_taken (llm_error none) s s' e v.events)) (still tt refl v))
  step-Follows (llm_error (some x)) s s' e v = inl (
      subst (λ (t : Running D). Follows (llm_error (some x)) s t)
        (some_inj (events_taken (llm_error (some x)) s s' e v.events))
        (over _ (fatal-Why s.ctx_err x (llm_error (some x)) (λ end g. g))
          (recorded_as fatal_error (some x) s v.unrecorded)))
  step-Follows (frame f) s s' e v = inl (
      subst (λ (t : Running D). Follows (frame f) s t) (audio_taken (frame f) s s' e v.audio)
        (take_frame-Follows f s v))
  step-Follows frames_closed s s' e v = inl (
      subst (λ (t : Running D). Follows frames_closed s t)
        (audio_taken frames_closed s s' e v.audio)
        (over _ (closed-Why D s.ctx_err).0 (recorded_as transport_closed none s v.unrecorded)))
  step-Follows (receive_error none) s s' e v = inl (
      subst (λ (t : Running D). Follows (receive_error none) s t)
        (audio_taken (receive_error none) s s' e v.audio) (still tt refl v))
  step-Follows (receive_error (some x)) s s' e v = inl (
      subst (λ (t : Running D). Follows (receive_error (some x)) s t)
        (audio_taken (receive_error (some x)) s s' e v.audio)
        (over _ (fatal-Why s.ctx_err x (receive_error (some x)) (λ end g. g))
          (recorded_as fatal_error (some x) s v.unrecorded)))

  ctx-Cause :
      (x : Error) (is : List (Input D)) (end : EndReason × Option Error) (ctx : Option Error)
      → Cause (first_error ctx x) is end
      → Cause ctx (ctx_done x ∷ is) end
  unfolding first_error
  ctx-Cause x is end none c = done_first x is end c
  ctx-Cause x is end (some y) c = done_again y x is end c

  same_end :
      (a b : EndReason × Option Error) (s : Running D) → s.ended ≡ some a → s.ended ≡ some b → a ≡ b
  same_end a b s h k = some_inj (sym h ∙ k)

  ends_by :
      (i : Input D) (is : List (Input D)) (s t s' : Running D) (end : EndReason × Option Error)
      → Follows i s t
      → steps env cap inbound outbound is t ≡ some s'
      → s'.ended ≡ some end
      → (Open t → Cause t.ctx_err is end)
      → Cause s.ctx_err (i ∷ is) end
  unfolding Kept
  ends_by i is s t s' end (still q c v) e h f =
      quietly s.ctx_err i is end q (subst (λ o. Cause o is end) c (f v))
  ends_by i is s t s' end (over x w g) e h f = here s.ctx_err i is end (
      subst (λ y. Why s.ctx_err i y)
        (same_end x end s' (steps-Kept env cap inbound outbound is t s' e x g) h) w)

  steps-Cause :
      (is : List (Input D)) (s s' : Running D) (end : EndReason × Option Error)
      → steps env cap inbound outbound is s ≡ some s'
      → s'.ended ≡ some end
      → Open s
      → Cause s.ctx_err is end
  unfolding steps
  steps-Cause [] s s' end e h v = absurd (ground (arith, v.unrecorded))
  steps-Cause (i ∷ is) s s' end e h v = elim (Option-cases (step env cap inbound outbound i s)) [
    | inl k ↦ absurd (ground arith)
    | inr (t, k) ↦
        let rest : steps env cap inbound outbound is t ≡ some s' = ground arith in
        elim (step-Follows i s t k v) [
          | inl f ↦ ends_by i is s t s' end f rest h (λ o. steps-Cause is t s' end rest h o)
          | inr (x, q, c, o) ↦
              subst (λ j. Cause s.ctx_err (j ∷ is) end) (sym q)
                (ctx-Cause x is end s.ctx_err
                  (subst (λ y. Cause y is end) c (steps-Cause is t s' end rest h o)))
        ]
  ]

  -- Of a session from its start.
  pub session-Cause :
      (setup : SetupRequest D) (inputs : List (Input D)) (s : Running D)
      (end : EndReason × Option Error)
      → steps env cap inbound outbound inputs (start_session setup) ≡ some s
      → s.ended ≡ some end
      → Cause none inputs end
  unfolding start_session
  session-Cause setup inputs s end e h =
      steps-Cause inputs (start_session setup) s end e h
        (record { unrecorded = refl; audio = refl; events = refl })
