-- ===== src/VoicePipeline/Causes/Keeping.antt =====
-- voice/pipeline/pipeline.go, recordEnd: the first end on record stays.
use gopkg.Common.{
  ℕ, ◌≡◌, inl, inr, subst, arith, Bool, true, false, List, [], ◌∷◌, Option, none, some,
  Option-cases, Result-cases, if◌then◌else◌,
}
use gopkg.VoicePipeline.{Frame, transport_closed, llm_closed, fatal_error, Env}
use gopkg.VoicePipeline.Bridge.{BridgeFn}
use gopkg.VoicePipeline.Dispatch.{Handled, dispatch_llm_event}
use gopkg.VoicePipeline.Dispatch.Grows.{some_inj}
use gopkg.VoicePipeline.Session.{
  Input, frame, frames_closed, receive_error, event, events_closed, llm_error, ctx_done, Running,
  record_fatal, stop_audio, stop_events, take_frame, after_event, take_event, audio_step,
  events_step, step, steps,
}
use gopkg.VoicePipeline.Causes.{Kept, kept_record}

module _ {D : Type 0} (env : Env D) (cap : ℕ) (inbound outbound : BridgeFn) where
  take_frame-Kept : (f : Frame) (s : Running D) → Kept s (take_frame env cap inbound outbound f s)
  unfolding take_frame Kept stop_audio record_fatal
  take_frame-Kept f s end h = elim (Result-cases (inbound f)) [
    | inr (e, k) ↦ rw (k, take_frame) (kept_record fatal_error (some e) s end h)
    | inl (conv, k) ↦ elim (Option-cases (env.send_audio s.log conv)) [
      | inl m ↦ rw (k, take_frame, m) h
      | inr (e, m) ↦ rw (k, take_frame, m) (kept_record fatal_error (some e) _ end h)
    ]
  ]

  after_event-Kept :
      (h : Handled D) (s : Running D) → Kept s (after_event env cap inbound outbound h s)
  unfolding after_event Kept stop_events record_fatal
  after_event-Kept h s end g = elim (Option-cases h.fatal) [
    | inl k ↦ rw (k, after_event) g
    | inr (e, k) ↦ rw (k, after_event) (kept_record fatal_error (some e) _ end g)
  ]

  audio_step-Kept : (i : Input D) (s : Running D) → Kept s (audio_step env cap inbound outbound i s)
  unfolding audio_step Kept stop_audio record_fatal
  audio_step-Kept (frame f) s end h = take_frame-Kept f s end h
  audio_step-Kept frames_closed s end h = kept_record transport_closed none s end h
  audio_step-Kept (receive_error none) s end h = h
  audio_step-Kept (receive_error (some e)) s end h = kept_record fatal_error (some e) s end h
  audio_step-Kept (event ev schedule) s end h = h
  audio_step-Kept events_closed s end h = h
  audio_step-Kept (llm_error e) s end h = h
  audio_step-Kept (ctx_done e) s end h = h

  events_step-Kept :
      (i : Input D) (s s' : Running D)
      → events_step env cap inbound outbound i s ≡ some s'
      → Kept s s'
  unfolding events_step Kept stop_events record_fatal take_event
  events_step-Kept (event ev schedule) s s' e end g =
      elim (Option-cases (dispatch_llm_event env cap outbound ev schedule s.turn s.log)) [
        | inl k ↦ absurd (ground arith)
        | inr (h, k) ↦
            let q : after_event env cap inbound outbound h s ≡ s' = ground arith in
            subst (λ (t : Running D). t.ended ≡ some end) q (after_event-Kept h s end g)
      ]
  events_step-Kept events_closed s s' e end g =
      subst (λ (t : Running D). t.ended ≡ some end) (some_inj e)
        (kept_record llm_closed none s end g)
  events_step-Kept (llm_error none) s s' e end g =
      subst (λ (t : Running D). t.ended ≡ some end) (some_inj e) g
  events_step-Kept (llm_error (some x)) s s' e end g =
      subst (λ (t : Running D). t.ended ≡ some end) (some_inj e)
        (kept_record fatal_error (some x) s end g)
  events_step-Kept (frame f) s s' e end g =
      subst (λ (t : Running D). t.ended ≡ some end) (some_inj e) g
  events_step-Kept frames_closed s s' e end g =
      subst (λ (t : Running D). t.ended ≡ some end) (some_inj e) g
  events_step-Kept (receive_error x) s s' e end g =
      subst (λ (t : Running D). t.ended ≡ some end) (some_inj e) g
  events_step-Kept (ctx_done x) s s' e end g =
      subst (λ (t : Running D). t.ended ≡ some end) (some_inj e) g

  guarded_kept :
      (alive : Bool) (next : Option (Running D)) (s s' : Running D)
      → (if alive then next else some s) ≡ some s'
      → (next ≡ some s' → Kept s s')
      → Kept s s'
  unfolding Kept
  guarded_kept true next s s' e f end g = f e end g
  guarded_kept false next s s' e f end g =
      subst (λ (t : Running D). t.ended ≡ some end) (some_inj e) g

  audio_kept :
      (i : Input D) (s s' : Running D)
      → (if s.audio_alive then some (audio_step env cap inbound outbound i s) else some s) ≡ some s'
      → Kept s s'
  audio_kept i s s' e =
      guarded_kept s.audio_alive (some (audio_step env cap inbound outbound i s)) s s' e
        (λ k. subst (λ (t : Running D). Kept s t) (some_inj k) (audio_step-Kept i s))

  events_kept :
      (i : Input D) (s s' : Running D)
      → (if s.events_alive then events_step env cap inbound outbound i s else some s) ≡ some s'
      → Kept s s'
  events_kept i s s' e =
      guarded_kept s.events_alive (events_step env cap inbound outbound i s) s s' e
        (λ k. events_step-Kept i s s' k)

  step-Kept :
      (i : Input D) (s s' : Running D) → step env cap inbound outbound i s ≡ some s' → Kept s s'
  unfolding step Kept
  step-Kept (ctx_done x) s s' e end g = subst (λ (t : Running D). t.ended ≡ some end) (some_inj e) g
  step-Kept (event ev schedule) s s' e end g = events_kept (event ev schedule) s s' e end g
  step-Kept events_closed s s' e end g = events_kept events_closed s s' e end g
  step-Kept (llm_error x) s s' e end g = events_kept (llm_error x) s s' e end g
  step-Kept (frame f) s s' e end g = audio_kept (frame f) s s' e end g
  step-Kept frames_closed s s' e end g = audio_kept frames_closed s s' e end g
  step-Kept (receive_error x) s s' e end g = audio_kept (receive_error x) s s' e end g

  pub steps-Kept :
      (is : List (Input D)) (s s' : Running D)
      → steps env cap inbound outbound is s ≡ some s'
      → Kept s s'
  unfolding steps Kept
  steps-Kept [] s s' e end g = subst (λ (t : Running D). t.ended ≡ some end) (some_inj e) g
  steps-Kept (i ∷ is) s s' e end g = elim (Option-cases (step env cap inbound outbound i s)) [
    | inl k ↦ absurd (ground arith)
    | inr (t, k) ↦ steps-Kept is t s' (ground arith) end (step-Kept i s t k end g)
  ]
