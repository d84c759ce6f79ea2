-- ===== src/VoicePipeline/Ending.antt =====
-- voice/pipeline/pipeline.go, Run: how a session ends, whatever reaches its goroutines.
use gopkg.Common.{
  ℕ, ◌≡◌, ◌⊎◌, inl, inr, refl, sym, subst, arith, Bool, true, false, List, [], ◌∷◌, ◌++◌,
  append_assoc, Option, none, some, Option-cases, Result-cases, if◌then◌else◌,
}
use gopkg.VoicePipeline.{
  Error, Frame, SetupRequest, EndReason, transport_closed, llm_closed, fatal_error, LlmEvent,
  on_error, on_session_end, Action, observed, opened, sent_audio, closed_transport, closed_llm, Env,
}
use gopkg.VoicePipeline.Bridge.{BridgeFn, resolve_bridge}
use gopkg.VoicePipeline.Batch.{Move}
use gopkg.VoicePipeline.Dispatch.{Handled, dispatch_llm_event}
use gopkg.VoicePipeline.Dispatch.Grows.{
  ends, ends-append, Grows, Grows-by, dispatch-Grows, some_inj,
}
use gopkg.VoicePipeline.Session.{
  Input, frame, frames_closed, receive_error, event, events_closed, llm_error, ctx_done, Running,
  record_end, first_error, take_frame, after_event, take_event, audio_step, events_step, step,
  steps, Finished, Formats, fail_early, end_reason, conclude, start_session, run_session, run,
}
use gopkg.VoicePipeline.Causes.{Cause}
use gopkg.VoicePipeline.Causes.First.{session-Cause}
use gopkg.VoicePipeline.Recording.{
  Reported, Reported-append, Reported-snoc, Justified, Justified-append, Inv, log-Inv, ctx-Inv,
  recorded, close-Inv, stop_audio-Inv, stop_events-Inv, fatal_audio-Inv, fatal_events-Inv,
}

module _ {D : Type 0} (env : Env D) (cap : ℕ) (inbound outbound : BridgeFn) where
  take_frame-Inv :
      (f : Frame) (s : Running D) → Inv s → Inv (take_frame env cap inbound outbound f s)
  unfolding take_frame ends
  take_frame-Inv f s v = elim (Result-cases (inbound f)) [
    | inr (e, h) ↦ rw (h, take_frame) (fatal_audio-Inv e s v)
    | inl (conv, h) ↦
        let log = s.log ++ sent_audio conv ∷ [] in
        let v' : Inv (record s { log = log }) =
          log-Inv s log s.turn (Grows-by s.log (sent_audio conv ∷ []) refl) v in
        elim (Option-cases (env.send_audio s.log conv)) [
          | inl k ↦ rw (h, take_frame, k) v'
          | inr (e, k) ↦ rw (h, take_frame, k) (fatal_audio-Inv e (record s { log = log }) v')
        ]
  ]

  after_event-Inv :
      (h : Handled D) (s : Running D)
      → Grows s.log h.log
      → Inv s
      → Inv (after_event env cap inbound outbound h s)
  unfolding after_event
  after_event-Inv h s g v =
      let s' = record s { log = h.log; turn = h.turn } in
      elim (Option-cases h.fatal) [
        | inl k ↦ rw (k, after_event) (log-Inv s h.log h.turn g v)
        | inr (e, k) ↦ rw (k, after_event) (fatal_events-Inv e s' (log-Inv s h.log h.turn g v))
      ]

  take_event-Inv :
      (ev : LlmEvent D) (schedule : List Move) (s s' : Running D)
      → take_event env cap inbound outbound ev schedule s ≡ some s'
      → Inv s
      → Inv s'
  unfolding take_event
  take_event-Inv ev schedule s s' e v =
      elim (Option-cases (dispatch_llm_event env cap outbound ev schedule s.turn s.log)) [
        | inl k ↦ absurd (ground arith)
        | inr (h, k) ↦
            subst (λ (t : Running D). Inv t) (ground arith)
              (after_event-Inv h s (dispatch-Grows env cap outbound ev schedule s.turn s.log h k) v)
      ]

  audio_step-Inv :
      (i : Input D) (s : Running D) → Inv s → Inv (audio_step env cap inbound outbound i s)
  unfolding audio_step Justified
  audio_step-Inv (frame f) s v = take_frame-Inv f s v
  audio_step-Inv frames_closed s v =
      stop_audio-Inv (record_end transport_closed none s) (recorded transport_closed none s)
        (close-Inv transport_closed s (λ log. refl) v)
  audio_step-Inv (receive_error none) s v = v
  audio_step-Inv (receive_error (some e)) s v = fatal_audio-Inv e s v
  audio_step-Inv (event ev schedule) s v = v
  audio_step-Inv events_closed s v = v
  audio_step-Inv (llm_error e) s v = v
  audio_step-Inv (ctx_done e) s v = v

  events_step-Inv :
      (i : Input D) (s s' : Running D)
      → events_step env cap inbound outbound i s ≡ some s'
      → Inv s
      → Inv s'
  unfolding events_step Justified
  events_step-Inv (event ev schedule) s s' e v = take_event-Inv ev schedule s s' e v
  events_step-Inv events_closed s s' e v =
      subst (λ (t : Running D). Inv t) (some_inj e)
        (stop_events-Inv (record_end llm_closed none s) (recorded llm_closed none s)
          (close-Inv llm_closed s (λ log. refl) v))
  events_step-Inv (llm_error none) s s' e v = subst (λ (t : Running D). Inv t) (some_inj e) v
  events_step-Inv (llm_error (some x)) s s' e v =
      subst (λ (t : Running D). Inv t) (some_inj e) (fatal_events-Inv x s v)
  events_step-Inv (frame f) s s' e v = subst (λ (t : Running D). Inv t) (some_inj e) v
  events_step-Inv frames_closed s s' e v = subst (λ (t : Running D). Inv t) (some_inj e) v
  events_step-Inv (receive_error x) s s' e v = subst (λ (t : Running D). Inv t) (some_inj e) v
  events_step-Inv (ctx_done x) s s' e v = subst (λ (t : Running D). Inv t) (some_inj e) v

  -- A goroutine's step, or nothing where it has returned.
  guarded :
      (alive : Bool) (next : Option (Running D)) (s s' : Running D)
      → (if alive then next else some s) ≡ some s'
      → (next ≡ some s' → Inv s')
      → Inv s
      → Inv s'
  guarded true next s s' e f v = f e
  guarded false next s s' e f v = subst (λ (t : Running D). Inv t) (some_inj e) v

  audio_case :
      (i : Input D) (s s' : Running D)
      → (if s.audio_alive then some (audio_step env cap inbound outbound i s) else some s) ≡ some s'
      → Inv s
      → Inv s'
  audio_case i s s' e v =
      guarded s.audio_alive (some (audio_step env cap inbound outbound i s)) s s' e
        (λ k. subst (λ (t : Running D). Inv t) (some_inj k) (audio_step-Inv i s v)) v

  events_case :
      (i : Input D) (s s' : Running D)
      → (if s.events_alive then events_step env cap inbound outbound i s else some s) ≡ some s'
      → Inv s
      → Inv s'
  events_case i s s' e v =
      guarded s.events_alive (events_step env cap inbound outbound i s) s s' e
        (λ k. events_step-Inv i s s' k v) v

  step-Inv :
      (i : Input D) (s s' : Running D)
      → step env cap inbound outbound i s ≡ some s'
      → Inv s
      → Inv s'
  unfolding step
  step-Inv (ctx_done x) s s' e v =
      subst (λ (t : Running D). Inv t) (some_inj e) (ctx-Inv s (first_error s.ctx_err x) v)
  step-Inv (event ev schedule) s s' e v = events_case (event ev schedule) s s' e v
  step-Inv events_closed s s' e v = events_case events_closed s s' e v
  step-Inv (llm_error x) s s' e v = events_case (llm_error x) s s' e v
  step-Inv (frame f) s s' e v = audio_case (frame f) s s' e v
  step-Inv frames_closed s s' e v = audio_case frames_closed s s' e v
  step-Inv (receive_error x) s s' e v = audio_case (receive_error x) s s' e v

  steps-Inv :
      (is : List (Input D)) (s s' : Running D)
      → steps env cap inbound outbound is s ≡ some s'
      → Inv s
      → Inv s'
  unfolding steps
  steps-Inv [] s s' e v = subst (λ (t : Running D). Inv t) (some_inj e) v
  steps-Inv (i ∷ is) s s' e v = elim (Option-cases (step env cap inbound outbound i s)) [
    | inl k ↦ absurd (ground arith)
    | inr (t, k) ↦ steps-Inv is t s' (ground arith) (step-Inv i s t k v)
  ]

module _ {D : Type 0} where
  -- A session that could not start: all that was done, with the error.
  failure : Error → List (Action D)
  failure x = observed (on_error x) ∷ observed (on_session_end fatal_error) ∷ []

  unfoldable pub Unstarted : Finished D → Type 0
  unfolding failure
  Unstarted fin =
      (x : Error) × (fin.err ≡ some x)
      × ((fin.log ≡ failure x) ⊎ ((setup : SetupRequest D) × (fin.log ≡ opened setup ∷ failure x)))

  -- A session that is over: it ended once, the last thing done was to say so, what Run returns is
  -- justified by the reason given, and both are those of the first input that ended the session. Where
  -- it could not start, the reason is an error.
  pub record Ended (inputs : List (Input D)) (fin : Finished D) : Type 0 where
    pub reason : EndReason
    pub before : List (Action D)
    pub last : fin.log ≡ before ++ observed (on_session_end reason) ∷ []
    pub once : ends fin.log ≡ 1
    pub justified : Justified reason fin.err fin.log
    pub cause : Cause none inputs (reason, fin.err) ⊎ Unstarted fin

  fail-Ended :
      (inputs : List (Input D)) (e : Error) (log : List (Action D))
      → ends log ≡ 0
      → Unstarted (fail_early e log)
      → Ended inputs (fail_early e log)
  unfolding fail_early ends Justified Reported Unstarted
  fail-Ended inputs e log h u =
      let reported = log ++ observed (on_error e) ∷ [] in
      record {
        reason = fatal_error;
        before = reported;
        last = sym (
            append_assoc log (observed (on_error e) ∷ [])
              (observed (on_session_end fatal_error) ∷ []));
        once = omega (
          arith,
          h,
          ends-append log (observed (on_error e) ∷ observed (on_session_end fatal_error) ∷ []),
        );
        justified = (
          e,
          refl,
          subst (λ l. Reported e l)
              (append_assoc log (observed (on_error e) ∷ [])
                (observed (on_session_end fatal_error) ∷ []))
              (Reported-append e reported (observed (on_session_end fatal_error) ∷ [])
                (Reported-snoc e log)),
        );
        cause = inr u;
      }

  conclude-Ended :
      (inputs : List (Input D)) (s : Running D)
      → s.audio_alive ≡ false
      → Inv s
      → ((end : EndReason × Option Error) → s.ended ≡ some end → Cause none inputs end)
      → Ended inputs (conclude s)
  unfolding conclude end_reason ends
  conclude-Ended inputs s stopped v causes = elim (Option-cases s.ended) [
    | inl k ↦ absurd (ground (arith, v.audio_recorded stopped))
    | inr ((reason, e), k) ↦
        rw (k, end_reason)
          (record {
            reason = reason;
            before = s.log ++ closed_transport ∷ closed_llm ∷ [];
            last = sym (
                append_assoc s.log (closed_transport ∷ closed_llm ∷ [])
                  (observed (on_session_end reason) ∷ []));
            once = omega (
              arith,
              v.silent,
              ends-append s.log
                  (closed_transport ∷ closed_llm ∷ observed (on_session_end reason) ∷ []),
            );
            justified = Justified-append reason e s.log _ (v.justified reason e k);
            cause = inl (causes (reason, e) k);
          })
  ]

  start-Inv : (setup : SetupRequest D) → Inv (start_session setup)
  unfolding start_session ends
  start-Inv setup = record {
    silent = refl;
    audio_recorded = λ h. cc;
    events_recorded = λ h. cc;
    justified = λ reason e h. cc;
  }

module _ {D : Type 0} (env : Env D) (cap : ℕ) where
  session-Ended :
      (inbound outbound : BridgeFn) (setup : SetupRequest D) (inputs : List (Input D))
      (fin : Finished D)
      → run_session env cap inbound outbound setup inputs ≡ some fin
      → Ended inputs fin
  unfolding run_session
  session-Ended inbound outbound setup inputs fin e =
      elim (Option-cases (steps env cap inbound outbound inputs (start_session setup))) [
        | inl k ↦ absurd (ground arith)
        | inr (s, k) ↦
            subst (λ (f : Finished D). Ended inputs f) (ground arith)
              (conclude-Ended inputs s (ground arith)
                (steps-Inv env cap inbound outbound inputs (start_session setup) s k
                  (start-Inv setup))
                (λ end h. session-Cause env cap inbound outbound setup inputs s end k h))
      ]

  -- Whatever the adapters do, when Run returns, the observer was told of the end of the session exactly
  -- once and as the last thing, also where the session could not start; of a session that started, the
  -- reason and what Run returns are those of the first input that ended it: the context's first error
  -- where the context was done before it, otherwise no error when a side closed its channel, the error
  -- that an adapter sent, or, at a frame or an event, an error, and that error is one that the observer
  -- was told of.
  pub run-Ended :
      (formats : Formats) (setup : SetupRequest D) (inputs : List (Input D)) (fin : Finished D)
      → run env cap formats setup inputs ≡ some fin
      → Ended inputs fin
  unfolding run ends fail_early Unstarted failure
  run-Ended formats setup inputs fin e =
      elim (Result-cases (resolve_bridge formats.transport_in formats.llm_out)) [
        | inr (x, k) ↦
            subst (λ (f : Finished D). Ended inputs f) (ground arith)
              (fail-Ended inputs x [] refl (x, refl, inl refl))
        | inl (inbound, k) ↦
            elim (Result-cases (resolve_bridge formats.llm_in formats.transport_out)) [
              | inr (x, l) ↦
                  subst (λ (f : Finished D). Ended inputs f) (ground arith)
                    (fail-Ended inputs x [] refl (x, refl, inl refl))
              | inl (outbound, l) ↦ elim (Option-cases (env.open_llm [] setup)) [
                | inr (x, m) ↦
                    subst (λ (f : Finished D). Ended inputs f) (ground arith)
                      (fail-Ended inputs x (opened setup ∷ []) refl (x, refl, inr (setup, refl)))
                | inl m ↦ session-Ended inbound outbound setup inputs fin (ground arith)
              ]
            ]
      ]
