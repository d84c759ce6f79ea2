-- ===== src/VoicePipeline/Causes.antt =====
-- voice/pipeline/pipeline.go, Run: which of the things that reach a session ends it.
pub mod Keeping
pub mod First
use gopkg.Common.{
  ℕ, ◌≡◌, ◌∙◌, ◌⊎◌, inl, inr, refl, sym, if_true, ap, subst, arith, Bool, true, false, List, [],
  ◌∷◌, Option, none, some, Option-cases, Result-cases, if◌then◌else◌,
}
use gopkg.VoicePipeline.{
  Error, Frame, SetupRequest, EndReason, transport_closed, llm_closed, context_done, fatal_error,
  LlmEvent, Env,
}
use gopkg.VoicePipeline.Bridge.{BridgeFn}
use gopkg.VoicePipeline.Batch.{Move}
use gopkg.VoicePipeline.Dispatch.{Handled, dispatch_llm_event}
use gopkg.VoicePipeline.Dispatch.Grows.{some_inj}
use gopkg.VoicePipeline.Session.{
  Input, frame, frames_closed, receive_error, event, events_closed, llm_error, ctx_done, Running,
  end_of, first_error, record_end, record_fatal, stop_audio, stop_events, take_frame, after_event,
  take_event, audio_step, events_step, step, steps, start_session,
}
use gopkg.VoicePipeline.Recording.{record_end_kept, record_end_new}

-- An input that leaves the session open unless it fails.
unfoldable pub Quiet : {D : Type 0} → Input D → Type 0
Quiet (frame f) = Unit
Quiet (event ev schedule) = Unit
Quiet (receive_error none) = Unit
Quiet (llm_error none) = Unit
Quiet _ = ⊥

-- The end of a session that this input ends, by what the context was done with before it.
unfoldable pub Why : {D : Type 0} → Option Error → Input D → EndReason × Option Error → Type 0
Why (some c) i end = end ≡ (context_done, some c)
Why none frames_closed end = end ≡ (transport_closed, none)
Why none events_closed end = end ≡ (llm_closed, none)
Why none (receive_error e) end = end ≡ (fatal_error, e)
Why none (llm_error e) end = end ≡ (fatal_error, e)
Why none (frame f) end = (x : Error) × (end ≡ (fatal_error, some x))
Why none (event ev schedule) end = (x : Error) × (end ≡ (fatal_error, some x))
Why none (ctx_done c) end = ⊥

-- The first of the inputs that ends the session, and the end that it has, where the context was done
-- with the given error, or not yet.
pub data Cause {D : Type 0}
    : Option Error → List (Input D) → EndReason × Option Error → Type 0 where
  here :
      (ctx : Option Error) (i : Input D) (is : List (Input D)) (end : EndReason × Option Error)
      → Why ctx i end
      → Cause ctx (i ∷ is) end
  quietly :
      (ctx : Option Error) (i : Input D) (is : List (Input D)) (end : EndReason × Option Error)
      → Quiet i
      → Cause ctx is end
      → Cause ctx (i ∷ is) end
  done_first :
      (c : Error) (is : List (Input D)) (end : EndReason × Option Error)
      → Cause (some c) is end
      → Cause none (ctx_done c ∷ is) end
  done_again :
      (c d : Error) (is : List (Input D)) (end : EndReason × Option Error)
      → Cause (some c) is end
      → Cause (some c) (ctx_done d ∷ is) end

pub closed-Why :
    (D : Type 0) (ctx : Option Error)
    → Why {D = D} ctx frames_closed (end_of transport_closed none ctx)
      × Why {D = D} ctx events_closed (end_of llm_closed none ctx)
unfolding end_of Why
closed-Why D none = (refl, refl)
closed-Why D (some c) = (refl, refl)

module _ {D : Type 0} where
  -- Nothing has ended the session: both goroutines run.
  pub record Open (s : Running D) : Type 0 where
    pub unrecorded : s.ended ≡ none
    pub audio : s.audio_alive ≡ true
    pub events : s.events_alive ≡ true

  -- What an input does to an open session.
  pub data Follows (i : Input D) (s s' : Running D) : Type 0 where
    still : Quiet i → s'.ctx_err ≡ s.ctx_err → Open s' → Follows i s s'
    over :
        (end : EndReason × Option Error)
        → Why s.ctx_err i end
        → s'.ended ≡ some end
        → Follows i s s'

  -- What one step keeps of the end on record.
  unfoldable pub Kept : Running D → Running D → Type 0
  Kept s s' = (end : EndReason × Option Error) → s.ended ≡ some end → s'.ended ≡ some end

  pub fatal-Why :
      (ctx : Option Error) (x : Error) (i : Input D)
      → ((end : EndReason × Option Error) → end ≡ (fatal_error, some x) → Why none i end)
      → Why ctx i (end_of fatal_error (some x) ctx)
  unfolding end_of Why
  fatal-Why none x i f = f (fatal_error, some x) refl
  fatal-Why (some c) x i f = refl

  pub recorded_as :
      (reason : EndReason) (e : Option Error) (s : Running D)
      → s.ended ≡ none
      → (record_end reason e s).ended ≡ some (end_of reason e s.ctx_err)
  recorded_as reason e s h = ap (λ (t : Running D). t.ended) (record_end_new reason e s h)

  pub kept_record :
      (reason : EndReason) (e : Option Error) (s : Running D) → Kept s (record_end reason e s)
  unfolding Kept
  kept_record reason e s end h =
      ap (λ (t : Running D). t.ended) (record_end_kept reason e s end h) ∙ h
