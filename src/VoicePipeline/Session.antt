-- ===== src/VoicePipeline/Session.antt =====
-- voice/pipeline/pipeline.go: New and Run. What the outside does to a session is a list of inputs, in
-- the order in which the two goroutines of Run meet them.
use gopkg.Common.{
  ℕ, Bool, true, false, ◌||◌, List, [], ◌∷◌, ◌++◌, Option, none, some, if◌then◌else◌, Result, ok,
  err, ℤ, pos, ltb_ℤ, eqb_ℤ, length,
}
use gopkg.VoicePipeline.{
  Error, AudioFormat, Frame, SetupRequest, EndReason, transport_closed, llm_closed, context_done,
  fatal_error, LlmEvent, on_session_start, on_history_injected, on_error, on_session_end, Action,
  observed, opened, sent_audio, closed_transport, closed_llm, Env,
}
use gopkg.VoicePipeline.Bridge.{BridgeFn, resolve_bridge}
use gopkg.VoicePipeline.Batch.{Move}
use gopkg.VoicePipeline.Dispatch.{Handled, dispatch_llm_event}

-- The numbers of Options; a nil filler, observer, logger or session function has its default.
pub record Options : Type 0 where
  pub tool_concurrency : ℤ
  pub hold_filler_delay : ℤ

pub data OptionsError : Type 0 where
  negative_concurrency : ℤ → OptionsError
  negative_delay : ℤ → OptionsError

-- Two seconds, in nanoseconds.
abbrev pub default_delay : ℤ
default_delay = pos 2000000000

unfoldable pub new : Options → Result OptionsError Options
new opts =
    if ltb_ℤ opts.tool_concurrency (pos 0)
    then err (negative_concurrency opts.tool_concurrency)
    else if ltb_ℤ opts.hold_filler_delay (pos 0)
    then err (negative_delay opts.hold_filler_delay)
    else ok (record {
      tool_concurrency =
          if eqb_ℤ opts.tool_concurrency (pos 0) then pos 1 else opts.tool_concurrency;
      hold_filler_delay =
          if eqb_ℤ opts.hold_filler_delay (pos 0) then default_delay else opts.hold_filler_delay;
    })

-- What reaches Run. A nil error on an error channel, or its closing, is `none`.
pub data Input (D : Type 0) : Type 0 where
  frame : Frame → Input D
  frames_closed : Input D
  receive_error : Option Error → Input D
  event : LlmEvent D → List Move → Input D
  events_closed : Input D
  llm_error : Option Error → Input D
  ctx_done : Error → Input D

-- `ended` is what recordEnd keeps; a goroutine that has returned is `false`; `ctx_err` is ctx.Err().
pub record Running (D : Type 0) : Type 0 where
  pub log : List (Action D)
  pub turn : ℕ
  pub audio_alive : Bool
  pub events_alive : Bool
  pub ended : Option (EndReason × Option Error)
  pub ctx_err : Option Error

-- The body of recordEnd, under its sync.Once.
unfoldable pub end_of : EndReason → Option Error → Option Error → EndReason × Option Error
end_of reason e none = (reason, e)
end_of reason e (some ctx) = (context_done, some ctx)

-- ctx.Err() stays what it was first.
unfoldable pub first_error : Option Error → Error → Option Error
first_error none e = some e
first_error (some first) e = some first

module _ {D : Type 0} where
  unfoldable pub record_end : EndReason → Option Error → Running D → Running D
  unfolding end_of
  record_end reason e s = elim s.ended [
    | none ↦ record s { ended = some (end_of reason e s.ctx_err) }
    | some first ↦ s
  ]

  -- recordEnd, then OnError; cancel() tells the adapters, whose channels close after it.
  unfoldable pub record_fatal : Error → Running D → Running D
  unfolding record_end
  record_fatal e s =
      let s' = record_end fatal_error (some e) s in
      record s' { log = s'.log ++ observed (on_error e) ∷ [] }

  unfoldable pub stop_audio : Running D → Running D
  stop_audio s = record s { audio_alive = false }

  unfoldable pub stop_events : Running D → Running D
  stop_events s = record s { events_alive = false }

module _ {D : Type 0} (env : Env D) (tool_concurrency : ℕ) (inbound outbound : BridgeFn) where
  -- One frame of the caller: through the bridge, to the model.
  unfoldable pub take_frame : Frame → Running D → Running D
  unfolding record_fatal stop_audio
  take_frame f s = elim (inbound f) [
    | err e ↦ stop_audio (record_fatal e s)
    | ok conv ↦
        let s' = record s { log = s.log ++ sent_audio conv ∷ [] } in
        elim (env.send_audio s.log conv) [ none ↦ s' | some e ↦ stop_audio (record_fatal e s') ]
  ]

  -- What dispatchLLMEvent did, and its fatal error.
  unfoldable pub after_event : Handled D → Running D → Running D
  unfolding record_fatal stop_events
  after_event h s =
      let s' = record s { log = h.log; turn = h.turn } in
      elim h.fatal [ none ↦ s' | some e ↦ stop_events (record_fatal e s') ]

  unfoldable pub take_event : LlmEvent D → List Move → Running D → Option (Running D)
  unfolding dispatch_llm_event after_event
  take_event ev schedule s =
      elim (dispatch_llm_event env tool_concurrency outbound ev schedule s.turn s.log) [
        | none ↦ none
        | some h ↦ some (after_event h s)
      ]

  -- The caller-audio goroutine.
  unfoldable pub audio_step : Input D → Running D → Running D
  unfolding take_frame record_end record_fatal stop_audio
  audio_step (frame f) s = take_frame f s
  audio_step frames_closed s = stop_audio (record_end transport_closed none s)
  audio_step (receive_error (some e)) s = stop_audio (record_fatal e s)
  audio_step _ s = s

  -- The goroutine of the model's events.
  unfoldable pub events_step : Input D → Running D → Option (Running D)
  unfolding take_event record_end record_fatal stop_events
  events_step (event ev schedule) s = take_event ev schedule s
  events_step events_closed s = some (stop_events (record_end llm_closed none s))
  events_step (llm_error (some e)) s = some (stop_events (record_fatal e s))
  events_step _ s = some s

  -- A goroutine that has returned reads nothing more.
  unfoldable pub step : Input D → Running D → Option (Running D)
  unfolding audio_step events_step first_error
  step (ctx_done e) s = some (record s { ctx_err = first_error s.ctx_err e })
  step (event ev schedule) s = if s.events_alive then events_step (event ev schedule) s else some s
  step events_closed s = if s.events_alive then events_step events_closed s else some s
  step (llm_error e) s = if s.events_alive then events_step (llm_error e) s else some s
  step i s = if s.audio_alive then some (audio_step i s) else some s

  unfoldable pub steps : List (Input D) → Running D → Option (Running D)
  unfolding step
  steps [] s = some s
  steps (i ∷ is) s = elim (step i s) [ none ↦ none | some s' ↦ steps is s' ]

-- What the caller of Run gets, with all that was done.
pub record Finished (D : Type 0) : Type 0 where
  pub log : List (Action D)
  pub err : Option Error

-- The adapters' formats: what the transport emits and expects, what the model emits and expects.
pub record Formats : Type 0 where
  pub transport_in : AudioFormat
  pub transport_out : AudioFormat
  pub llm_in : AudioFormat
  pub llm_out : AudioFormat

module _ {D : Type 0} where
  -- The error paths before the session starts.
  unfoldable pub fail_early : Error → List (Action D) → Finished D
  fail_early e log = record {
    log = log ++ observed (on_error e) ∷ observed (on_session_end fatal_error) ∷ [];
    err = some e;
  }

  -- The reason and the error; where nothing was recorded, the initial reason.
  unfoldable pub end_reason : Running D → EndReason × Option Error
  end_reason s = elim s.ended [ none ↦ (context_done, s.ctx_err) | some end ↦ end ]

  -- After both goroutines have returned: the cleanup and OnSessionEnd.
  unfoldable pub conclude : Running D → Finished D
  unfolding end_reason
  conclude s = record {
    log = s.log ++ closed_transport ∷ closed_llm ∷ observed (on_session_end (end_reason s).0) ∷ [];
    err = (end_reason s).1;
  }

  unfoldable pub start_session : SetupRequest D → Running D
  start_session setup = record {
    log =
        opened setup
        ∷ observed (on_history_injected (length setup.history))
        ∷ observed on_session_start
        ∷ [];
    turn = 0;
    audio_alive = true;
    events_alive = true;
    ended = none;
    ctx_err = none;
  }

module _ {D : Type 0} (env : Env D) (tool_concurrency : ℕ) where
  -- `none`: some goroutine has not returned, so Run waits.
  unfoldable pub run_session :
      BridgeFn → BridgeFn → SetupRequest D → List (Input D) → Option (Finished D)
  unfolding steps start_session conclude
  run_session inbound outbound setup inputs =
      elim (steps env tool_concurrency inbound outbound inputs (start_session setup)) [
        | none ↦ none
        | some s ↦ if s.audio_alive || s.events_alive then none else some (conclude s)
      ]

  unfoldable pub run : Formats → SetupRequest D → List (Input D) → Option (Finished D)
  unfolding resolve_bridge fail_early run_session
  run formats setup inputs = elim (resolve_bridge formats.transport_in formats.llm_out) [
    | err e ↦ some (fail_early e [])
    | ok inbound ↦ elim (resolve_bridge formats.llm_in formats.transport_out) [
      | err e ↦ some (fail_early e [])
      | ok outbound ↦ elim (env.open_llm [] setup) [
        | some e ↦ some (fail_early e (opened setup ∷ []))
        | none ↦ run_session inbound outbound setup inputs
      ]
    ]
  ]
