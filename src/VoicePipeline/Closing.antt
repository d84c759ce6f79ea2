-- ===== src/VoicePipeline/Closing.antt =====
-- voice/pipeline/pipeline.go, Run: that a session can always end.
use gopkg.Common.{
  ℕ, ◌<◌, ◌≡◌, ◌∙◌, refl, ap, arith, true, false, List, [], ◌∷◌, ◌++◌, Each, none, some,
  Option-cases, Bool-cases, inl, inr, if◌then◌else◌, if_true, if_false,
}
use gopkg.VoicePipeline.{
  SetupRequest, ToolCall, LlmEvent, audio_out, assistant_text, caller_transcript, turn_complete,
  interrupted, tool_calls, Action, transport_closed, llm_closed, Env,
}
use gopkg.VoicePipeline.Bridge.{BridgeFn}
use gopkg.VoicePipeline.Batch.{Batch, Move, move, moves, done, run_batch}
use gopkg.VoicePipeline.Batch.Order.{run_batch_can_finish}
use gopkg.VoicePipeline.Dispatch.{
  Handled, announce, flush_results, dispatch_tool_calls, dispatch_llm_event,
}
use gopkg.VoicePipeline.Dispatch.Grows.{some_inj}
use gopkg.VoicePipeline.Session.{
  Input, frame, frames_closed, receive_error, event, events_closed, llm_error, ctx_done, Running,
  record_end, record_fatal, stop_audio, stop_events, audio_step, after_event, take_event,
  events_step, step, steps, Finished, conclude, start_session, run_session,
}

-- The same input, or the same event with a batch that goes on for some more moves.
pub data Prolongs {D : Type 0} : Input D → Input D → Type 0 where
  same : (i : Input D) → Prolongs i i
  longer :
      (ev : LlmEvent D) (schedule more : List Move)
      → Prolongs (event ev schedule) (event ev (schedule ++ more))

module _ {D : Type 0} (env : Env D) (cap : ℕ) (inbound outbound : BridgeFn) where
  steps-append :
      (is js : List (Input D)) (s : Running D) (t : Running D)
      → steps env cap inbound outbound is s ≡ some t
      → steps env cap inbound outbound (is ++ js) s ≡ steps env cap inbound outbound js t
  unfolding steps
  steps-append [] js s t e = rw (some_inj e) refl
  steps-append (i ∷ is) js s t e = elim (Option-cases (step env cap inbound outbound i s)) [
    | inl k ↦ absurd (ground arith)
    | inr (u, k) ↦ ground (arith, k, steps-append is js u t)
  ]

  -- What each goroutine leaves when its stream is closed.
  audio_closed : Running D → Running D
  audio_closed s = if s.audio_alive then stop_audio (record_end transport_closed none s) else s

  events_over : Running D → Running D
  events_over s = if s.events_alive then stop_events (record_end llm_closed none s) else s

  close_frames :
      (s : Running D)
      → (step env cap inbound outbound frames_closed s ≡ some (audio_closed s))
        × ((audio_closed s).audio_alive ≡ false)
  unfolding step audio_step audio_closed stop_audio record_end
  close_frames s = (ground arith, ground arith)

  close_events :
      (s : Running D)
      → (step env cap inbound outbound events_closed s ≡ some (events_over s))
        × ((events_over s).events_alive ≡ false)
        × ((events_over s).audio_alive ≡ s.audio_alive)
  unfolding step events_step events_over stop_events record_end
  close_events s = (ground arith, ground arith, ground arith)

  hang_up :
      (s : Running D)
      → (t : Running D) × (steps env cap inbound outbound (frames_closed ∷ events_closed ∷ []) s
          ≡ some t)
        × (t.audio_alive ≡ false)
        × (t.events_alive ≡ false)
  unfolding steps
  hang_up s =
      let (e, stopped) = close_frames s in
      let (f, over, kept) = close_events (audio_closed s) in
      (events_over (audio_closed s), ground (arith, e, f), kept ∙ stopped, over)

  moves-append :
      (calls : List (ToolCall D)) (ms ns : List Move) (b : Batch D)
      → moves env cap calls (ms ++ ns) b ≡ moves env cap calls ns (moves env cap calls ms b)
  unfolding moves
  moves-append calls [] ns b = refl
  moves-append calls (m ∷ ms) ns b = moves-append calls ms ns (move env cap calls m b)

  run_batch-append :
      (calls : List (ToolCall D)) (ms ns : List Move) (log : List (Action D))
      → run_batch env cap calls (ms ++ ns) log
        ≡ moves env cap calls ns (run_batch env cap calls ms log)
  unfolding run_batch
  run_batch-append calls ms ns log = moves-append calls ms ns _

  batch_ends :
      (calls : List (ToolCall D)) (schedule : List Move) (log : List (Action D))
      → 0 < cap
      → (more : List Move) × (log' : List (Action D)) × (dispatch_tool_calls env cap
            (schedule ++ more)
            calls
            log
          ≡ some log')
  unfolding dispatch_tool_calls
  batch_ends calls schedule log some_cap =
      let start_log = announce calls log in
      let (more, over) = run_batch_can_finish env cap calls schedule start_log some_cap in
      let b = run_batch env cap calls (schedule ++ more) start_log in
      let all : done env cap calls b ≡ true =
        ap (done env cap calls) (run_batch-append calls schedule more start_log) ∙ over in
      (more, flush_results env cap calls b, if_true (done env cap calls b) _ _ all)

  event_ends :
      (ev : LlmEvent D) (schedule : List Move) (turn : ℕ) (log : List (Action D))
      → 0 < cap
      → (more : List Move) × (h : Handled D) × (dispatch_llm_event env cap outbound ev
            (schedule ++ more)
            turn
            log
          ≡ some h)
  unfolding dispatch_llm_event
  event_ends (audio_out f) schedule turn log some_cap = ([], _, refl)
  event_ends (assistant_text text final) schedule turn log some_cap = ([], _, refl)
  event_ends (caller_transcript text) schedule turn log some_cap = ([], _, refl)
  event_ends turn_complete schedule turn log some_cap = ([], _, refl)
  event_ends interrupted schedule turn log some_cap = ([], _, refl)
  event_ends (tool_calls calls) schedule turn log some_cap =
      let (more, log', e) = batch_ends calls schedule log some_cap in
      (more, record { log = log'; turn = turn; fatal = none }, rw (e, dispatch_llm_event) refl)

  step_ends :
      (i : Input D) (s : Running D)
      → 0 < cap
      → (i' : Input D) × Prolongs i i'
        × ((s' : Running D) × (step env cap inbound outbound i' s ≡ some s'))
  unfolding step events_step audio_step take_event
  step_ends (event ev schedule) s some_cap =
      let (more, h, e) = event_ends ev schedule s.turn s.log some_cap in
      let next = after_event env cap inbound outbound h s in
      (
        event ev (schedule ++ more),
        longer ev schedule more,
        elim (Bool-cases s.events_alive) [
          | inl on ↦ (next, if_true s.events_alive _ _ on ∙ rw (e, take_event) refl)
          | inr off ↦ (s, if_false _ _ _ off)
        ],
      )
  step_ends events_closed s some_cap = (
    events_closed,
    same events_closed,
    elim (Bool-cases s.events_alive) [
      | inl on ↦ (stop_events (record_end llm_closed none s), if_true _ _ _ on)
      | inr off ↦ (s, if_false _ _ _ off)
    ],
  )
  step_ends (llm_error none) s some_cap = (
    (llm_error none),
    same (llm_error none),
    elim (Bool-cases s.events_alive) [
      | inl on ↦ (s, if_true _ _ _ on)
      | inr off ↦ (s, if_false _ _ _ off)
    ],
  )
  step_ends (llm_error (some x)) s some_cap = (
    (llm_error (some x)),
    same (llm_error (some x)),
    elim (Bool-cases s.events_alive) [
      | inl on ↦ (stop_events (record_fatal x s), if_true _ _ _ on)
      | inr off ↦ (s, if_false _ _ _ off)
    ],
  )
  step_ends (frame f) s some_cap = (
    (frame f),
    same (frame f),
    elim (Bool-cases s.audio_alive) [
      | inl on ↦ (audio_step env cap inbound outbound (frame f) s, if_true _ _ _ on)
      | inr off ↦ (s, if_false _ _ _ off)
    ],
  )
  step_ends frames_closed s some_cap = (
    frames_closed,
    same frames_closed,
    elim (Bool-cases s.audio_alive) [
      | inl on ↦ (audio_step env cap inbound outbound frames_closed s, if_true _ _ _ on)
      | inr off ↦ (s, if_false _ _ _ off)
    ],
  )
  step_ends (receive_error x) s some_cap = (
    (receive_error x),
    same (receive_error x),
    elim (Bool-cases s.audio_alive) [
      | inl on ↦ (audio_step env cap inbound outbound (receive_error x) s, if_true _ _ _ on)
      | inr off ↦ (s, if_false _ _ _ off)
    ],
  )
  step_ends (ctx_done x) s some_cap = (ctx_done x, same (ctx_done x), (_, refl))

  steps_end :
      (is : List (Input D)) (s : Running D)
      → 0 < cap
      → (is' : List (Input D)) × Each Prolongs is is'
        × ((t : Running D) × (steps env cap inbound outbound is' s ≡ some t))
  unfolding steps Each
  steps_end [] s some_cap = ([], tt, (s, refl))
  steps_end (i ∷ is) s some_cap =
      let (i', more, (u, e)) = step_ends i s some_cap in
      let (is', mores, (t, f)) = steps_end is u some_cap in
      (i' ∷ is', (more, mores), (t, rw (e, steps) f))

  -- Whatever reached a session so far, and wherever the goroutines of its tool calls stand: these can go
  -- on so that every batch finishes, and when then the frames of the caller and the events of the model
  -- are closed, Run returns.
  pub closes_end :
      (setup : SetupRequest D) (inputs : List (Input D))
      → 0 < cap
      → (inputs' : List (Input D)) × Each Prolongs inputs inputs'
        × ((fin : Finished D) × (run_session env cap inbound outbound setup
                (inputs' ++ frames_closed ∷ events_closed ∷ [])
              ≡ some fin))
  unfolding run_session
  closes_end setup inputs some_cap =
      let (inputs', prolonged, (s, e)) = steps_end inputs (start_session setup) some_cap in
      let (t, h, a, b) = hang_up s in
      let all =
        steps-append inputs' (frames_closed ∷ events_closed ∷ []) (start_session setup) s e ∙ h in
      (inputs', prolonged, (conclude t, ground (arith, all, a, b)))
