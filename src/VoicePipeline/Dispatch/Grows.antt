-- ===== src/VoicePipeline/Dispatch/Grows.antt =====
-- Everything that handling an event does is added at the end of the log, and none of it ends the
-- session.
use gopkg.Common.{
  ℕ, suc, ◌+◌, ◌≡◌, ◌∙◌, refl, sym, ap, subst, arith, List, [], ◌∷◌, ◌++◌, append_assoc, append-nil,
  some, Option-cases, Result-cases, inl, inr,
}
use gopkg.VoicePipeline.{
  Frame, ToolCall, ToolResult, LlmEvent, audio_out, assistant_text, caller_transcript,
  turn_complete, interrupted, tool_calls, on_session_end, on_session_start, on_history_injected,
  on_caller_transcript, on_assistant_text, on_tool_call, on_tool_response, on_interrupted,
  on_turn_complete, on_error, Action, observed, opened, sent_audio, sent, marked, cleared,
  sent_tool_results, closed_transport, closed_llm, Env,
}
use gopkg.VoicePipeline.Bridge.{BridgeFn}
use gopkg.VoicePipeline.Batch.{
  zero_results, Batch, Move, start, finish, delay_over, filler_frame, filler_end, Filler,
  start_next, finish_call, write_result, pump, move_filler, move, moves, run_batch,
}
use gopkg.VoicePipeline.Dispatch.{
  Handled, announce, report, flush_results, dispatch_tool_calls, send_out, dispatch_llm_event,
}

pub some_inj {ℓ} : {A : Type ℓ} {x y : A} → some x ≡ some y → x ≡ y
some_inj h = cc

module _ {D : Type 0} where
  abbrev pub ends_session : Action D → ℕ
  ends_session (observed (on_session_end r)) = 1
  ends_session (observed on_session_start) = 0
  ends_session (observed (on_history_injected n)) = 0
  ends_session (observed (on_caller_transcript t)) = 0
  ends_session (observed (on_assistant_text t f)) = 0
  ends_session (observed (on_tool_call c)) = 0
  ends_session (observed (on_tool_response c r)) = 0
  ends_session (observed on_interrupted) = 0
  ends_session (observed (on_turn_complete t)) = 0
  ends_session (observed (on_error e)) = 0
  ends_session (opened s) = 0
  ends_session (sent_audio f) = 0
  ends_session (sent f) = 0
  ends_session (marked t) = 0
  ends_session cleared = 0
  ends_session (sent_tool_results rs) = 0
  ends_session closed_transport = 0
  ends_session closed_llm = 0

  -- How often the session ends in a log.
  unfoldable pub ends : List (Action D) → ℕ
  ends [] = 0
  ends (a ∷ l) = ends_session a + ends l

  pub ends-append : (xs ys : List (Action D)) → ends (xs ++ ys) ≡ ends xs + ends ys
  unfolding ends
  ends-append [] ys = omega arith
  ends-append (x ∷ xs) ys = omega (arith, ends-append xs ys)

  pub record Grows (log log' : List (Action D)) : Type 0 where
    pub more : List (Action D)
    pub appended : log' ≡ log ++ more
    pub silent : ends more ≡ 0

  pub Grows-refl : (log : List (Action D)) → Grows log log
  unfolding ends
  Grows-refl log = record { more = []; appended = sym (append-nil log); silent = refl }

  pub Grows-by : (log more : List (Action D)) → ends more ≡ 0 → Grows log (log ++ more)
  Grows-by log more h = record { more = more; appended = refl; silent = h }

  pub Grows-trans :
      (log log' log'' : List (Action D)) → Grows log log' → Grows log' log'' → Grows log log''
  Grows-trans log log' log'' g h = record {
    more = g.more ++ h.more;
    appended = h.appended ∙ ap (λ l. l ++ h.more) g.appended ∙ append_assoc log g.more h.more;
    silent = omega (arith, ends-append g.more h.more, g.silent, h.silent);
  }

  announce-Grows : (cs : List (ToolCall D)) (log : List (Action D)) → Grows log (announce cs log)
  unfolding announce ends
  announce-Grows [] log = Grows-refl log
  announce-Grows (c ∷ cs) log =
      let log' = log ++ observed (on_tool_call c) ∷ [] in
      Grows-trans log log' (announce cs log') (Grows-by log (observed (on_tool_call c) ∷ []) refl)
        (announce-Grows cs log')

  report-Grows :
      (cs : List (ToolCall D)) (rs : List (ToolResult D)) (log : List (Action D))
      → Grows log (report cs rs log)
  unfolding report ends
  report-Grows [] rs log = Grows-refl log
  report-Grows (c ∷ cs) [] log = Grows-refl log
  report-Grows (c ∷ cs) (r ∷ rs) log =
      let log' = log ++ observed (on_tool_response c r) ∷ [] in
      Grows-trans log log' (report cs rs log')
        (Grows-by log (observed (on_tool_response c r) ∷ []) refl) (report-Grows cs rs log')

module _ {D : Type 0} (env : Env D) (cap : ℕ) where
  module _ (calls : List (ToolCall D)) where
    pump-Grows : (f : Frame) (b : Batch D) → Grows b.log (pump env cap calls f b).log
    unfolding pump ends
    pump-Grows f b = elim (Option-cases (env.send b.log f)) [
      | inl e ↦ rw (e, pump) (Grows-by b.log (sent f ∷ []) refl)
      | inr (x, e) ↦ rw (e, pump) (Grows-by b.log (sent f ∷ []) refl)
    ]

    filler-Grows :
        (m : Move) (f : Filler) (b : Batch D) → Grows b.log (move_filler env cap calls m f b).log
    unfolding move_filler
    filler-Grows (filler_frame f) Filler.pumping b = pump-Grows f b
    filler-Grows (filler_frame f) Filler.waiting b = Grows-refl b.log
    filler-Grows (filler_frame f) Filler.stopped b = Grows-refl b.log
    filler-Grows start f b = Grows-refl b.log
    filler-Grows (finish i) f b = Grows-refl b.log
    filler-Grows delay_over Filler.waiting b = Grows-refl b.log
    filler-Grows delay_over Filler.pumping b = Grows-refl b.log
    filler-Grows delay_over Filler.stopped b = Grows-refl b.log
    filler-Grows filler_end Filler.waiting b = Grows-refl b.log
    filler-Grows filler_end Filler.pumping b = Grows-refl b.log
    filler-Grows filler_end Filler.stopped b = Grows-refl b.log

    start_keeps : (b : Batch D) → (start_next env cap calls b).log ≡ b.log
    unfolding start_next
    start_keeps b = ground arith

    finish_keeps : (i : ℕ) (b : Batch D) → (finish_call env cap calls i b).log ≡ b.log
    unfolding finish_call write_result
    finish_keeps i b = ground arith

    move-Grows : (m : Move) (b : Batch D) → Grows b.log (move env cap calls m b).log
    unfolding move
    move-Grows start b = rw (start_keeps b) (Grows-refl b.log)
    move-Grows (finish i) b = rw (finish_keeps i b) (Grows-refl b.log)
    move-Grows delay_over b = filler-Grows delay_over b.filler b
    move-Grows (filler_frame f) b = filler-Grows (filler_frame f) b.filler b
    move-Grows filler_end b = filler-Grows filler_end b.filler b

    moves-Grows : (ms : List Move) (b : Batch D) → Grows b.log (moves env cap calls ms b).log
    unfolding moves
    moves-Grows [] b = Grows-refl b.log
    moves-Grows (m ∷ ms) b =
        let b' = move env cap calls m b in
        Grows-trans b.log b'.log (moves env cap calls ms b').log (move-Grows m b)
          (moves-Grows ms b')

  run_batch-Grows :
      (calls : List (ToolCall D)) (schedule : List Move) (log : List (Action D))
      → Grows log (run_batch env cap calls schedule log).log
  unfolding run_batch
  run_batch-Grows calls schedule log = moves-Grows calls schedule (record {
    started = 0;
    running = [];
    results = zero_results calls;
    filler = Filler.waiting;
    log = log;
  })

  flush-Grows :
      (calls : List (ToolCall D)) (b : Batch D) → Grows b.log (flush_results env cap calls b)
  unfolding flush_results ends
  flush-Grows calls b =
      let cleared_log = b.log ++ cleared ∷ [] in
      let reported = report calls b.results cleared_log in
      let sent_log = reported ++ sent_tool_results b.results ∷ [] in
      let so_far : Grows b.log sent_log =
        Grows-trans b.log cleared_log sent_log (Grows-by b.log (cleared ∷ []) refl) (
          Grows-trans cleared_log reported sent_log (report-Grows calls b.results cleared_log)
            (Grows-by reported (sent_tool_results b.results ∷ []) refl)) in
      elim (Option-cases (env.send_tool_results reported b.results)) [
        | inl e ↦ rw (e, flush_results) so_far
        | inr (x, e) ↦
            rw (e, flush_results)
              (Grows-trans b.log sent_log (sent_log ++ observed (on_error x) ∷ []) so_far
                (Grows-by sent_log (observed (on_error x) ∷ []) refl))
      ]

  tools-Grows :
      (schedule : List Move) (calls : List (ToolCall D)) (log log' : List (Action D))
      → dispatch_tool_calls env cap schedule calls log ≡ some log'
      → Grows log log'
  unfolding dispatch_tool_calls
  tools-Grows schedule calls log log' h =
      let b = run_batch env cap calls schedule (announce calls log) in
      let all : Grows log (flush_results env cap calls b) =
        Grows-trans log b.log (flush_results env cap calls b)
          (Grows-trans log (announce calls log) b.log (announce-Grows calls log)
            (run_batch-Grows calls schedule (announce calls log)))
          (flush-Grows calls b) in
      subst (λ l. Grows log l) (ground arith) all

  send_out-Grows :
      (bridge : BridgeFn) (f : Frame) (turn : ℕ) (log : List (Action D))
      → Grows log (send_out env cap bridge f turn log).log
  unfolding send_out ends
  send_out-Grows bridge f turn log = elim (Result-cases (bridge f)) [
    | inl (conv, e) ↦ rw (e, send_out) (Grows-by log (sent conv ∷ []) refl)
    | inr (x, e) ↦ rw (e, send_out) (Grows-refl log)
  ]

  -- What handling an event does comes after what was done before, and does not end the session.
  pub dispatch-Grows :
      (bridge : BridgeFn) (ev : LlmEvent D) (schedule : List Move) (turn : ℕ)
      (log : List (Action D)) (h : Handled D)
      → dispatch_llm_event env cap bridge ev schedule turn log ≡ some h
      → Grows log h.log
  unfolding dispatch_llm_event ends
  dispatch-Grows bridge (audio_out f) schedule turn log h e =
      subst (λ (k : Handled D). Grows log k.log) (some_inj e) (send_out-Grows bridge f turn log)
  dispatch-Grows bridge (assistant_text text final) schedule turn log h e =
      subst (λ (k : Handled D). Grows log k.log) (some_inj e)
        (Grows-by log (observed (on_assistant_text text final) ∷ []) refl)
  dispatch-Grows bridge (caller_transcript text) schedule turn log h e =
      subst (λ (k : Handled D). Grows log k.log) (some_inj e)
        (Grows-by log (observed (on_caller_transcript text) ∷ []) refl)
  dispatch-Grows bridge turn_complete schedule turn log h e =
      subst (λ (k : Handled D). Grows log k.log) (some_inj e)
        (Grows-by log (marked (suc turn) ∷ observed (on_turn_complete (suc turn)) ∷ []) refl)
  dispatch-Grows bridge interrupted schedule turn log h e =
      subst (λ (k : Handled D). Grows log k.log) (some_inj e)
        (Grows-by log (cleared ∷ observed on_interrupted ∷ []) refl)
  dispatch-Grows bridge (tool_calls calls) schedule turn log h e =
      elim (Option-cases (dispatch_tool_calls env cap schedule calls log)) [
        | inl none_yet ↦ absurd (ground arith)
        | inr (log', done_) ↦
            subst (λ l. Grows log l) (ground arith) (tools-Grows schedule calls log log' done_)
      ]
