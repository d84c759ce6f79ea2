-- ===== src/VoicePipeline/Batch/Order.antt =====
-- dispatchToolCalls: what holds of a batch whatever its schedule.
use gopkg.Common.{
  List-cases, ℕ, zero, suc, ◌+◌, ◌-◌, ◌*◌, ◌≤◌, ◌<◌, ◌≡◌, ◌∙◌, refl, ap, arith, true, false, ◌&&◌,
  List, [], ◌∷◌, ◌++◌, ltb, ◌==◌, ==_iff, if◌then◌else◌, Bool-cases, Option-cases, inl, inr, length,
  get_elem?, get_elem?-set, length-set, none, some, is_some,
}
use gopkg.VoicePipeline.{
  ToolCall, ToolResult, Outcome, returned, panicked, tool_executor_panicked, Frame, Action, sent,
  Env,
}
use gopkg.VoicePipeline.Batch.{
  member, remove, zero_results, result_of, Filler, Batch, Move, start, finish, delay_over,
  filler_frame, filler_end, start_next, write_result, finish_call, pump, move_filler, move, moves,
  done, run_batch,
}

pub get_elem?_within {ℓ} :
    {A : Type ℓ} (xs : List A) (i : ℕ) → is_some (get_elem? xs i) ≡ ltb i (length xs)
get_elem?_within [] i = ground arith
get_elem?_within (x ∷ xs) zero = ground arith
get_elem?_within (x ∷ xs) (suc i) = ground (arith, get_elem?_within xs i)

member-remove :
    (i j : ℕ) (xs : List ℕ) → member j (remove i xs) ≡ (if i == j then false else member j xs)
unfolding remove
member-remove i j [] = ground arith
member-remove i j (x ∷ xs) = ground (arith, member-remove i j xs)

length-remove : (i : ℕ) (xs : List ℕ) → length (remove i xs) ≤ length xs
unfolding remove
length-remove i [] = omega arith
length-remove i (x ∷ xs) = ground (arith, length-remove i xs)

length-remove-member : (i : ℕ) (xs : List ℕ) → member i xs ≡ true → length (remove i xs) < length xs
unfolding remove
length-remove-member i [] h = ground arith
length-remove-member i (x ∷ xs) h = ground (arith, length-remove i xs, length-remove-member i xs)

module _ {D : Type 0} (env : Env D) (cap : ℕ) (calls : List (ToolCall D)) where
  -- A call that was started and no longer runs has its outcome at its place.
  pub record Inv (b : Batch D) : Type 0 where
    pub bounded : length b.running ≤ cap
    pub within : b.started ≤ length calls
    pub below : (i : ℕ) → member i b.running ≡ true → i < b.started
    pub sized : length b.results ≡ length calls
    pub answered :
        (i : ℕ) (call : ToolCall D)
        → get_elem? calls i ≡ some call
        → i < b.started
        → member i b.running ≡ false
        → (log : List (Action D)) × (get_elem? b.results i
            ≡ some (result_of call (env.execute log i call)))

  start-Inv : (b : Batch D) → Inv b → Inv (start_next env cap calls b)
  unfolding start_next
  start-Inv b v = elim (Bool-cases (ltb (length b.running) cap && ltb b.started (length calls))) [
    | inl go ↦ rw go (record {
      bounded = ground (arith, v.bounded);
      within = ground (arith, v.within);
      below = λ i m. ground (arith, v.below i);
      sized = v.sized;
      answered = λ i call at lt m. v.answered i call at (ground arith) (ground arith);
    })
    | inr stay ↦ rw stay v
  ]

  write-Inv :
      (i : ℕ) (call : ToolCall D) (b : Batch D)
      → get_elem? calls i ≡ some call
      → Inv b
      → Inv (write_result env cap calls i call b)
  unfolding write_result
  write-Inv i call b at v = record {
    bounded = omega (arith, v.bounded, length-remove i b.running);
    within = v.within;
    below = λ j m. ground (arith, v.below j, member-remove i j b.running);
    sized = length-set b.results i (result_of call (env.execute b.log i call)) ∙ v.sized;
    answered = λ j other at_j lt m. elim (Bool-cases (i == j)) [
      | inl same ↦ (
        b.log,
        ground (
          arith,
          get_elem?-set b.results i j (result_of call (env.execute b.log i call)),
          get_elem?_within b.results j,
          get_elem?_within calls j,
          ==_iff i j,
          v.sized,
        ),
      )
      | inr other_place ↦
          let (log, e) = v.answered j other at_j lt (ground (arith, member-remove i j b.running)) in
          (
            log,
            ground (arith, get_elem?-set b.results i j (result_of call (env.execute b.log i call))),
          )
    ];
  }

  finish-Inv : (i : ℕ) (b : Batch D) → Inv b → Inv (finish_call env cap calls i b)
  unfolding finish_call
  finish-Inv i b v = elim (Option-cases (get_elem? calls i)) [
    | inl e ↦ rw (e, finish_call) v
    | inr (call, e) ↦ elim (Bool-cases (member i b.running)) [
      | inl m ↦ rw (e, finish_call, m) (write-Inv i call b e v)
      | inr m ↦ rw (e, finish_call, m) v
    ]
  ]

  -- The filler and its frames are no part of the results.
  filler-Inv :
      (b : Batch D) (f : Filler) (log : List (Action D))
      → Inv b
      → Inv (record b { filler = f; log = log })
  filler-Inv b f log v = record {
    bounded = v.bounded;
    within = v.within;
    below = v.below;
    sized = v.sized;
    answered = v.answered;
  }

  pump-Inv : (f : Frame) (b : Batch D) → Inv b → Inv (pump env cap calls f b)
  unfolding pump
  pump-Inv f b v = elim (Option-cases (env.send b.log f)) [
    | inl e ↦ rw (e, pump) (filler-Inv b b.filler (b.log ++ sent f ∷ []) v)
    | inr (x, e) ↦ rw (e, pump) (filler-Inv b Filler.stopped (b.log ++ sent f ∷ []) v)
  ]

  move_filler-Inv :
      (m : Move) (f : Filler) (b : Batch D) → Inv b → Inv (move_filler env cap calls m f b)
  unfolding move_filler
  move_filler-Inv delay_over Filler.waiting b v = filler-Inv b Filler.pumping b.log v
  move_filler-Inv (filler_frame f) Filler.pumping b v = pump-Inv f b v
  move_filler-Inv filler_end Filler.pumping b v = filler-Inv b Filler.stopped b.log v
  move_filler-Inv start f b v = v
  move_filler-Inv (finish i) f b v = v
  move_filler-Inv delay_over Filler.pumping b v = v
  move_filler-Inv delay_over Filler.stopped b v = v
  move_filler-Inv (filler_frame f) Filler.waiting b v = v
  move_filler-Inv (filler_frame f) Filler.stopped b v = v
  move_filler-Inv filler_end Filler.waiting b v = v
  move_filler-Inv filler_end Filler.stopped b v = v

  move-Inv : (m : Move) (b : Batch D) → Inv b → Inv (move env cap calls m b)
  unfolding move
  move-Inv start b v = start-Inv b v
  move-Inv (finish i) b v = finish-Inv i b v
  move-Inv delay_over b v = move_filler-Inv delay_over b.filler b v
  move-Inv (filler_frame f) b v = move_filler-Inv (filler_frame f) b.filler b v
  move-Inv filler_end b v = move_filler-Inv filler_end b.filler b v

  moves-Inv : (ms : List Move) (b : Batch D) → Inv b → Inv (moves env cap calls ms b)
  unfolding moves
  moves-Inv [] b v = v
  moves-Inv (m ∷ ms) b v = moves-Inv ms (move env cap calls m b) (move-Inv m b v)

  length-zero_results : (cs : List (ToolCall D)) → length (zero_results cs) ≡ length cs
  unfolding zero_results
  length-zero_results [] = refl
  length-zero_results (c ∷ cs) = ap suc (length-zero_results cs)

  -- Whatever the schedule of a batch, at most as many tool calls run at a time as the pipeline allows,
  -- no more are started than there are, and a call that was started and no longer runs has its
  -- outcome, under its identifier, at its own place of the results.
  pub run_batch-Inv :
      (schedule : List Move) (log : List (Action D)) → Inv (run_batch env cap calls schedule log)
  unfolding run_batch
  run_batch-Inv schedule log =
      moves-Inv schedule
        (record {
          started = 0;
          running = [];
          results = zero_results calls;
          filler = Filler.waiting;
          log = log;
        })
        (record {
          bounded = omega arith;
          within = omega arith;
          below = λ i m. ground arith;
          sized = length-zero_results calls;
          answered = λ i call at lt m. absurd (omega arith);
        })

  done_started : (b : Batch D) → done env cap calls b ≡ true → b.started ≡ length calls
  unfolding done
  done_started b d = elim (List-cases b.running) [
    | inl e ↦ ground (arith, e, ==_iff b.started (length calls))
    | inr (i, rest, e) ↦ ground (arith, e)
  ]

  done_idle : (b : Batch D) (i : ℕ) → done env cap calls b ≡ true → member i b.running ≡ false
  unfolding done
  done_idle b i d = elim (List-cases b.running) [
    | inl e ↦ rw e refl
    | inr (j, rest, e) ↦ ground (arith, e)
  ]

  -- The result of a call: its identifier, with the data and the error that the executor returned, or
  -- with no data and the panic that it raised.
  unfoldable pub Answers : ToolCall D → Outcome D → ToolResult D → Type 0
  Answers call (returned data_ e) r = (r.call_id ≡ call.id) × (r.result ≡ data_) × (r.err ≡ e)
  Answers call (panicked x) r =
      (r.call_id ≡ call.id) × (r.result ≡ none) × (r.err ≡ some (tool_executor_panicked x))

  result_of-Answers : (call : ToolCall D) (o : Outcome D) → Answers call o (result_of call o)
  unfolding Answers result_of
  result_of-Answers call (returned data_ e) = (refl, refl, refl)
  result_of-Answers call (panicked x) = (refl, refl, refl)

  -- When a batch is done, whatever its schedule was, there are as many results as calls, and the one at
  -- the place of a call has that call's identifier and what the executor gave for it: its data and its
  -- error, or, where it panicked, no data and the panic as the error.
  pub done-Answers :
      (schedule : List Move) (log : List (Action D)) (i : ℕ) (call : ToolCall D)
      → done env cap calls (run_batch env cap calls schedule log) ≡ true
      → get_elem? calls i ≡ some call
      → (length (run_batch env cap calls schedule log).results ≡ length calls)
        × ((before : List (Action D)) × (r : ToolResult D) × (get_elem?
                (run_batch env cap calls schedule log).results
                i
              ≡ some r)
            × Answers call (env.execute before i call) r)
  done-Answers schedule log i call d at =
      let v = run_batch-Inv schedule log in
      let b = run_batch env cap calls schedule log in
      let (before, found) =
        v.answered i call at (ground (arith, done_started b, get_elem?_within calls i, d, at))
          (ground (arith, done_idle b i, d)) in
      let o = env.execute before i call in
      (v.sized, (before, result_of call o, found, result_of-Answers call o))

  -- The steps that are left.
  todo : Batch D → ℕ
  todo b = 2 * (length calls - b.started) + length b.running

  progress :
      (b : Batch D)
      → 0 < cap
      → Inv b
      → done env cap calls b ≡ false
      → (m : Move) × (todo (move env cap calls m b) < todo b)
  unfolding todo move start_next finish_call write_result done
  progress b some_cap v d = elim (List-cases b.running) [
    | inl e ↦ (start, ground (arith, e, v.within, v.bounded, ==_iff b.started (length calls)))
    | inr (i, rest, e) ↦ (
      finish i,
      ground (
        arith,
        e,
        v.within,
        v.below i,
        ==_iff i i,
        get_elem?_within calls i,
        length-remove-member i b.running,
      ),
    )
  ]

  finishes :
      (n : ℕ) (b : Batch D)
      → 0 < cap
      → Inv b
      → todo b ≤ n
      → (ms : List Move) × (done env cap calls (moves env cap calls ms b) ≡ true)
  unfolding moves
  finishes zero b some_cap v h = elim (Bool-cases (done env cap calls b)) [
    | inl d ↦ ([], d)
    | inr d ↦ let (m, less) = progress b some_cap v d in absurd (omega arith)
  ]
  finishes (suc n) b some_cap v h = elim (Bool-cases (done env cap calls b)) [
    | inl d ↦ ([], d)
    | inr d ↦
        let (m, less) = progress b some_cap v d in
        let (ms, e) = finishes n (move env cap calls m b) some_cap (move-Inv m b v) (omega arith) in
        (m ∷ ms, e)
  ]

  -- No schedule blocks a batch: however its goroutines have gone on so far, they can still all finish.
  pub run_batch_can_finish :
      (schedule : List Move) (log : List (Action D))
      → 0 < cap
      → (rest : List Move) × (done env cap calls
            (moves env cap calls rest (run_batch env cap calls schedule log))
          ≡ true)
  run_batch_can_finish schedule log some_cap =
      let b = run_batch env cap calls schedule log in
      finishes (todo b) b some_cap (run_batch-Inv schedule log) (omega arith)
