-- ===== src/FilterPipeline/Runs.antt =====
-- What a run of the chain returns.
use gopkg.Common.{
  ℕ, ◌≡◌, refl, sym, ap, ap₂, ◌∙◌, inl, inr, true, false, List, [], ◌∷◌, ◌++◌, Option, none, some,
  String, if◌then◌else◌, length, Result, ok, err, Result-cases, Bool-cases, append_assoc,
  append-nil, is_some, ◌==◌, All, ==_iff,
}
use gopkg.FilterPipeline.{
  Criticality, critical, enrichment, Filter, StepLog, Outcome, round, settle, run_from, run, subset,
  run_phase, failed_log, done_log,
}

-- A run that goes on after another one.
abbrev pub prepend {ℓ} : {T E : Type ℓ} → List (StepLog E) → Outcome T E → Outcome T E
prepend logs o = record o { logs = logs ++ o.logs }

-- The outcome of one run, and then of another unless the first failed.
abbrev pub followed_by {ℓ} : {T E : Type ℓ} → Outcome T E → Outcome T E → Outcome T E
followed_by o p = if is_some o.failure then o else prepend o.logs p

-- The counts of the logs: each step starts with as many items as the one before it left.
abbrev pub Chained {ℓ} : {E : Type ℓ} → ℕ → List (StepLog E) → ℕ → Type 0
Chained n [] m = n ≡ m
Chained n (l ∷ ls) m = (l.before_count ≡ n) × Chained l.after_count ls m

abbrev pub names {ℓ} : {E : Type ℓ} → List (StepLog E) → List String
names [] = []
names (l ∷ ls) = l.filter_name ∷ names ls

abbrev pub filter_names {ℓ} : {T M E : Type ℓ} → List (Filter T M E) → List String
filter_names [] = []
filter_names (f ∷ fs) = f.name ∷ filter_names fs

prepend_twice {ℓ} :
    {T E : Type ℓ} (xs ys : List (StepLog E)) (o : Outcome T E)
    → prepend (xs ++ ys) o ≡ prepend xs (prepend ys o)
prepend_twice xs ys o = simp append_assoc

prepend-followed_by {ℓ} :
    {T E : Type ℓ} (l : List (StepLog E)) (o p : Outcome T E)
    → prepend l (followed_by o p) ≡ followed_by (prepend l o) p
prepend-followed_by l o p = elim (Bool-cases (is_some o.failure)) [
  | inl e ↦ simp e
  | inr e ↦ simp (e, append_assoc)
]

followed_ok {ℓ} :
    {T E : Type ℓ} (o p : Outcome T E) → o.failure ≡ none → followed_by o p ≡ prepend o.logs p
followed_ok o p h = simp h

module _ {ℓ} {T M E : Type ℓ} where
  -- The logs so far are only ever added to.
  run_from-logs :
      (fs : List (Filter T M E)) (items : List T) (meta : M) (logs : List (StepLog E))
      → run_from fs items meta logs ≡ prepend logs (run_from fs items meta [])
  unfolding run_from
  run_from-logs [] items meta logs = simp append-nil
  run_from-logs (f ∷ fs) items meta logs = elim (Result-cases (round f items meta).1) [
    | inl (result, e) ↦
        let l = (round f items meta).0 ∷ [] in
        rw (e, run_from)
          (run_from-logs fs result meta (logs ++ l)
            ∙ prepend_twice logs l (run_from fs result meta [])
            ∙ ap (prepend logs) (sym (run_from-logs fs result meta l)))
    | inr (x, e) ↦ rw (e, run_from) refl
  ]

  -- One step and the rest.
  run_ok :
      (f : Filter T M E) (fs : List (Filter T M E)) (items : List T) (meta : M) (result : List T)
      → (round f items meta).1 ≡ ok result
      → run (f ∷ fs) items meta ≡ prepend ((round f items meta).0 ∷ []) (run fs result meta)
  unfolding run
  run_ok f fs items meta result e =
      rw (e, run_from) (run_from-logs fs result meta ((round f items meta).0 ∷ []))

  run_err :
      (f : Filter T M E) (fs : List (Filter T M E)) (items : List T) (meta : M) (x : String × E)
      → (round f items meta).1 ≡ err x
      → run (f ∷ fs) items meta
        ≡ record { items = []; logs = (round f items meta).0 ∷ []; failure = some x }
  unfolding run
  run_err f fs items meta x e = rw (e, run_from) refl

  run-nil :
      (gs : List (Filter T M E)) (items : List T) (meta : M)
      → run gs items meta
        ≡ followed_by
            (run {M = M} {E = E} [] items meta)
            (run gs (run {M = M} {E = E} [] items meta).items meta)
  unfolding run
  run-nil gs items meta = refl

  -- Running a chain is running its first part and then, unless a critical filter of that part failed,
  -- its second part on what the first left; the logs stand one after the other.
  pub run-append :
      (fs gs : List (Filter T M E)) (items : List T) (meta : M)
      → run (fs ++ gs) items meta
        ≡ followed_by (run fs items meta) (run gs (run fs items meta).items meta)
  run-append [] gs items meta = run-nil gs items meta
  run-append (f ∷ fs) gs items meta = elim (Result-cases (round f items meta).1) [
    | inl (result, e) ↦
        rw (run_ok f (fs ++ gs) items meta result e, run_ok f fs items meta result e)
          (rw (run-append fs gs result meta) (
            prepend-followed_by ((round f items meta).0 ∷ []) (run fs result meta)
              (run gs (run fs result meta).items meta)))
    | inr (x, e) ↦ rw (run_err f (fs ++ gs) items meta x e, run_err f fs items meta x e) refl
  ]

  settle_counts :
      (f : Filter T M E) (c : Criticality) (items : List T) (r : Result E (List T) × ℕ)
      (result : List T)
      → (settle f c items r).1 ≡ ok result
      → let l = (settle f c items r).0 in
        (l.before_count ≡ length items) × (l.after_count ≡ length result) × (l.filter_name ≡ f.name)
  unfolding failed_log done_log
  settle_counts f critical items (ok r, ms) result e = (refl, ap length (cc), refl)
  settle_counts f critical items (err x, ms) result e = cc
  settle_counts f enrichment items (ok r, ms) result e = (refl, ap length (cc), refl)
  settle_counts f enrichment items (err x, ms) result e = (refl, ap length (cc), refl)

  round_counts :
      (f : Filter T M E) (items result : List T) (meta : M)
      → (round f items meta).1 ≡ ok result
      → let l = (round f items meta).0 in
        (l.before_count ≡ length items) × (l.after_count ≡ length result) × (l.filter_name ≡ f.name)
  unfolding round
  round_counts f items result meta e =
      settle_counts f f.criticality items (f.apply items meta) result e

  run_empty :
      (items : List T) (meta : M)
      → run {T = T} {M = M} {E = E} [] items meta
        ≡ record { items = items; logs = []; failure = none }
  unfolding run
  run_empty items meta = refl

  -- A run that no critical filter aborted has one log for each filter, in their order, and the counts
  -- of the logs lead from the number of items that went in to the number that came out.
  pub run_accounts :
      (fs : List (Filter T M E)) (items : List T) (meta : M)
      → let o = run fs items meta in
        o.failure ≡ none
        → (names o.logs ≡ filter_names fs) × Chained (length items) o.logs (length o.items)
  run_accounts [] items meta h = (rw run_empty, rw run_empty)
  run_accounts (f ∷ fs) items meta h = elim (Result-cases (round f items meta).1) [
    | inl (result, e) ↦
        let (b, a, n) = round_counts f items result meta e in
        let step = run_ok f fs items meta result e in
        let (same, chain) = run_accounts fs result meta (rw step at h) in
        rw step (ap₂ ◌∷◌ n same, (b, rw a chain))
    | inr (x, e) ↦
        let bad : ◌≡◌ {A = Option (String × E)} (some x) none =
          rw (run_err f fs items meta x e) at h in
        cc
  ]

  round_err :
      (f : Filter T M E) (c : Criticality) (items : List T) (meta : M) (x : E) (ms : ℕ)
      → f.criticality ≡ c
      → f.apply items meta ≡ (err x, ms)
      → round f items meta ≡ settle f c items (err x, ms)
  unfolding round
  round_err f c items meta x ms e a = ap₂ (λ k r. settle f k items r) e a

  -- A critical filter that fails on what the filters before it left stops the run: the items are nil,
  -- the error is its name and error, and the last log is its own, with nothing skipped or removed.
  -- The filters behind it leave no trace.
  pub critical_aborts :
      (fs gs : List (Filter T M E)) (f : Filter T M E) (items : List T) (meta : M) (x : E) (ms : ℕ)
      → let o = run fs items meta in
        o.failure ≡ none
        → f.criticality ≡ critical
        → f.apply o.items meta ≡ (err x, ms)
        → run (fs ++ f ∷ gs) items meta ≡ record {
          items = [];
          logs = o.logs ++ failed_log f (length o.items) ms x false ∷ [];
          failure = some (f.name, x);
        }
  critical_aborts fs gs f items meta x ms h c a =
      let o = run fs items meta in
      let r = round_err f critical o.items meta x ms c a in
      run-append fs (f ∷ gs) items meta
      ∙ followed_ok o (run (f ∷ gs) o.items meta) h
      ∙ ap (prepend o.logs) (
          run_err f gs o.items meta (f.name, x) (ap (λ p. p.1) r)
          ∙ ap (λ (l : StepLog E). record { items = []; logs = l ∷ []; failure = some (f.name, x) })
              (ap (λ p. p.0) r))

  -- An enrichment filter that fails on what the filters before it left is skipped: the run returns
  -- what it returns without that filter, but for one more log, which says so.
  pub enrichment_skips :
      (fs gs : List (Filter T M E)) (f : Filter T M E) (items : List T) (meta : M) (x : E) (ms : ℕ)
      → let o = run fs items meta in
        let rest = run gs o.items meta in
        o.failure ≡ none
        → f.criticality ≡ enrichment
        → f.apply o.items meta ≡ (err x, ms)
        → (run (fs ++ f ∷ gs) items meta
            ≡ record rest { logs = o.logs ++ failed_log f (length o.items) ms x true ∷ rest.logs })
          × (run (fs ++ gs) items meta ≡ record rest { logs = o.logs ++ rest.logs })
  enrichment_skips fs gs f items meta x ms h c a =
      let o = run fs items meta in
      let r = round_err f enrichment o.items meta x ms c a in
      (
        run-append fs (f ∷ gs) items meta
            ∙ followed_ok o (run (f ∷ gs) o.items meta) h
            ∙ ap (prepend o.logs) (
                run_ok f gs o.items meta o.items (ap (λ p. p.1) r)
                ∙ ap (λ (l : StepLog E). prepend (l ∷ []) (run gs o.items meta)) (ap (λ p. p.0) r)),
        run-append fs gs items meta ∙ followed_ok o (run gs o.items meta) h,
      )

  subset-All : (phase : ℕ) (fs : List (Filter T M E)) → All (λ f. f.phase ≡ phase) (subset phase fs)
  unfolding subset
  subset-All phase [] = tt
  subset-All phase (f ∷ fs) = elim (Bool-cases (f.phase == phase)) [
    | inl e ↦ rw e ((==_iff f.phase phase).0 e, subset-All phase fs)
    | inr e ↦ rw e (subset-All phase fs)
  ]

  subset-append :
      (phase : ℕ) (fs gs : List (Filter T M E))
      → subset phase (fs ++ gs) ≡ subset phase fs ++ subset phase gs
  unfolding subset
  subset-append phase [] gs = refl
  subset-append phase (f ∷ fs) gs = elim (Bool-cases (f.phase == phase)) [
    | inl e ↦ rw e (ap (◌∷◌ f) (subset-append phase fs gs))
    | inr e ↦ rw e (subset-append phase fs gs)
  ]

  settle-phase :
      (f : Filter T M E) (c : Criticality) (items : List T) (r : Result E (List T) × ℕ)
      → (settle f c items r).0.phase ≡ f.phase
  unfolding failed_log done_log
  settle-phase f critical items (ok r, ms) = refl
  settle-phase f critical items (err x, ms) = refl
  settle-phase f enrichment items (ok r, ms) = refl
  settle-phase f enrichment items (err x, ms) = refl

  logs-phase :
      (phase : ℕ) (fs : List (Filter T M E)) (items : List T) (meta : M)
      → All (λ f. f.phase ≡ phase) fs
      → All (λ l. l.phase ≡ phase) (run fs items meta).logs
  unfolding round
  logs-phase phase [] items meta a = rw (run_empty items meta) tt
  logs-phase phase (f ∷ fs) items meta a =
      let head : (round f items meta).0.phase ≡ phase =
        settle-phase f f.criticality items (f.apply items meta) ∙ a.0 in
      elim (Result-cases (round f items meta).1) [
        | inl (result, e) ↦
            rw (run_ok f fs items meta result e) (head, logs-phase phase fs result meta a.1)
        | inr (x, e) ↦ rw (run_err f fs items meta x e) (head, tt)
      ]

  -- `RunPhase` runs filters of that phase only, so every log is of the phase; and for two chains put
  -- together it runs the phase of the second on what the phase of the first left, unless that failed.
  pub run_phase_lem :
      (phase : ℕ) (fs gs : List (Filter T M E)) (items : List T) (meta : M)
      → let o = run_phase fs phase items meta in
        All (λ l. l.phase ≡ phase) o.logs
        × (run_phase (fs ++ gs) phase items meta ≡ followed_by o (run_phase gs phase o.items meta))
  unfolding run_phase
  run_phase_lem phase fs gs items meta = (
    logs-phase phase (subset phase fs) items meta (subset-All phase fs),
    rw (subset-append phase fs gs) (run-append (subset phase fs) (subset phase gs) items meta),
  )
