-- ===== src/VoicePipeline/Recording.antt =====
-- voice/pipeline/pipeline.go, recordEnd: what is on record about the end of a session while its
-- goroutines run.
use gopkg.Common.{
  ℕ, ◌≡◌, ◌∙◌, ◌⊎◌, inl, inr, refl, sym, ap, subst, arith, true, false, List, [], ◌∷◌, ◌++◌, Option,
  none, some, is_some, Option-cases,
}
use gopkg.VoicePipeline.{
  Error, EndReason, transport_closed, llm_closed, context_done, fatal_error, on_error, Action,
  observed,
}
use gopkg.VoicePipeline.Dispatch.Grows.{ends, ends-append, Grows, Grows-refl, Grows-by, some_inj}
use gopkg.VoicePipeline.Session.{Running, end_of, record_end, record_fatal, stop_audio, stop_events}

module _ {D : Type 0} where
  -- OnError was called with this error.
  unfoldable pub Reported : Error → List (Action D) → Type 0
  Reported e [] = ⊥
  Reported e (a ∷ l) = (a ≡ observed (on_error e)) ⊎ Reported e l

  pub Reported-append :
      (e : Error) (xs ys : List (Action D)) → Reported e xs → Reported e (xs ++ ys)
  unfolding Reported
  Reported-append e [] ys r = absurd r
  Reported-append e (x ∷ xs) ys (inl here) = inl here
  Reported-append e (x ∷ xs) ys (inr later) = inr (Reported-append e xs ys later)

  pub Reported-snoc :
      (e : Error) (xs : List (Action D)) → Reported e (xs ++ observed (on_error e) ∷ [])
  unfolding Reported
  Reported-snoc e [] = inl refl
  Reported-snoc e (x ∷ xs) = inr (Reported-snoc e xs)

  -- What Run returns for each reason of the end: nothing when a side hung up, the context's error when
  -- it was done, and otherwise the error that the observer was told of.
  unfoldable pub Justified : EndReason → Option Error → List (Action D) → Type 0
  Justified transport_closed e log = e ≡ none
  Justified llm_closed e log = e ≡ none
  Justified context_done e log = (x : Error) × (e ≡ some x)
  Justified fatal_error e log = (x : Error) × (e ≡ some x) × Reported x log

  pub Justified-append :
      (reason : EndReason) (e : Option Error) (log more : List (Action D))
      → Justified reason e log
      → Justified reason e (log ++ more)
  unfolding Justified
  Justified-append transport_closed e log more j = j
  Justified-append llm_closed e log more j = j
  Justified-append context_done e log more j = j
  Justified-append fatal_error e log more (x, h, r) = (x, h, Reported-append x log more r)

  -- The first terminal event is on record once a goroutine has returned.
  pub record Inv (s : Running D) : Type 0 where
    pub silent : ends s.log ≡ 0
    pub audio_recorded : s.audio_alive ≡ false → is_some s.ended ≡ true
    pub events_recorded : s.events_alive ≡ false → is_some s.ended ≡ true
    pub justified :
        (reason : EndReason) (e : Option Error)
        → s.ended ≡ some (reason, e)
        → Justified reason e s.log

  Grows-ends : (log log' : List (Action D)) → Grows log log' → ends log ≡ 0 → ends log' ≡ 0
  Grows-ends log log' g h = ap ends g.appended ∙ omega (arith, ends-append log g.more, g.silent)

  pub log-Inv :
      (s : Running D) (log : List (Action D)) (turn : ℕ)
      → Grows s.log log
      → Inv s
      → Inv (record s { log = log; turn = turn })
  log-Inv s log turn g v = record {
    silent = Grows-ends s.log log g v.silent;
    audio_recorded = v.audio_recorded;
    events_recorded = v.events_recorded;
    justified = λ reason e h.
        subst (λ l. Justified reason e l) (sym g.appended)
          (Justified-append reason e s.log g.more (v.justified reason e h));
  }

  pub ctx-Inv : (s : Running D) (c : Option Error) → Inv s → Inv (record s { ctx_err = c })
  ctx-Inv s c v = record {
    silent = v.silent;
    audio_recorded = v.audio_recorded;
    events_recorded = v.events_recorded;
    justified = v.justified;
  }

  pub recorded :
      (reason : EndReason) (e : Option Error) (s : Running D)
      → is_some (record_end reason e s).ended ≡ true
  unfolding record_end
  recorded reason e s = ground arith

  pub record_end_kept :
      (reason : EndReason) (e : Option Error) (s : Running D) (x : EndReason × Option Error)
      → s.ended ≡ some x
      → record_end reason e s ≡ s
  unfolding record_end
  record_end_kept reason e s x h = ground arith

  pub record_end_new :
      (reason : EndReason) (e : Option Error) (s : Running D)
      → s.ended ≡ none
      → record_end reason e s ≡ record s { ended = some (end_of reason e s.ctx_err) }
  unfolding record_end
  record_end_new reason e s h = ground arith

  end_of-Justified :
      (reason : EndReason) (e ctx : Option Error) (log : List (Action D))
      → Justified reason e log
      → Justified (end_of reason e ctx).0 (end_of reason e ctx).1 log
  unfolding end_of Justified
  end_of-Justified reason e none log j = j
  end_of-Justified reason e (some x) log j = (x, refl)

  -- Recording an end that the log justifies, or that is not the first.
  end-Inv :
      (reason : EndReason) (e : Option Error) (s : Running D) (log : List (Action D))
      → Grows s.log log
      → Justified reason e log
      → Inv s
      → Inv (record (record_end reason e s) { log = log })
  end-Inv reason e s log g j v = elim (Option-cases s.ended) [
    | inr (x, h) ↦ rw (record_end_kept reason e s x h) (log-Inv s log s.turn g v)
    | inl h ↦ rw (record_end_new reason e s h) (record {
      silent = Grows-ends s.log log g v.silent;
      audio_recorded = λ _. refl;
      events_recorded = λ _. refl;
      justified = λ r e' q.
          subst (λ (p : EndReason × Option Error). Justified p.0 p.1 log) (some_inj q)
            (end_of-Justified reason e s.ctx_err log j);
    })
  ]

  record_end_log :
      (reason : EndReason) (e : Option Error) (s : Running D) → (record_end reason e s).log ≡ s.log
  unfolding record_end
  record_end_log reason e s = ground arith

  -- A close on either side.
  pub close-Inv :
      (reason : EndReason) (s : Running D)
      → ((log : List (Action D)) → Justified reason none log)
      → Inv s
      → Inv (record_end reason none s)
  close-Inv reason s j v = elim (Option-cases s.ended) [
    | inr (x, h) ↦ rw (record_end_kept reason none s x h) v
    | inl h ↦
        subst (λ (t : Running D). Inv t) (ground (arith, record_end_new reason none s h))
          (end-Inv reason none s s.log (Grows-refl s.log) (j s.log) v)
  ]

  fatal-Inv : (e : Error) (s : Running D) → Inv s → Inv (record_fatal e s)
  unfolding record_fatal ends Justified
  fatal-Inv e s v =
      let log = s.log ++ observed (on_error e) ∷ [] in
      rw (record_end_log fatal_error (some e) s) (
        end-Inv fatal_error (some e) s log (Grows-by s.log (observed (on_error e) ∷ []) refl)
          (e, refl, Reported-snoc e s.log) v)

  pub stop_audio-Inv : (s : Running D) → is_some s.ended ≡ true → Inv s → Inv (stop_audio s)
  unfolding stop_audio
  stop_audio-Inv s h v = record {
    silent = v.silent;
    audio_recorded = λ _. h;
    events_recorded = v.events_recorded;
    justified = v.justified;
  }

  pub stop_events-Inv : (s : Running D) → is_some s.ended ≡ true → Inv s → Inv (stop_events s)
  unfolding stop_events
  stop_events-Inv s h v = record {
    silent = v.silent;
    audio_recorded = v.audio_recorded;
    events_recorded = λ _. h;
    justified = v.justified;
  }

  fatal_recorded : (e : Error) (s : Running D) → is_some (record_fatal e s).ended ≡ true
  unfolding record_fatal
  fatal_recorded e s = recorded fatal_error (some e) s

  pub fatal_audio-Inv : (e : Error) (s : Running D) → Inv s → Inv (stop_audio (record_fatal e s))
  fatal_audio-Inv e s v = stop_audio-Inv (record_fatal e s) (fatal_recorded e s) (fatal-Inv e s v)

  pub fatal_events-Inv : (e : Error) (s : Running D) → Inv s → Inv (stop_events (record_fatal e s))
  fatal_events-Inv e s v = stop_events-Inv (record_fatal e s) (fatal_recorded e s) (fatal-Inv e s v)
