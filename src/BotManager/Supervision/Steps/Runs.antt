-- ===== src/BotManager/Supervision/Steps/Runs.antt =====
-- communication/telegram/bot/core/manager.go: the invariant along every run, and what a webhook reaches.
use gopkg.Common.{
  ℕ, ◌≡◌, ◌∙◌, refl, arith, inl, inr, Bool, true, false, List, [], ◌∷◌, Option, none, some,
  Option-cases, String, string_comparable, if◌then◌else◌, set, get_elem?, set-All, append-All,
  elem-All,
}
use gopkg.Common.Assoc.{lookup, insert}
use gopkg.BotManager.{
  healthy, BotHealth, PartnerBotConfig, PartnerBot, BotManager, Thread, creating, serving, returned,
  tracked, marking, finished, crashed, Loader, idle, syncing, System, new_bot_manager, stop,
  partner_of, ready_bot, handle_webhook,
}
use gopkg.BotManager.Moves.{
  put, fail, after_failure, set_health, start_failed, bot_of, enter, serve, start_succeeded,
  look_tracked, look_token, mark_ready, Answer, created_bot, no_bot, move_thread, fetch, load_next,
  Move, fetched, loads, moves, stops, move_at, step, run,
}
use gopkg.BotManager.Supervision.{
  Owned, Kept, Supervised, Sound, Inv, Grows, insert-Grows, insert-Owned,
}
use gopkg.BotManager.Supervision.Steps.{
  put-Inv, sync_bot-Inv, remove_bots-Inv, stop_bots-Inv, set_health-Inv, fail-Counted,
  after_failure-Sound,
}

start_failed-Inv :
    (i : ℕ) (cfg : PartnerBotConfig) (backoff : ℕ) (s : System)
    → Supervised s.manager.health cfg backoff
    → Inv s
    → Inv (start_failed i cfg backoff s)
unfolding start_failed Supervised Grows Kept
start_failed-Inv i cfg backoff s (p, q) v =
    elim (Option-cases (lookup cfg.partner_id s.manager.health)) [
      | inl e ↦ absurd (ground (arith, e, p))
      | inr (h, e) ↦
          rw (e, start_failed)
            (put-Inv i (after_failure cfg backoff h) (set_health cfg.partner_id (fail h) s)
              (after_failure-Sound (insert cfg.partner_id (fail h) s.manager.health) cfg backoff h
                (insert-Grows cfg.partner_id (fail h) s.manager.health cfg.partner_id p, q))
              (set_health-Inv cfg.partner_id (fail h) s
                ((fail-Counted h).0 ∙ (v.kept cfg.partner_id h e).0) (fail-Counted h).1 v))
    ]

enter-Inv : (cfg : PartnerBotConfig) (s : System) → Inv s → Inv (enter cfg s)
unfolding enter bot_of
enter-Inv cfg s v = record {
  owned = insert-Owned cfg.partner_id (bot_of cfg s) s.manager.bots refl v.owned;
  kept = v.kept;
  sound = v.sound;
}

serve-Inv :
    (i : ℕ) (cfg : PartnerBotConfig) (backoff : ℕ) (bot : PartnerBot) (s : System)
    → Supervised s.manager.health cfg backoff
    → Inv s
    → Inv (serve i cfg backoff bot s)
unfolding serve put
serve-Inv i cfg backoff bot s p v = record {
  owned = v.owned;
  kept = v.kept;
  sound =
      append-All (Sound s.manager.health) (set s.threads i (serving cfg backoff bot))
        (marking cfg.partner_id ∷ [])
        (set-All (Sound s.manager.health) s.threads i (serving cfg backoff bot) p v.sound) (tt, tt);
}

start_succeeded-Inv :
    (i : ℕ) (cfg : PartnerBotConfig) (backoff : ℕ) (s : System)
    → Supervised s.manager.health cfg backoff
    → Inv s
    → Inv (start_succeeded i cfg backoff s)
unfolding start_succeeded Supervised set_health enter Grows Kept
start_succeeded-Inv i cfg backoff s (p, q) v =
    elim (Option-cases (lookup cfg.partner_id s.manager.health)) [
      | inl e ↦ absurd (ground (arith, e, p))
      | inr (h, e) ↦
          let h' : BotHealth = record h { status = healthy; failures = 0 } in
          rw (e, start_succeeded)
            (serve-Inv i cfg backoff (bot_of cfg s) (set_health cfg.partner_id h' (enter cfg s))
              (insert-Grows cfg.partner_id h' s.manager.health cfg.partner_id p, q)
              (set_health-Inv cfg.partner_id h' (enter cfg s) (v.kept cfg.partner_id h e).0 refl
                (enter-Inv cfg s v)))
    ]

look_tracked-Sound :
    (m : List (String × BotHealth)) (cfg : PartnerBotConfig) (backoff : ℕ) (b : BotManager)
    → Supervised m cfg backoff
    → Sound m (look_tracked cfg backoff b)
unfolding look_tracked
look_tracked-Sound m cfg backoff b p = elim (Option-cases (lookup cfg.partner_id b.tokens)) [
  | inl e ↦ rw (e, look_tracked) tt
  | inr (t, e) ↦ rw (e, look_tracked) p
]

either-Sound :
    (m : List (String × BotHealth)) (c : Bool) (t u : Thread)
    → Sound m t
    → Sound m u
    → Sound m (if c then t else u)
either-Sound m true t u p q = p
either-Sound m false t u p q = q

look_token-Sound :
    (m : List (String × BotHealth)) (cfg : PartnerBotConfig) (backoff : ℕ) (b : BotManager)
    → Supervised m cfg backoff
    → Sound m (look_token cfg backoff b)
unfolding look_token
look_token-Sound m cfg backoff b p = either-Sound m _ (creating cfg backoff) finished p tt

move_thread-Inv :
    (i : ℕ) (a : Answer) (t : Thread) (s : System)
    → Sound s.manager.health t
    → Inv s
    → Inv (move_thread i a t s)
unfolding move_thread mark_ready
move_thread-Inv i created_bot (creating cfg b) s p v = start_succeeded-Inv i cfg b s p v
move_thread-Inv i no_bot (creating cfg b) s p v = start_failed-Inv i cfg b s p v
move_thread-Inv i a (serving cfg b bot) s p v = put-Inv i (returned cfg b) s p v
move_thread-Inv i a (returned cfg b) s p v =
    put-Inv i (look_tracked cfg b s.manager) s
      (look_tracked-Sound s.manager.health cfg b s.manager p) v
move_thread-Inv i a (tracked cfg b) s p v =
    put-Inv i (look_token cfg b s.manager) s (look_token-Sound s.manager.health cfg b s.manager p) v
move_thread-Inv i a (marking id) s p v =
    put-Inv i finished _ tt (record { owned = v.owned; kept = v.kept; sound = v.sound })
move_thread-Inv i a finished s p v = v
move_thread-Inv i a crashed s p v = v

load_next-Inv : (now : ℕ) (l : Loader) (s : System) → Inv s → Inv (load_next now l s)
unfolding load_next
load_next-Inv now idle s v = v
load_next-Inv now (syncing [] active) s v =
    let w = remove_bots-Inv active s.manager.bots s v in
    record { owned = w.owned; kept = w.kept; sound = w.sound }
load_next-Inv now (syncing (cfg ∷ rest) active) s v =
    let w = sync_bot-Inv now cfg s v in record { owned = w.owned; kept = w.kept; sound = w.sound }

fetch-Inv :
    (r : Option (List PartnerBotConfig)) (l : Loader) (s : System) → Inv s → Inv (fetch r l s)
unfolding fetch
fetch-Inv (some cfgs) idle s v = record { owned = v.owned; kept = v.kept; sound = v.sound }
fetch-Inv (some cfgs) (syncing rest active) s v = v
fetch-Inv none l s v = v

move_at-Inv : (i : ℕ) (a : Answer) (s : System) → Inv s → Inv (move_at i a s)
unfolding move_at
move_at-Inv i a s v = elim (Option-cases (get_elem? s.threads i)) [
  | inl e ↦ rw (e, move_at) v
  | inr (t, e) ↦
      rw (e, move_at)
        (move_thread-Inv i a t s (elem-All (Sound s.manager.health) s.threads i t e v.sound) v)
]

step-Inv : (m : Move) (s : System) → Inv s → Inv (step m s)
unfolding step stop
step-Inv (fetched r) s v = fetch-Inv r s.loader s v
step-Inv (loads now) s v = load_next-Inv now s.loader s v
step-Inv (moves i a) s v = move_at-Inv i a s v
step-Inv stops s v = stop_bots-Inv s.manager.bots s v

kept_by_run : (ms : List Move) (s : System) → Inv s → Inv (run ms s)
unfolding run
kept_by_run [] s v = v
kept_by_run (m ∷ ms) s v = kept_by_run ms (step m s) (step-Inv m s v)

new-Inv : Inv new_bot_manager
unfolding new_bot_manager Owned Kept lookup
new-Inv = record { owned = λ id b h. cc; kept = λ id h e. absurd (ground (arith, e)); sound = tt }

-- Whatever the interleaving of reloads, goroutines and stops: every bot stands under its own partner,
-- every health entry belongs to its partner and its failures are fewer than 10 unless it is down (none
-- where it is starting or healthy), and no goroutine has dereferenced a missing health entry or waits
-- more than 30 seconds.
pub supervised-Inv : (ms : List Move) → Inv (run ms new_bot_manager)
supervised-Inv ms = kept_by_run ms new_bot_manager new-Inv

reached :
    (path : String) (m : BotManager) (b : PartnerBot)
    → handle_webhook path m ≡ some b
    → (lookup (partner_of path) m.bots ≡ some b) × (lookup (partner_of path) m.ready ≡ some true)
unfolding handle_webhook ready_bot
reached path m b h = elim (Option-cases (lookup (partner_of path) m.ready)) [
  | inl e ↦ absurd (ground (arith, h, e))
  | inr (is_ready, e) ↦ (ground (arith, h, e), ground (arith, h, e))
]

-- A webhook request that reaches a bot at all reaches the bot that was created for the partner that its
-- path names, one that is marked ready, whatever moves came before.
pub webhook_reaches_own :
    (ms : List Move) (path : String) (b : PartnerBot)
    → handle_webhook path (run ms new_bot_manager).manager ≡ some b
    → (b.partner_id ≡ partner_of path)
      × (lookup (partner_of path) (run ms new_bot_manager).manager.ready ≡ some true)
unfolding Owned
webhook_reaches_own ms path b h =
    let (at, is_ready) = reached path (run ms new_bot_manager).manager b h in
    ((supervised-Inv ms).owned (partner_of path) b at, is_ready)
