-- ===== src/BotManager/Supervision/Steps.antt =====
-- communication/telegram/bot/core/manager.go: every section keeps the invariant of the supervisor.
pub mod Runs
use gopkg.Common.{
  ℕ, zero, suc, ◌+◌, ◌*◌, ◌≤◌, ◌<◌, ◌≡◌, ◌∙◌, refl, sym, ap, subst, arith, ◌⊎◌, inl, inr, Bool,
  true, false, List, [], ◌∷◌, ◌++◌, Option, none, some, Option-cases, Bool-cases, String, str_eq,
  string_comparable, if◌then◌else◌, ltb, leb, is_some, set, get_elem?, All, set-All, append-All,
  elem-All,
}
use gopkg.Common.Assoc.{lookup, insert, delete, lookup-insert, lookup-delete}
use gopkg.BotManager.{
  Status, starting, degraded, healthy, down, BotHealth, PartnerBotConfig, PartnerBot, BotManager,
  Thread, creating, serving, returned, tracked, marking, finished, crashed, Loader, idle, syncing,
  System, new_bot_manager, stop_old, launch, sync_bot, mark_down, is_active, remove_bot,
  remove_bots, stop_bots, stop, partner_of, contains_slash, ready_bot, handle_webhook,
}
use gopkg.BotManager.Moves.{
  put, next_backoff, fail, after_failure, set_health, start_failed, bot_of, enter, serve,
  start_succeeded, look_tracked, look_token, mark_ready, Answer, created_bot, no_bot, move_thread,
  fetch, load_next, Move, fetched, loads, moves, stops, move_at, step, run,
}
use gopkg.BotManager.Supervision.{
  Counted, Owned, Kept, Supervised, Sound, Inv, Grows, insert-Grows, insert-Owned, delete-Owned,
  insert-Kept, all-Sound, mark_down-Kept, mark_down-Grows,
}

-- The invariant reads the bots, the health and the goroutines only.
pub put-Inv : (i : ℕ) (t : Thread) (s : System) → Sound s.manager.health t → Inv s → Inv (put i t s)
unfolding put
put-Inv i t s p v = record {
  owned = v.owned;
  kept = v.kept;
  sound = set-All (Sound s.manager.health) s.threads i t p v.sound;
}

pub set_health-Inv :
    (id : String) (h : BotHealth) (s : System)
    → h.partner_id ≡ id
    → Counted h.status h.failures
    → Inv s
    → Inv (set_health id h s)
unfolding set_health
set_health-Inv id h s own n v = record {
  owned = v.owned;
  kept = insert-Kept id h s.manager.health own n v.kept;
  sound =
      all-Sound s.manager.health (insert id h s.manager.health) s.threads
        (insert-Grows id h s.manager.health) v.sound;
}

launch-Inv : (now : ℕ) (cfg : PartnerBotConfig) (s : System) → Inv s → Inv (launch now cfg s)
unfolding launch Supervised
launch-Inv now cfg s v =
    let h : BotHealth = record {
      status = starting;
      last_start = now;
      failures = 0;
      partner_id = cfg.partner_id;
      partner_code = cfg.partner_code;
    } in
    let m = insert cfg.partner_id h s.manager.health in
    record {
      owned = v.owned;
      kept = insert-Kept cfg.partner_id h s.manager.health refl refl v.kept;
      sound =
          append-All (Sound m) s.threads (creating cfg 1 ∷ [])
            (all-Sound s.manager.health m s.threads (insert-Grows cfg.partner_id h s.manager.health)
              v.sound)
            (
              (
                ground (
                  arith,
                  lookup-insert cfg.partner_id cfg.partner_id h s.manager.health,
                  string_comparable.beq_iff cfg.partner_id cfg.partner_id,
                ),
                ground arith,
              ),
              tt,
            );
    }

stop_old-Inv : (cfg : PartnerBotConfig) (s : System) → Inv s → Inv (stop_old cfg s)
unfolding stop_old
stop_old-Inv cfg s v = elim (Option-cases (lookup cfg.partner_id s.manager.bots)) [
  | inl e ↦ rw (e, stop_old) v
  | inr (old, e) ↦ rw (e, stop_old) (record { owned = v.owned; kept = v.kept; sound = v.sound })
]

pub sync_bot-Inv :
    (now : ℕ) (cfg : PartnerBotConfig) (s : System) → Inv s → Inv (sync_bot now cfg s)
unfolding sync_bot
sync_bot-Inv now cfg s v = elim (Option-cases (lookup cfg.partner_id s.manager.tokens)) [
  | inl e ↦ rw (e, sync_bot) (launch-Inv now cfg s v)
  | inr (token, e) ↦ elim (Bool-cases (str_eq token cfg.bot_token)) [
    | inl same ↦ rw (e, sync_bot, same) v
    | inr other ↦
        rw (e, sync_bot, other) (launch-Inv now cfg (stop_old cfg s) (stop_old-Inv cfg s v))
  ]
]

remove_bot-Inv : (id : String) (b : PartnerBot) (s : System) → Inv s → Inv (remove_bot id b s)
unfolding remove_bot
remove_bot-Inv id b s v = record {
  owned = delete-Owned id s.manager.bots v.owned;
  kept = mark_down-Kept id s.manager.health v.kept;
  sound =
      all-Sound s.manager.health (mark_down id s.manager.health) s.threads
        (mark_down-Grows id s.manager.health) v.sound;
}

pub remove_bots-Inv :
    (active : List PartnerBotConfig) (bots : List (String × PartnerBot)) (s : System)
    → Inv s
    → Inv (remove_bots active bots s)
unfolding remove_bots
remove_bots-Inv active [] s v = v
remove_bots-Inv active ((id, b) ∷ rest) s v = elim (Bool-cases (is_active id active)) [
  | inl still ↦ rw still (remove_bots-Inv active rest s v)
  | inr gone ↦ rw gone (remove_bots-Inv active rest (remove_bot id b s) (remove_bot-Inv id b s v))
]

pub stop_bots-Inv :
    (bots : List (String × PartnerBot)) (s : System) → Inv s → Inv (stop_bots bots s)
unfolding stop_bots
stop_bots-Inv [] s v = v
stop_bots-Inv ((id, b) ∷ rest) s v =
    stop_bots-Inv rest _
      (record { owned = delete-Owned id s.manager.bots v.owned; kept = v.kept; sound = v.sound })

pub fail-Counted :
    (h : BotHealth)
    → ((fail h).partner_id ≡ h.partner_id) × Counted (fail h).status (fail h).failures
unfolding fail
fail-Counted h = elim (Bool-cases (leb 10 (suc h.failures))) [
  | inl last ↦ rw last (refl, tt)
  | inr more ↦ rw more (refl, (ground (arith, more), ground (arith, more)))
]

pub after_failure-Sound :
    (m : List (String × BotHealth)) (cfg : PartnerBotConfig) (backoff : ℕ) (h : BotHealth)
    → Supervised m cfg backoff
    → Sound m (after_failure cfg backoff h)
unfolding after_failure next_backoff Supervised
after_failure-Sound m cfg backoff h (p, q) = elim (Bool-cases (leb 10 (suc h.failures))) [
  | inl last ↦ rw last tt
  | inr more ↦ rw more (p, ground arith)
]
