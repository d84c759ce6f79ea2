-- ===== src/BotManager/Stopping.antt =====
-- communication/telegram/bot/core/manager.go: what becomes of the goroutines when Stop has stopped and
-- forgotten the bots.
use gopkg.Common.{
  ℕ, zero, suc, ◌≡◌, ◌∙◌, refl, ap, arith, inl, inr, true, List, [], ◌∷◌, none, some, Option-cases,
  String, string_comparable, if◌then◌else◌, is_some, set, get_elem?, elem-All,
}
use gopkg.Common.Assoc.{lookup, delete, lookup-insert, lookup-delete}
use gopkg.BotManager.{
  PartnerBotConfig, PartnerBot, BotManager, Thread, creating, serving, returned, tracked, System,
  new_bot_manager, stop_bots, stop,
}
use gopkg.BotManager.Moves.{
  put, set_health, bot_of, enter, serve, start_succeeded, look_tracked, look_token, Answer,
  created_bot, move_thread, Move, moves, move_at, step, run,
}
use gopkg.BotManager.Supervision.{Supervised, Sound}
use gopkg.BotManager.Supervision.Steps.Runs.{supervised-Inv}

-- Stop touches the bots, the ready marks and the list of the stopped.
record Untouched (s s' : System) : Type 0 where
  threads : s'.threads ≡ s.threads
  tokens : s'.manager.tokens ≡ s.manager.tokens
  health : s'.manager.health ≡ s.manager.health
  created : s'.created ≡ s.created

stop_bots-Untouched :
    (bots : List (String × PartnerBot)) (s : System) → Untouched s (stop_bots bots s)
unfolding stop_bots
stop_bots-Untouched [] s = record { threads = refl; tokens = refl; health = refl; created = refl }
stop_bots-Untouched ((id, b) ∷ rest) s =
    let u = stop_bots-Untouched rest (record s {
      manager = record s.manager {
        bots = delete id s.manager.bots;
        ready = delete id s.manager.ready;
      };
      stopped = b ∷ s.stopped;
    }) in
    record { threads = u.threads; tokens = u.tokens; health = u.health; created = u.created }

stop_bots_forgets :
    (bots : List (String × PartnerBot)) (s : System) (id : String)
    → lookup id (stop_bots bots s).manager.bots
      ≡ (if is_some (lookup id bots) then none else lookup id s.manager.bots)
unfolding stop_bots lookup
stop_bots_forgets [] s id = refl
stop_bots_forgets ((k, b) ∷ rest) s id = ground (
  arith,
  stop_bots_forgets rest
      (record s {
        manager = record s.manager {
          bots = delete k s.manager.bots;
          ready = delete k s.manager.ready;
        };
        stopped = b ∷ s.stopped;
      })
      id,
  lookup-delete k id s.manager.bots,
  string_comparable.beq_iff k id,
  string_comparable.beq_iff id k,
)

get_elem?-set_same {ℓ} :
    {A : Type ℓ} (xs : List A) (i : ℕ) (x y : A)
    → get_elem? xs i ≡ some x
    → get_elem? (set xs i y) i ≡ some y
get_elem?-set_same [] i x y h = absurd (cc)
get_elem?-set_same (z ∷ xs) zero x y h = refl
get_elem?-set_same (z ∷ xs) (suc i) x y h = get_elem?-set_same xs i x y h

move_of :
    (i : ℕ) (a : Answer) (t : Thread) (s : System)
    → get_elem? s.threads i ≡ some t
    → step (moves i a) s ≡ move_thread i a t s
unfolding step move_at
move_of i a t s h = rw (h, move_at) refl

entered :
    (i : ℕ) (cfg : PartnerBotConfig) (backoff : ℕ) (s : System)
    → is_some (lookup cfg.partner_id s.manager.health) ≡ true
    → lookup cfg.partner_id (start_succeeded i cfg backoff s).manager.bots ≡ some (bot_of cfg s)
unfolding start_succeeded serve put set_health enter
entered i cfg backoff s p = elim (Option-cases (lookup cfg.partner_id s.manager.health)) [
  | inl e ↦ absurd (ground (arith, e, p))
  | inr (h, e) ↦
      rw (e, start_succeeded)
        (ground (
          arith,
          lookup-insert cfg.partner_id cfg.partner_id (bot_of cfg s) s.manager.bots,
          string_comparable.beq_iff cfg.partner_id cfg.partner_id,
        ))
]

-- Four moves of one goroutine: Start returns, the two looks at the tokens, NewPartnerBot.
abbrev pub four_moves : ℕ → List Move
four_moves i =
    moves i created_bot ∷ moves i created_bot ∷ moves i created_bot ∷ moves i created_bot ∷ []

looks :
    (cfg : PartnerBotConfig) (backoff : ℕ) (m : BotManager)
    → lookup cfg.partner_id m.tokens ≡ some cfg.bot_token
    → (look_tracked cfg backoff m ≡ tracked cfg backoff)
      × (look_token cfg backoff m ≡ creating cfg backoff)
unfolding look_tracked look_token
looks cfg backoff m h = (
  rw (h, look_tracked) refl,
  ground (arith, h, string_comparable.beq_iff cfg.bot_token cfg.bot_token),
)

restart :
    (i : ℕ) (cfg : PartnerBotConfig) (backoff : ℕ) (bot : PartnerBot) (s : System)
    → get_elem? s.threads i ≡ some (serving cfg backoff bot)
    → lookup cfg.partner_id s.manager.tokens ≡ some cfg.bot_token
    → is_some (lookup cfg.partner_id s.manager.health) ≡ true
    → lookup cfg.partner_id (run (four_moves i) s).manager.bots ≡ some (bot_of cfg s)
unfolding run move_thread put bot_of
restart i cfg backoff bot s at token known =
    let s2 = put i (returned cfg backoff) s in
    let s3 = put i (tracked cfg backoff) s2 in
    let s4 = put i (creating cfg backoff) s3 in
    let at2 = get_elem?-set_same s.threads i (serving cfg backoff bot) (returned cfg backoff) at in
    let at3 = get_elem?-set_same s2.threads i (returned cfg backoff) (tracked cfg backoff) at2 in
    let at4 = get_elem?-set_same s3.threads i (tracked cfg backoff) (creating cfg backoff) at3 in
    rw
      (
        move_of i created_bot (serving cfg backoff bot) s at,
        move_of i created_bot (returned cfg backoff) s2 at2,
        (looks cfg backoff s2.manager token).0,
        move_of i created_bot (tracked cfg backoff) s3 at3,
        (looks cfg backoff s3.manager token).1,
        move_of i created_bot (creating cfg backoff) s4 at4,
      )
      (entered i cfg backoff s4 known)

supervised_while_serving :
    (ms : List Move) (i : ℕ) (cfg : PartnerBotConfig) (backoff : ℕ) (bot : PartnerBot)
    → get_elem? (run ms new_bot_manager).threads i ≡ some (serving cfg backoff bot)
    → is_some (lookup cfg.partner_id (run ms new_bot_manager).manager.health) ≡ true
unfolding Supervised
supervised_while_serving ms i cfg backoff bot at =
    let s = run ms new_bot_manager in
    (elem-All (Sound s.manager.health) s.threads i (serving cfg backoff bot) at
      (supervised-Inv ms).sound).0

-- In any state that the supervisor reaches, where a goroutine is inside its bot's Start and its token is
-- still the tracked one: Stop leaves the partner without a bot, but then four moves of that goroutine
-- (Start returns, two looks at the tokens, a new bot that is created) bring a new bot of the same partner
-- and token back, since Stop keeps the tokens.
pub stop_is_undone :
    (ms : List Move) (i : ℕ) (cfg : PartnerBotConfig) (backoff : ℕ) (bot : PartnerBot)
    → get_elem? (run ms new_bot_manager).threads i ≡ some (serving cfg backoff bot)
    → lookup cfg.partner_id (run ms new_bot_manager).manager.tokens ≡ some cfg.bot_token
    → (lookup cfg.partner_id (stop (run ms new_bot_manager)).manager.bots ≡ none)
      × (lookup cfg.partner_id (run (four_moves i) (stop (run ms new_bot_manager))).manager.bots
          ≡ some (bot_of cfg (run ms new_bot_manager)))
unfolding stop bot_of
stop_is_undone ms i cfg backoff bot at token =
    let s = run ms new_bot_manager in
    let u = stop_bots-Untouched s.manager.bots s in
    (
      ground (arith, stop_bots_forgets s.manager.bots s cfg.partner_id),
      restart i cfg backoff bot (stop s) (rw u.threads at) (rw u.tokens token)
            (rw u.health (supervised_while_serving ms i cfg backoff bot at))
          ∙ (ap
              (λ n.
                some
                  (record { serial = n; partner_id = cfg.partner_id; bot_token = cfg.bot_token }))
              u.created),
    )
