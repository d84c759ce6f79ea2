-- ===== src/BotManager/Moves.antt =====
-- communication/telegram/bot/core/manager.go: the sections of startBot and of the reload loop, and the
-- moves of the whole system. A move that is not possible where the system stands does nothing.
use gopkg.Common.{
  ℕ, suc, ◌*◌, true, false, List, [], ◌∷◌, ◌++◌, Option, none, some, String, str_eq,
  string_comparable, if◌then◌else◌, ltb, leb, set, get_elem?,
}
use gopkg.Common.Assoc.{lookup, insert}
use gopkg.BotManager.{
  degraded, healthy, down, BotHealth, PartnerBotConfig, PartnerBot, BotManager, Thread, creating,
  serving, returned, tracked, marking, finished, crashed, Loader, idle, syncing, System, sync_bot,
  remove_bots, stop,
}

unfoldable pub put : ℕ → Thread → System → System
put i t s = record s { threads = set s.threads i t }

abbrev pub max_backoff : ℕ
max_backoff = 30

abbrev pub max_consecutive_failures : ℕ
max_consecutive_failures = 10

unfoldable pub next_backoff : ℕ → ℕ
next_backoff backoff = if ltb max_backoff (backoff * 2) then max_backoff else backoff * 2

-- NewPartnerBot failed: count it; the tenth failure in a row is the last.
unfoldable pub fail : BotHealth → BotHealth
fail h =
    if leb max_consecutive_failures (suc h.failures)
    then record h { failures = suc h.failures; status = down }
    else record h { failures = suc h.failures; status = degraded }

unfoldable pub after_failure : PartnerBotConfig → ℕ → BotHealth → Thread
unfolding next_backoff
after_failure cfg backoff h =
    if leb max_consecutive_failures (suc h.failures)
    then finished
    else creating cfg (next_backoff backoff)

unfoldable pub set_health : String → BotHealth → System → System
unfolding insert
set_health id h s = record s {
  manager = record s.manager { health = insert id h s.manager.health };
}

unfoldable pub start_failed : ℕ → PartnerBotConfig → ℕ → System → System
unfolding lookup fail after_failure put set_health
start_failed i cfg backoff s = elim (lookup cfg.partner_id s.manager.health) [
  | none ↦ put i crashed s
  | some h ↦ put i (after_failure cfg backoff h) (set_health cfg.partner_id (fail h) s)
]

-- NewPartnerBot succeeded: the bot takes its partner's place and is not ready.
unfoldable pub bot_of : PartnerBotConfig → System → PartnerBot
bot_of cfg s = record { serial = s.created; partner_id = cfg.partner_id; bot_token = cfg.bot_token }

unfoldable pub enter : PartnerBotConfig → System → System
unfolding insert bot_of
enter cfg s = record s {
  manager = record s.manager {
    bots = insert cfg.partner_id (bot_of cfg s) s.manager.bots;
    ready = insert cfg.partner_id false s.manager.ready;
  };
  created = suc s.created;
}

-- The goroutine goes on into the bot's Start, and starts the one that marks the bot ready.
unfoldable pub serve : ℕ → PartnerBotConfig → ℕ → PartnerBot → System → System
unfolding put
serve i cfg backoff bot s =
    let s' = put i (serving cfg backoff bot) s in
    record s' { threads = s'.threads ++ marking cfg.partner_id ∷ [] }

unfoldable pub start_succeeded : ℕ → PartnerBotConfig → ℕ → System → System
unfolding lookup enter put set_health serve bot_of
start_succeeded i cfg backoff s = elim (lookup cfg.partner_id s.manager.health) [
  | none ↦ put i crashed (enter cfg s)
  | some h ↦
      serve i cfg backoff (bot_of cfg s)
        (set_health cfg.partner_id (record h { status = healthy; failures = 0 }) (enter cfg s))
]

-- Back from Start: the two looks at the tokens, each under a lock of its own.
unfoldable pub look_tracked : PartnerBotConfig → ℕ → BotManager → Thread
unfolding lookup
look_tracked cfg backoff m = elim (lookup cfg.partner_id m.tokens) [
  | none ↦ finished
  | some token ↦ tracked cfg backoff
]

-- A missing token reads as the empty one.
unfoldable pub look_token : PartnerBotConfig → ℕ → BotManager → Thread
unfolding lookup
look_token cfg backoff m =
    let current : String = elim (lookup cfg.partner_id m.tokens) [
      | none ↦ ""
      | some token ↦ token
    ] in
    if str_eq current cfg.bot_token then creating cfg backoff else finished

unfoldable pub mark_ready : ℕ → String → System → System
unfolding insert put
mark_ready i id s =
    put i finished
      (record s { manager = record s.manager { ready = insert id true s.manager.ready } })

-- What NewPartnerBot answers, where a goroutine waits for it.
pub data Answer : Type 0 where
  created_bot no_bot : Answer

unfoldable pub move_thread : ℕ → Answer → Thread → System → System
unfolding start_failed start_succeeded look_tracked look_token mark_ready put
move_thread i created_bot (creating cfg backoff) s = start_succeeded i cfg backoff s
move_thread i no_bot (creating cfg backoff) s = start_failed i cfg backoff s
move_thread i a (serving cfg backoff bot) s = put i (returned cfg backoff) s
move_thread i a (returned cfg backoff) s = put i (look_tracked cfg backoff s.manager) s
move_thread i a (tracked cfg backoff) s = put i (look_token cfg backoff s.manager) s
move_thread i a (marking id) s = mark_ready i id s
move_thread i a finished s = s
move_thread i a crashed s = s

-- loadAndSync: a failed fetch changes nothing; then each configuration is a section of its own, and
-- the removals are the last.
unfoldable pub fetch : Option (List PartnerBotConfig) → Loader → System → System
fetch (some cfgs) idle s = record s { loader = syncing cfgs cfgs }
fetch _ _ s = s

unfoldable pub load_next : ℕ → Loader → System → System
unfolding sync_bot remove_bots
load_next now idle s = s
load_next now (syncing [] active) s =
    let s' = remove_bots active s.manager.bots s in record s' { loader = idle }
load_next now (syncing (cfg ∷ rest) active) s =
    let s' = sync_bot now cfg s in record s' { loader = syncing rest active }

pub data Move : Type 0 where
  fetched : Option (List PartnerBotConfig) → Move
  loads : ℕ → Move
  moves : ℕ → Answer → Move
  stops : Move

unfoldable pub move_at : ℕ → Answer → System → System
unfolding move_thread
move_at i a s = elim (get_elem? s.threads i) [ none ↦ s | some t ↦ move_thread i a t s ]

unfoldable pub step : Move → System → System
unfolding fetch load_next move_at stop
step (fetched r) s = fetch r s.loader s
step (loads now) s = load_next now s.loader s
step (moves i a) s = move_at i a s
step stops s = stop s

unfoldable pub run : List Move → System → System
unfolding step
run [] s = s
run (m ∷ ms) s = run ms (step m s)
