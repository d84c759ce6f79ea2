-- ===== src/BotManager.antt =====
-- communication/telegram/bot/core/manager.go: the supervisor of the partners' bots. Each section under
-- the mutex is one step; the goroutines (a `startBot` for each launch, the delayed ones that mark a bot
-- ready, the reload loop) move in any order. The bot library and the identity service are outside: a
-- move says what they answered. A bot's identity is its serial number.
pub mod Moves
pub mod Supervision
pub mod Stopping
mod Examples
use gopkg.Common.{
  ℕ, zero, suc, ◌*◌, Bool, true, false, not, ◌&&◌, ◌||◌, List, [], ◌∷◌, ◌++◌, Option, none, some,
  String, str_eq, string_comparable, if◌then◌else◌, ltb, leb, is_some, set,
}
use gopkg.Common.Assoc.{lookup, insert, delete}
use Prim.Native.String

pub data Status : Type 0 where
  starting degraded healthy down : Status

pub record BotHealth : Type 0 where
  pub status : Status
  pub last_start : ℕ
  pub failures : ℕ
  pub partner_id : String
  pub partner_code : String

pub record PartnerBotConfig : Type 0 where
  pub partner_id : String
  pub partner_code : String
  pub bot_token : String

pub record PartnerBot : Type 0 where
  pub serial : ℕ
  pub partner_id : String
  pub bot_token : String

-- The maps that the mutex guards.
pub record BotManager : Type 0 where
  pub bots : List (String × PartnerBot)
  pub health : List (String × BotHealth)
  pub tokens : List (String × String)
  pub ready : List (String × Bool)

-- Where a goroutine stands, with its configuration and its backoff in seconds: about to create its bot,
-- inside the bot's Start, back from it, found to be tracked. A nil dereference is `crashed`.
pub data Thread : Type 0 where
  creating : PartnerBotConfig → ℕ → Thread
  serving : PartnerBotConfig → ℕ → PartnerBot → Thread
  returned : PartnerBotConfig → ℕ → Thread
  tracked : PartnerBotConfig → ℕ → Thread
  marking : String → Thread
  finished : Thread
  crashed : Thread

-- The reload loop: between loads, or with the configurations to go and all those of this load.
pub data Loader : Type 0 where
  idle : Loader
  syncing : List PartnerBotConfig → List PartnerBotConfig → Loader

pub record System : Type 0 where
  pub manager : BotManager
  pub threads : List Thread
  pub loader : Loader
  pub created : ℕ
  pub stopped : List PartnerBot

unfoldable pub new_bot_manager : System
new_bot_manager = record {
  manager = record { bots = []; health = []; tokens = []; ready = [] };
  threads = [];
  loader = idle;
  created = 0;
  stopped = [];
}

-- syncBot: stop the old bot of a changed token, then launch a goroutine for the new one.
unfoldable pub stop_old : PartnerBotConfig → System → System
unfolding lookup insert
stop_old cfg s = elim (lookup cfg.partner_id s.manager.bots) [
  | none ↦ s
  | some old ↦ record s {
    manager = record s.manager { ready = insert cfg.partner_id false s.manager.ready };
    stopped = old ∷ s.stopped;
  }
]

unfoldable pub launch : ℕ → PartnerBotConfig → System → System
unfolding insert
launch now cfg s = record s {
  manager = record s.manager {
    tokens = insert cfg.partner_id cfg.bot_token s.manager.tokens;
    health =
        insert cfg.partner_id
          (record {
            status = starting;
            last_start = now;
            failures = 0;
            partner_id = cfg.partner_id;
            partner_code = cfg.partner_code;
          })
          s.manager.health;
  };
  threads = s.threads ++ creating cfg 1 ∷ [];
}

unfoldable pub sync_bot : ℕ → PartnerBotConfig → System → System
unfolding lookup stop_old launch
sync_bot now cfg s = elim (lookup cfg.partner_id s.manager.tokens) [
  | none ↦ launch now cfg s
  | some existing ↦ if str_eq existing cfg.bot_token then s else launch now cfg (stop_old cfg s)
]

-- The second half of loadAndSync: the bots of partners that are no longer in the list.
unfoldable pub mark_down : String → List (String × BotHealth) → List (String × BotHealth)
unfolding lookup insert
mark_down id health = elim (lookup id health) [
  | none ↦ health
  | some h ↦ insert id (record h { status = down }) health
]

unfoldable pub remove_bot : String → PartnerBot → System → System
unfolding delete mark_down
remove_bot id bot s = record s {
  manager = record {
    bots = delete id s.manager.bots;
    health = mark_down id s.manager.health;
    tokens = delete id s.manager.tokens;
    ready = delete id s.manager.ready;
  };
  stopped = bot ∷ s.stopped;
}

unfoldable pub is_active : String → List PartnerBotConfig → Bool
is_active id [] = false
is_active id (cfg ∷ cfgs) = str_eq id cfg.partner_id || is_active id cfgs

unfoldable pub remove_bots : List PartnerBotConfig → List (String × PartnerBot) → System → System
unfolding is_active remove_bot
remove_bots active [] s = s
remove_bots active ((id, bot) ∷ rest) s =
    remove_bots active rest (if is_active id active then s else remove_bot id bot s)

-- Stop: every bot is stopped and forgotten; the tokens stay.
unfoldable pub stop_bots : List (String × PartnerBot) → System → System
unfolding delete
stop_bots [] s = s
stop_bots ((id, bot) ∷ rest) s = stop_bots rest (record s {
  manager = record s.manager { bots = delete id s.manager.bots; ready = delete id s.manager.ready };
  stopped = bot ∷ s.stopped;
})

unfoldable pub stop : System → System
unfolding stop_bots
stop s = stop_bots s.manager.bots s

-- handleWebhook: the bot that a request's path reaches.
unfoldable pub trim_prefix : String → String → Option String
trim_prefix String.[] s = some s
trim_prefix (String.◌∷◌ c p) String.[] = none
trim_prefix (String.◌∷◌ c p) (String.◌∷◌ d s) =
    let rest = trim_prefix p s in if str_eq (String.◌∷◌ c "") (String.◌∷◌ d "") then rest else none

unfoldable pub contains_slash : String → Bool
contains_slash String.[] = false
contains_slash (String.◌∷◌ c s) = str_eq (String.◌∷◌ c "") "/" || contains_slash s

unfoldable pub partner_of : String → String
unfolding trim_prefix
partner_of path = elim (trim_prefix "/webhook/" path) [ none ↦ path | some id ↦ id ]

unfoldable pub ready_bot : String → BotManager → Option PartnerBot
unfolding lookup
ready_bot id m = elim (lookup id m.ready) [
  | none ↦ none
  | some is_ready ↦ if is_ready then lookup id m.bots else none
]

unfoldable pub handle_webhook : String → BotManager → Option PartnerBot
unfolding partner_of contains_slash ready_bot
handle_webhook path m =
    if str_eq (partner_of path) "" || contains_slash (partner_of path)
    then none
    else ready_bot (partner_of path) m
