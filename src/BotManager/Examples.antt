-- ===== src/BotManager/Examples.antt =====
-- communication/telegram/bot/core/manager.go: a supervisor of two partners, run, and the theorems at it.
use gopkg.Common.{string_comparable, ◌≡◌, refl, List, [], ◌∷◌, ◌++◌, none, some, true, get_elem?}
use gopkg.Common.Assoc.{lookup}
use gopkg.BotManager.{
  PartnerBotConfig, PartnerBot, serving, new_bot_manager, stop, partner_of, handle_webhook,
}
use gopkg.BotManager.Moves.{created_bot, no_bot, Move, fetched, loads, moves, run, bot_of}
use gopkg.BotManager.Supervision.{Inv}
use gopkg.BotManager.Supervision.Steps.Runs.{supervised-Inv, webhook_reaches_own}
use gopkg.BotManager.Stopping.{stop_is_undone, four_moves}

abbrev acme : PartnerBotConfig
acme = record { partner_id = "acme"; partner_code = "A"; bot_token = "one" }

abbrev globe : PartnerBotConfig
globe = record { partner_id = "globe"; partner_code = "G"; bot_token = "two" }

-- Both are loaded; the second bot fails once, both start, and the first is marked ready.
abbrev loaded : List Move
loaded =
    fetched (some (acme ∷ globe ∷ []))
    ∷ loads 7
    ∷ loads 7
    ∷ loads 7
    ∷ moves 1 no_bot
    ∷ moves 0 created_bot
    ∷ moves 1 created_bot
    ∷ moves 2 created_bot
    ∷ []

abbrev acme_bot : PartnerBot
acme_bot = record { serial = 0; partner_id = "acme"; bot_token = "one" }

reaches_acme : handle_webhook "/webhook/acme" (run loaded new_bot_manager).manager ≡ some acme_bot
unfolding run handle_webhook new_bot_manager
reaches_acme = refl

globe_not_ready : handle_webhook "/webhook/globe" (run loaded new_bot_manager).manager ≡ none
unfolding run handle_webhook new_bot_manager
globe_not_ready = refl

two_parts : handle_webhook "/webhook/acme/x" (run loaded new_bot_manager).manager ≡ none
unfolding run handle_webhook new_bot_manager
two_parts = refl

globe_backoff :
    get_elem? (run loaded new_bot_manager).threads 1
    ≡ some (serving globe 2 (record { serial = 1; partner_id = "globe"; bot_token = "two" }))
unfolding run new_bot_manager
globe_backoff = refl

-- The first partner leaves the list: its bot goes, its health is down.
acme_removed :
    handle_webhook "/webhook/acme"
      (run (loaded ++ fetched (some (globe ∷ [])) ∷ loads 8 ∷ loads 8 ∷ []) new_bot_manager).manager
    ≡ none
unfolding run handle_webhook new_bot_manager
acme_removed = refl

supervised-Inv_example : Inv (run loaded new_bot_manager)
supervised-Inv_example = supervised-Inv loaded

webhook_reaches_own_example :
    (acme_bot.partner_id ≡ partner_of "/webhook/acme")
    × (lookup (partner_of "/webhook/acme") (run loaded new_bot_manager).manager.ready ≡ some true)
webhook_reaches_own_example = webhook_reaches_own loaded "/webhook/acme" acme_bot reaches_acme

acme_serves : get_elem? (run loaded new_bot_manager).threads 0 ≡ some (serving acme 1 acme_bot)
unfolding run new_bot_manager
acme_serves = refl

acme_tracked : lookup "acme" (run loaded new_bot_manager).manager.tokens ≡ some "one"
unfolding run new_bot_manager lookup
acme_tracked = refl

stop_is_undone_example :
    (lookup "acme" (stop (run loaded new_bot_manager)).manager.bots ≡ none)
    × (lookup "acme" (run (four_moves 0) (stop (run loaded new_bot_manager))).manager.bots
        ≡ some (bot_of acme (run loaded new_bot_manager)))
stop_is_undone_example = stop_is_undone loaded 0 acme 1 acme_bot acme_serves acme_tracked

abbrev acme_renewed : PartnerBotConfig
acme_renewed = record { partner_id = "acme"; partner_code = "A"; bot_token = "three" }

-- The first goroutine still retries when the token changes; it then puts the bot of the old token in the
-- place of the new one.
stale_bot_replaces :
    lookup "acme"
      (run
        (fetched (some (acme ∷ []))
          ∷ loads 7
          ∷ loads 7
          ∷ moves 0 no_bot
          ∷ fetched (some (acme_renewed ∷ []))
          ∷ loads 8
          ∷ loads 8
          ∷ moves 1 created_bot
          ∷ moves 0 created_bot
          ∷ [])
        new_bot_manager).manager.bots
    ≡ some (record { serial = 1; partner_id = "acme"; bot_token = "one" })
unfolding run new_bot_manager lookup
stale_bot_replaces = refl
