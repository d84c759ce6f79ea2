-- ===== src/BotManager/Supervision.antt =====
-- communication/telegram/bot/core/manager.go: what holds of the supervisor whatever its goroutines do.
pub mod Steps
use gopkg.Common.{
  ℕ, zero, suc, ◌+◌, ◌*◌, ◌≤◌, ◌<◌, ◌≡◌, ◌∙◌, refl, sym, ap, subst, arith, ◌⊎◌, inl, inr, Bool,
  true, false, List, [], ◌∷◌, ◌++◌, Option, none, some, Option-cases, Bool-cases, String, str_eq,
  string_comparable, if◌then◌else◌, ltb, leb, is_some, set, get_elem?, All,
}
use gopkg.Common.Assoc.{lookup, insert, delete, lookup-insert, lookup-delete}
use gopkg.BotManager.{
  Status, starting, degraded, healthy, down, BotHealth, PartnerBotConfig, PartnerBot, BotManager,
  Thread, creating, serving, returned, tracked, marking, finished, crashed, Loader, idle, syncing,
  System, new_bot_manager, stop_old, launch, sync_bot, mark_down, is_active, remove_bot,
  remove_bots, stop_bots, stop, partner_of, contains_slash, ready_bot, handle_webhook,
}
use gopkg.BotManager.Moves.{
  put, next_backoff, fail, after_failure, set_health, start_failed, bot_of, enter, serve,
  start_succeeded, look_tracked, look_token, mark_ready, Answer, created_bot, no_bot, move_thread,
  fetch, load_next, Move, fetched, loads, moves, stops, move_at, step, run,
}

-- The failures that a status goes with.
abbrev pub Counted : Status → ℕ → Type 0
Counted starting n = n ≡ 0
Counted degraded n = (1 ≤ n) × (n < 10)
Counted healthy n = n ≡ 0
Counted down n = Unit

pub Owned : List (String × PartnerBot) → Type 0
Owned bots = (id : String) (b : PartnerBot) → lookup id bots ≡ some b → b.partner_id ≡ id

pub Kept : List (String × BotHealth) → Type 0
Kept health =
    (id : String) (h : BotHealth)
    → lookup id health ≡ some h
    → (h.partner_id ≡ id) × Counted h.status h.failures

-- A goroutine that still runs finds the health of its partner, and its backoff is at most 30 seconds.
unfoldable pub Supervised : List (String × BotHealth) → PartnerBotConfig → ℕ → Type 0
Supervised health cfg backoff = (is_some (lookup cfg.partner_id health) ≡ true) × (backoff ≤ 30)

abbrev pub Sound : List (String × BotHealth) → Thread → Type 0
Sound health (creating cfg backoff) = Supervised health cfg backoff
Sound health (serving cfg backoff bot) = Supervised health cfg backoff
Sound health (returned cfg backoff) = Supervised health cfg backoff
Sound health (tracked cfg backoff) = Supervised health cfg backoff
Sound health (marking id) = Unit
Sound health finished = Unit
Sound health crashed = true ≡ false

pub record Inv (s : System) : Type 0 where
  pub owned : Owned s.manager.bots
  pub kept : Kept s.manager.health
  pub sound : All (Sound s.manager.health) s.threads

pub Grows : List (String × BotHealth) → List (String × BotHealth) → Type 0
Grows health health' =
    (id : String) → is_some (lookup id health) ≡ true → is_some (lookup id health') ≡ true

pub insert-Grows :
    (id : String) (h : BotHealth) (m : List (String × BotHealth)) → Grows m (insert id h m)
unfolding Grows
insert-Grows id h m j p = ground (arith, p, lookup-insert id j h m)

pub insert-Owned :
    (id : String) (b : PartnerBot) (bots : List (String × PartnerBot))
    → b.partner_id ≡ id
    → Owned bots
    → Owned (insert id b bots)
unfolding Owned
insert-Owned id b bots own v j c at = elim (Bool-cases (string_comparable.beq id j)) [
  | inl same ↦
      let e : b ≡ c = ground (arith, lookup-insert id j b bots) in
      subst (λ (x : PartnerBot). x.partner_id ≡ j) e
        (ground (arith, own, string_comparable.beq_iff id j))
  | inr other ↦ v j c (ground (arith, lookup-insert id j b bots))
]

pub delete-Owned :
    (id : String) (bots : List (String × PartnerBot)) → Owned bots → Owned (delete id bots)
unfolding Owned
delete-Owned id bots v j c at = v j c (ground (arith, lookup-delete id j bots))

pub insert-Kept :
    (id : String) (h : BotHealth) (m : List (String × BotHealth))
    → h.partner_id ≡ id
    → Counted h.status h.failures
    → Kept m
    → Kept (insert id h m)
unfolding Kept
insert-Kept id h m own n v j c at = elim (Bool-cases (string_comparable.beq id j)) [
  | inl same ↦
      let e : h ≡ c = ground (arith, lookup-insert id j h m) in
      subst (λ (x : BotHealth). (x.partner_id ≡ j) × Counted x.status x.failures) e
        (ground (arith, own, string_comparable.beq_iff id j), n)
  | inr other ↦ v j c (ground (arith, lookup-insert id j h m))
]

grown-Sound : (m m' : List (String × BotHealth)) (t : Thread) → Grows m m' → Sound m t → Sound m' t
unfolding Grows Supervised
grown-Sound m m' (creating cfg b) g (p, q) = (g cfg.partner_id p, q)
grown-Sound m m' (serving cfg b bot) g (p, q) = (g cfg.partner_id p, q)
grown-Sound m m' (returned cfg b) g (p, q) = (g cfg.partner_id p, q)
grown-Sound m m' (tracked cfg b) g (p, q) = (g cfg.partner_id p, q)
grown-Sound m m' (marking id) g v = tt
grown-Sound m m' finished g v = tt
grown-Sound m m' crashed g v = v

pub all-Sound :
    (m m' : List (String × BotHealth)) (ts : List Thread)
    → Grows m m'
    → All (Sound m) ts
    → All (Sound m') ts
all-Sound m m' [] g v = tt
all-Sound m m' (t ∷ ts) g (v, vs) = (grown-Sound m m' t g v, all-Sound m m' ts g vs)

pub mark_down-Kept : (id : String) (m : List (String × BotHealth)) → Kept m → Kept (mark_down id m)
unfolding mark_down Kept
mark_down-Kept id m v = elim (Option-cases (lookup id m)) [
  | inl e ↦ rw (e, mark_down) v
  | inr (h, e) ↦ rw (e, mark_down) (insert-Kept id (record h { status = down }) m (v id h e).0 tt v)
]

pub mark_down-Grows : (id : String) (m : List (String × BotHealth)) → Grows m (mark_down id m)
unfolding mark_down Grows
mark_down-Grows id m j p = elim (Option-cases (lookup id m)) [
  | inl e ↦ rw (e, mark_down) p
  | inr (h, e) ↦ rw (e, mark_down) (insert-Grows id (record h { status = down }) m j p)
]
