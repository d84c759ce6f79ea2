-- ===== src/CircuitBreaker.antt =====
-- circuitbreaker/circuitbreaker.go and circuitbreaker/config.go: the three-state breaker.
-- Times are nanoseconds and a duration is an integer, as `time.Duration`; each call that reads the
-- clock takes the time as an argument. The mutex makes every operation atomic, so an operation is a
-- function on the record. Counters are uint32 and wrap. `on_state_change` says whether a callback is
-- set, and `notified` lists the calls of it that were started, the latest first. Logging is left out.
mod Settings
pub mod Classify
pub mod Execute
pub mod Invariant
pub mod Traces
pub mod Backoff
pub mod Budget
mod Examples
use gopkg.Common.{
  ℕ, ◌+◌, ◌%◌, Bool, true, false, ◌||◌, List, [], ◌∷◌, Option, none, some, String, str_eq, ltb, leb,
  if◌then◌else◌, ℤ, pos, sub_ℕ, ltb_ℤ, leb_ℤ, not, ◌&&◌,
}
use gopkg.Common.Float.{Float64}
pub use Settings.{Config}
unfoldable pub use Settings.{is_retryable_error, counts, default_config}

pub data State : Type 0 where
  closed open_state half_open : State

pub data Error : Type 0 where
  circuit_open : Error

pub record Breaker (F : Type 0) : Type 0 where
  pub name : String
  pub config : Config F
  pub state : State
  pub failures : ℕ
  pub successes : ℕ
  pub half_open_requests : ℕ
  pub last_state_change : ℕ
  pub last_failure : Option ℕ
  pub consecutive_opens : ℕ
  pub current_open_timeout : ℤ
  pub on_state_change : Bool
  pub notified : List (State × State)

abbrev pub u32 : ℕ → ℕ
u32 n = n % 4294967296

abbrev pub state_eq : State → State → Bool
state_eq closed closed = true
state_eq open_state open_state = true
state_eq half_open half_open = true
state_eq _ _ = false

pub state_string : State → String
state_string closed = "closed"
state_string open_state = "open"
state_string half_open = "half_open"

pub record Stats : Type 0 where
  pub name : String
  pub state : String
  pub failures : ℕ
  pub successes : ℕ
  pub consecutive_opens : ℕ
  pub current_open_timeout : ℤ
  pub last_state_change : ℕ
  pub last_failure : Option ℕ

pub stats : {F : Type 0} → Breaker F → Stats
unfolding state_string
stats b = record {
  name = b.name;
  state = state_string b.state;
  failures = b.failures;
  successes = b.successes;
  consecutive_opens = b.consecutive_opens;
  current_open_timeout = b.current_open_timeout;
  last_state_change = b.last_state_change;
  last_failure = b.last_failure;
}

-- The calls that change a breaker, each with the time at which it reads the clock.
pub data Call : Type 0 where
  allows : ℕ → Call
  succeeds : ℕ → Call
  fails : ℕ → String → Call
  resets : ℕ → Call

-- time.Since
abbrev pub since : ℕ → ℕ → ℤ
since now earlier = sub_ℕ now earlier

module _ (fl : Float64) where
  open fl use {Carrier}

  pub new : String → Config Carrier → ℕ → Breaker Carrier
  new name c now = record {
    name = name;
    config = c;
    state = closed;
    failures = 0;
    successes = 0;
    half_open_requests = 0;
    last_state_change = now;
    last_failure = none;
    consecutive_opens = 0;
    current_open_timeout = c.open_timeout;
    on_state_change = false;
    notified = [];
  }

  pub set_on_state_change : Bool → Breaker Carrier → Breaker Carrier
  set_on_state_change set b = record b { on_state_change = set }

  -- The open timeout after a failed probe.
  pub grow : Config Carrier → ℤ → ℤ
  grow c timeout =
      let next = fl.to_int (fl.mul (fl.of_int timeout) c.backoff_multiplier) in
      if fl.lt fl.zero c.backoff_multiplier
      then (if ltb_ℤ (pos 0) c.max_open_timeout && ltb_ℤ c.max_open_timeout next
          then c.max_open_timeout
          else next)
      else timeout

  -- The second `switch` of `transitionTo`; `prev` is the state left behind.
  pub enter : State → State → Breaker Carrier → Breaker Carrier
  enter closed prev b = record b {
    failures = 0;
    successes = 0;
    half_open_requests = 0;
    consecutive_opens = 0;
    current_open_timeout = b.config.open_timeout;
  }
  enter open_state half_open b = record b {
    successes = 0;
    half_open_requests = 0;
    consecutive_opens = u32 (b.consecutive_opens + 1);
    current_open_timeout = grow b.config b.current_open_timeout;
  }
  enter open_state closed b = record b { successes = 0; half_open_requests = 0 }
  enter open_state open_state b = record b { successes = 0; half_open_requests = 0 }
  enter half_open prev b = record b { successes = 0; half_open_requests = 0 }

  abbrev pub notify : State → State → Breaker Carrier → Breaker Carrier
  notify prev next b =
      if b.on_state_change then record b { notified = (prev, next) ∷ b.notified } else b

  pub transition_to : ℕ → State → Breaker Carrier → Breaker Carrier
  unfolding enter
  transition_to now next b =
      if state_eq b.state next
      then b
      else notify b.state next
          (enter next b.state (record b { state = next; last_state_change = now }))

  abbrev allow_in : State → ℕ → Breaker Carrier → Breaker Carrier × Option Error
  allow_in closed now b = (b, none)
  allow_in open_state now b =
      if leb_ℤ b.current_open_timeout (since now b.last_state_change)
      then (record (transition_to now half_open b) { half_open_requests = 1 }, none)
      else (b, some circuit_open)
  allow_in half_open now b =
      if ltb b.half_open_requests b.config.half_open_max_requests
      then (record b { half_open_requests = u32 (b.half_open_requests + 1) }, none)
      else (b, some circuit_open)

  pub allow : ℕ → Breaker Carrier → Breaker Carrier × Option Error
  unfolding transition_to
  allow now b = allow_in b.state now b

  abbrev success_in : State → ℕ → Breaker Carrier → Breaker Carrier
  success_in closed now b = record b { failures = 0 }
  success_in half_open now b =
      let b' = record b { successes = u32 (b.successes + 1) } in
      if leb b.config.success_threshold (u32 (b.successes + 1))
      then transition_to now closed b'
      else b'
  success_in open_state now b = record b { successes = u32 (b.successes + 1) }

  pub record_success : ℕ → Breaker Carrier → Breaker Carrier
  unfolding transition_to
  record_success now b = success_in b.state now b

  abbrev failure_in : State → ℕ → Breaker Carrier → Breaker Carrier
  failure_in closed now b =
      let b' = record b { failures = u32 (b.failures + 1) } in
      if leb b.config.failure_threshold (u32 (b.failures + 1))
      then transition_to now open_state b'
      else b'
  failure_in half_open now b = transition_to now open_state b
  failure_in open_state now b = record b { failures = u32 (b.failures + 1) }

  pub record_failure : ℕ → String → Breaker Carrier → Breaker Carrier
  unfolding transition_to
  record_failure now bucket b =
      if counts b.config bucket
      then failure_in b.state now (record b { last_failure = some now })
      else b

  pub reset : ℕ → Breaker Carrier → Breaker Carrier
  unfolding transition_to
  reset now b = transition_to now closed b

  pub step : Breaker Carrier → Call → Breaker Carrier
  unfolding allow record_success record_failure reset
  step b (allows now) = (allow now b).0
  step b (succeeds now) = record_success now b
  step b (fails now bucket) = record_failure now bucket b
  step b (resets now) = reset now b

  pub run : Breaker Carrier → List Call → Breaker Carrier
  run b [] = b
  run b (c ∷ cs) = run (step b c) cs
