-- ===== src/Conversation.antt =====
-- ai/conversation/cache.go: the conversations that are kept in Redis. The client of Redis and the JSON
-- encoding are the parameter Redis: a state of the server, its three commands with their errors, and the
-- encoding with its errors. The time is an argument.
pub mod Window
mod Examples
use gopkg.Common.{
  ℕ, zero, suc, ◌-◌, Bool, true, false, ◌||◌, List, [], ◌∷◌, ◌++◌, length, drop, Option, none, some,
  String, ℤ, pos, pos_part, leb_ℤ, if◌then◌else◌, ltb, leb, ◌==◌, Result, ok, err,
}
use Prim.Native.String.{◌++◌ as str_append}

-- The zero time is 0. The function call of a message, which is only carried along, is left out.
pub record Message : Type 0 where
  pub role : String
  pub channel : String
  pub content : String
  pub detected_intent : String
  pub timestamp : ℕ

pub data Error : Type 0 where
  get_conversation unmarshal_conversation marshal_conversation save_conversation
        clear_conversation :
      String → Error

-- `get` says none for redis.Nil; it and `set` are told the time, and `set` the time to live. A command
-- that fails may have changed the server.
pub record Redis : Type 1 where
  pub State : Type 0
  pub Data : Type 0
  pub get : ℕ → String → State → Result String (Option Data)
  pub set : ℕ → ℕ → String → Data → State → State × Option String
  pub del : String → State → State × Option String
  pub marshal : List Message → Result String Data
  pub unmarshal : Data → Result String (List Message)

-- keys.go
unfoldable pub key_for_user : String → String → String
key_for_user partner_id user_id =
    str_append "ai:conversation:" (str_append partner_id (str_append ":" user_id))

-- An hour, in nanoseconds.
abbrev pub conversation_ttl : ℕ
conversation_ttl = 3600000000000

abbrev pub conversation_max_items : ℕ
conversation_max_items = 20

-- msgs[len(msgs)-n:] where there are more than n.
unfoldable pub last_messages : ℕ → List Message → List Message
last_messages n msgs = if ltb n (length msgs) then drop (length msgs - n) msgs else msgs

unfoldable pub stamp : ℕ → Message → Message
stamp now msg = if msg.timestamp == 0 then record msg { timestamp = now } else msg

module _ (redis : Redis) where
  unfoldable pub decode : redis.Data → Result Error (List Message)
  decode data_ = elim (redis.unmarshal data_) [
    | err e ↦ err (unmarshal_conversation e)
    | ok msgs ↦ ok msgs
  ]

  unfoldable pub get_messages : ℕ → String → redis.State → Result Error (List Message)
  unfolding decode
  get_messages now key s = elim (redis.get now key s) [
    | err e ↦ err (get_conversation e)
    | ok found ↦ elim found [ none ↦ ok [] | some data_ ↦ decode data_ ]
  ]

  unfoldable pub save : ℕ → String → redis.Data → redis.State → redis.State × Option Error
  save now key data_ s =
      let (s', e) = redis.set now conversation_ttl key data_ s in
      (s', elim e [ none ↦ none | some x ↦ some (save_conversation x) ])

  unfoldable pub store : ℕ → String → List Message → redis.State → redis.State × Option Error
  unfolding save
  store now key msgs s = elim (redis.marshal msgs) [
    | err e ↦ (s, some (marshal_conversation e))
    | ok data_ ↦ save now key data_ s
  ]

  unfoldable pub append : String → ℕ → Message → redis.State → redis.State × Option Error
  unfolding get_messages store last_messages stamp
  append key now msg s = elim (get_messages now key s) [
    | err e ↦ (s, some e)
    | ok msgs ↦ store now key (last_messages conversation_max_items (msgs ++ stamp now msg ∷ [])) s
  ]

  unfoldable pub recent : ℕ → String → ℤ → redis.State → Result Error (List Message)
  unfolding get_messages last_messages
  recent now key n s = elim (get_messages now key s) [
    | err e ↦ err e
    | ok msgs ↦ ok (if leb_ℤ n (pos 0) then msgs else last_messages (pos_part n) msgs)
  ]

  unfoldable pub clear : String → redis.State → redis.State × Option Error
  clear key s =
      let (s', e) = redis.del key s in
      (s', elim e [ none ↦ none | some x ↦ some (clear_conversation x) ])
