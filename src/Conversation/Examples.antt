-- ===== src/Conversation/Examples.antt =====
-- ai/conversation/cache.go: a server whose state is a Go map meets the laws; a conversation on it.
use gopkg.Common.{
  ℕ, zero, suc, ◌+◌, ◌*◌, ltb, if◌then◌else◌, Option, some, ◌≡◌, refl, arith, List, [], ◌∷◌, ◌++◌,
  none, String, string_comparable, beq_refl, ok, map,
}
use gopkg.Common.Assoc.{lookup, insert, delete, lookup-insert}
use gopkg.Conversation.{key_for_user, Message, Redis, last_messages, get_messages}
use gopkg.Conversation.Window.{Laws, Lively, append_all, stamped, append_all_window}

-- A stored value, with the time at which it is gone.
abbrev in_memory : Redis
in_memory = record {
  State = List (String × (List Message × ℕ));
  Data = List Message;
  get = λ now key s. ok (elim (lookup key s) as (λ x. Option (List Message)) [
    | none ↦ none
    | some (d, gone) ↦ if ltb now gone then some d else none
  ]);
  set = λ now ttl key d s. (insert key (d, now + ttl) s, none);
  del = λ key s. (delete key s, none);
  marshal = λ msgs. ok msgs;
  unmarshal = λ d. ok d;
}

in_memory-Laws : Laws in_memory
in_memory-Laws = record {
  set_get = λ now ttl t key d s s' h from until.
      ground
        (arith, h, until, lookup-insert key key (d, now + ttl) s, beq_refl string_comparable key);
  decodes = λ msgs d h. ground (arith, h);
}

-- n messages, one in each second.
abbrev greetings : ℕ → List (ℕ × Message)
greetings zero = []
greetings (suc n) =
    (
      suc n,
      record {
        role = "user";
        channel = "chat";
        content = "hello";
        detected_intent = "";
        timestamp = 0;
      },
    )
    ∷ greetings n

saved : (append_all in_memory "ai:conversation:acme:7" (greetings 22) []).1 ≡ none
unfolding append_all lookup insert
saved = refl

twenty_kept :
    map (λ (m : Message). m.timestamp) (last_messages 20 (stamped (greetings 22)))
    ≡ map (λ (p : ℕ × Message). p.0) (greetings 20)
unfolding last_messages stamped
twenty_kept = refl

abbrev greeting : Message
greeting = record {
  role = "user";
  channel = "chat";
  content = "hello";
  detected_intent = "";
  timestamp = 0;
}

-- Two messages, a minute apart.
abbrev minute : ℕ
minute = 60000000000

two-Lively : Lively 5 ((5 + minute, greeting) ∷ []) (6 + minute)
unfolding Lively
two-Lively = (omega arith, omega arith, (omega arith, omega arith))

append_all_window_example :
    get_messages in_memory
      (6 + minute)
      "k"
      (append_all in_memory "k" ((5, greeting) ∷ (5 + minute, greeting) ∷ []) []).0
    ≡ ok (last_messages 20 ([] ++ stamped ((5, greeting) ∷ (5 + minute, greeting) ∷ [])))
unfolding get_messages append_all lookup insert
append_all_window_example =
    append_all_window in_memory in_memory-Laws "k" 5 greeting ((5 + minute, greeting) ∷ []) [] []
      (append_all in_memory "k" ((5, greeting) ∷ (5 + minute, greeting) ∷ []) []).0 (6 + minute)
      (omega arith) refl two-Lively refl

gone_after_an_hour :
    get_messages in_memory
      (5 + 60 * minute)
      "k"
      (append_all in_memory "k" ((5, greeting) ∷ []) []).0
    ≡ ok []
unfolding get_messages append_all lookup insert
gone_after_an_hour = refl

acme_key : key_for_user "acme" "7" ≡ "ai:conversation:acme:7"
unfolding key_for_user
acme_key = refl
