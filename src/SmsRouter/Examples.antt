-- ===== src/SmsRouter/Examples.antt =====
-- communication/router/sms_router.go: tests, and the theorems at a router of three rules.
use gopkg.Common.{
  ℕ, ◌≡◌, refl, Bool, true, false, List, [], ◌∷◌, ltb, String, str_eq, if◌then◌else◌, pos, none,
  some, ok, err, Option, Result, get_elem?,
}
use gopkg.Common.Text.{codes}
use gopkg.SmsRouter.{
  SmsRoutingRule, ProviderLookup, SmsRouter, new, get_routes_for_country, available,
  extract_country_code, get_provider_for_number,
}
use gopkg.ProviderRegistry.{SendRequest, SendResponse, new_registry}
use gopkg.ProviderRegistry.Accepted.{register_all}
use gopkg.SmsRouter.Sending.{registry_lookup, send_sms, send_failed, Outcome, send_sms-Outcome}
use gopkg.SmsRouter.Routing.{Call, loads, adds, run_calls, usable, Best, lowest_chosen}

abbrev rule_of : List ℕ → String → ℕ → Bool → SmsRoutingRule
rule_of country code priority active = record {
  country_code = country;
  provider_code = code;
  provider_priority = pos priority;
  is_active = active;
  is_fallback = false;
  rate_limit_per_sec = pos 0;
  rate_limit_per_day = pos 0;
}

-- Two providers, of which the first is disabled.
abbrev providers : ProviderLookup ℕ
providers =
    some (λ code. if str_eq code "a" then some 0 else if str_eq code "b" then some 1 else none)

abbrev can_send : ℕ → Bool
can_send p = ltb 0 p

abbrev calls : List Call
calls =
    loads (rule_of (codes "+44") "b" 9 true ∷ rule_of (codes "+44") "a" 1 true ∷ [])
    ∷ adds (rule_of (codes "+44") "c" 5 true)
    ∷ []

abbrev phone : List ℕ
phone = codes "+44 20-7946"

country : extract_country_code phone ≡ codes "+44"
unfolding extract_country_code
country = refl

no_plus : extract_country_code (codes "0044207946") ≡ codes "+964"
unfolding extract_country_code
no_plus = refl

abbrev three : List SmsRoutingRule
three = rule_of [] "x" 2 true ∷ rule_of [] "y" 1 true ∷ rule_of [] "z" 2 true ∷ []

last_rule :
    get_elem?
      (get_routes_for_country (extract_country_code phone) (run_calls calls (new providers)))
      2
    ≡ some (rule_of (codes "+44") "b" 9 true)
unfolding get_routes_for_country extract_country_code run_calls new
last_rule = refl

last_usable : usable can_send providers (rule_of (codes "+44") "b" 9 true) ≡ true
unfolding usable available
last_usable = refl

lowest_chosen_example :
    (p : ℕ) × (get_provider_for_number can_send phone (run_calls calls (new providers))
      ≡ ok (p, extract_country_code phone))
    × Best can_send providers
        (get_routes_for_country (extract_country_code phone) (run_calls calls (new providers)))
        p
        (rule_of (codes "+44") "b" 9 true)
lowest_chosen_example =
    lowest_chosen can_send providers calls phone 2 (rule_of (codes "+44") "b" 9 true) last_rule
      last_usable

-- Two providers behind the router, of which the second sends SMS.
abbrev code : ℕ → String
code p = if ltb p 1 then "a" else "b"

abbrev channels : ℕ → List String
channels p = "sms" ∷ []

abbrev registered : List (Option ℕ)
registered = some 0 ∷ some 1 ∷ some 1 ∷ []

abbrev sends_sms : ℕ → Bool
sends_sms p = ltb 0 p

abbrev deliver : ℕ → SendRequest Unit → Result String SendResponse
deliver p req = err "no credit"

abbrev router : SmsRouter ℕ
router =
    run_calls calls
      (new (registry_lookup sends_sms (register_all code channels registered new_registry)))

abbrev message : SendRequest Unit
message = record {
  recipient_email = "";
  recipient_phone = phone;
  recipient_device_token = "";
  recipient_telegram_chat_id = "";
  subject = "";
  body = "hello";
  html_body = "";
  template_code = "";
  language = "";
  correlation_id = "";
  context_data = [];
  options = [];
}

sent_by_second : send_sms can_send deliver message router ≡ (some 1, err (send_failed "no credit"))
unfolding send_sms run_calls new registry_lookup register_all new_registry
sent_by_second = refl

behind_router :
    router.registry ≡ registry_lookup sends_sms (register_all code channels registered new_registry)
unfolding run_calls new
behind_router = refl

send_sms-Outcome_example :
    Outcome code channels sends_sms can_send deliver registered message router
send_sms-Outcome_example =
    send_sms-Outcome code channels sends_sms can_send deliver registered message router
      behind_router
