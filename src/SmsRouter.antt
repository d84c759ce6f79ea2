-- ===== src/SmsRouter.antt =====
-- communication/router/sms_router.go: country-based routing of SMS. The provider registry is a
-- parameter: what its `Get` returns for a code, if that is an SMS provider, and whether it is
-- enabled. Text is a list of code points.
pub mod Sorting
pub mod Routing
pub mod Sending
mod Examples
use gopkg.Common.{
  is_some, list_eq, list_comparable, nat_comparable, ℕ, zero, suc, ◌-◌, Bool, true, false, ◌&&◌,
  ◌||◌, List, [], ◌∷◌, ◌++◌, ltb, leb, ◌==◌, if◌then◌else◌, length, take, String, ℤ, pos, ltb_ℤ,
  Option, none, some, Result, ok, err, string_comparable,
}
use gopkg.Common.Assoc
use gopkg.Common.Text.{codes}

pub record SmsRoutingRule : Type 0 where
  pub country_code : List ℕ
  pub provider_code : String
  pub provider_priority : ℤ
  pub is_active : Bool
  pub is_fallback : Bool
  pub rate_limit_per_sec : ℤ
  pub rate_limit_per_day : ℤ

-- ProviderLookup: `Get`, and the type assertion to SMSProvider. `none` is the nil registry.
abbrev pub ProviderLookup : Type 0 → Type 0
ProviderLookup P = Option (String → Option P)

pub lookup_sms : {P : Type 0} → ProviderLookup P → String → Option P
lookup_sms none code = none
lookup_sms (some get) code = get code

abbrev pub Routes : Type 0
Routes = List (List ℕ × List SmsRoutingRule)

pub record SmsRouter (P : Type 0) : Type 0 where
  pub registry : ProviderLookup P
  pub routes : Routes
  pub default_route : SmsRoutingRule

pub new : {P : Type 0} → ProviderLookup P → SmsRouter P
new registry = record {
  registry = registry;
  routes = [];
  default_route = record {
    country_code = codes "*";
    provider_code = "twilio_sms";
    provider_priority = pos 0;
    is_active = true;
    is_fallback = true;
    rate_limit_per_sec = pos 0;
    rate_limit_per_day = pos 0;
  };
}

-- rules[j].ProviderPriority > rules[j+1].ProviderPriority
abbrev pub out_of_order : SmsRoutingRule → SmsRoutingRule → Bool
out_of_order a b = ltb_ℤ (b.provider_priority) (a.provider_priority)

-- The inner loop of sortRules, with the comparisons that are left.
pub bubble : ℕ → List SmsRoutingRule → List SmsRoutingRule
bubble (suc n) (a ∷ b ∷ rest) =
    (if out_of_order a b then b else a) ∷ bubble n ((if out_of_order a b then a else b) ∷ rest)
bubble n rules = rules

-- The outer loop, with the comparisons of its next round.
pub sort_from : ℕ → List SmsRoutingRule → List SmsRoutingRule
unfolding bubble
sort_from zero rules = rules
sort_from (suc n) rules = sort_from n (bubble (suc n) rules)

pub sort_rules : List SmsRoutingRule → List SmsRoutingRule
unfolding sort_from
sort_rules rules = sort_from (length rules - 1) rules

-- `r.routes[countryCode]`: of a missing key, the nil slice.
pub routes_of : List ℕ → Routes → List SmsRoutingRule
unfolding Assoc.lookup
routes_of country routes = elim (Assoc.lookup country routes) [ none ↦ [] | some rules ↦ rules ]

pub append_route : SmsRoutingRule → Routes → Routes
unfolding routes_of Assoc.insert
append_route rule routes =
    Assoc.insert (rule.country_code) (routes_of (rule.country_code) routes ++ rule ∷ []) routes

-- The first loop of LoadRoutes, then its second.
pub load_active : List SmsRoutingRule → Routes → Routes
unfolding append_route
load_active [] routes = routes
load_active (rule ∷ rest) routes =
    load_active rest (if rule.is_active then append_route rule routes else routes)

pub sort_all : Routes → Routes
unfolding sort_rules
sort_all [] = []
sort_all ((country, rules) ∷ rest) = (country, sort_rules rules) ∷ sort_all rest

module _ {P : Type 0} where
  pub load_routes : List SmsRoutingRule → SmsRouter P → SmsRouter P
  unfolding load_active sort_all
  load_routes rules r = record r { routes = sort_all (load_active rules []) }

  pub add_route : SmsRoutingRule → SmsRouter P → SmsRouter P
  unfolding append_route routes_of sort_rules Assoc.insert
  add_route rule r =
      let added = append_route rule (r.routes) in
      record r {
        routes =
            Assoc.insert (rule.country_code) (sort_rules (routes_of (rule.country_code) added))
              added;
      }

  pub set_default_route : SmsRoutingRule → SmsRouter P → SmsRouter P
  set_default_route rule r = record r { default_route = rule }

  pub get_routes_for_country : List ℕ → SmsRouter P → List SmsRoutingRule
  unfolding routes_of
  get_routes_for_country country r = routes_of country (r.routes)

  -- The provider of a code, when there is one and it is enabled.
  pub available : (P → Bool) → ProviderLookup P → String → Option P
  unfolding lookup_sms
  available enabled registry code = elim (lookup_sms registry code) [
    | none ↦ none
    | some sms ↦ if enabled sms then some sms else none
  ]

  -- The loop over the rules of the country.
  pub first_available : (P → Bool) → ProviderLookup P → List SmsRoutingRule → Option P
  unfolding available
  first_available enabled registry [] = none
  first_available enabled registry (rule ∷ rest) =
      let later = first_available enabled registry rest in
      let here = available enabled registry (rule.provider_code) in
      if rule.is_active && is_some here then here else later

-- The cleaning of ExtractCountryCode: digits and `+` stay.
abbrev kept : ℕ → Bool
kept c = (leb 48 c && leb c 57) || c == 43

pub clean : List ℕ → List ℕ
clean [] = []
clean (c ∷ s) = let rest = clean s in if kept c then c ∷ rest else rest

unfoldable pub country_codes : List (List ℕ)
country_codes =
    codes "964"
    ∷ codes "971"
    ∷ codes "966"
    ∷ codes "962"
    ∷ codes "963"
    ∷ codes "965"
    ∷ codes "968"
    ∷ codes "973"
    ∷ codes "974"
    ∷ codes "961"
    ∷ codes "967"
    ∷ codes "970"
    ∷ codes "218"
    ∷ codes "249"
    ∷ codes "213"
    ∷ codes "212"
    ∷ codes "216"
    ∷ codes "20"
    ∷ codes "44"
    ∷ codes "49"
    ∷ codes "33"
    ∷ codes "39"
    ∷ codes "34"
    ∷ codes "31"
    ∷ codes "32"
    ∷ codes "90"
    ∷ codes "86"
    ∷ codes "91"
    ∷ codes "81"
    ∷ codes "82"
    ∷ codes "61"
    ∷ codes "64"
    ∷ codes "1"
    ∷ codes "7"
    ∷ []

pub listed : List ℕ → List (List ℕ) → Bool
unfolding list_eq
listed code [] = false
listed code (c ∷ cs) = list_comparable.beq c code || listed code cs

abbrev iraq : List ℕ
iraq = codes "+964"

-- The loop over the lengths 3, 2 and 1.
pub longest_listed : List ℕ → List ℕ → List ℕ
unfolding listed country_codes
longest_listed [] cleaned = iraq
longest_listed (n ∷ ns) cleaned =
    let shorter = longest_listed ns cleaned in
    if leb n (length cleaned) && listed (take n cleaned) country_codes
    then 43 ∷ take n cleaned
    else shorter

pub after_plus : List ℕ → List ℕ
unfolding longest_listed
after_plus [] = iraq
after_plus (c ∷ cleaned) = if c == 43 then longest_listed (3 ∷ 2 ∷ 1 ∷ []) cleaned else iraq

pub extract_country_code : List ℕ → List ℕ
unfolding clean after_plus
extract_country_code phone_number = after_plus (clean phone_number)

-- The error carries the country code, as the source returns it beside the error.
pub get_provider_for_number :
    {P : Type 0} → (P → Bool) → List ℕ → SmsRouter P → Result (List ℕ) (P × List ℕ)
unfolding extract_country_code routes_of first_available available
get_provider_for_number enabled phone_number r =
    let country = extract_country_code phone_number in
    elim (first_available enabled (r.registry) (routes_of country (r.routes))) [
      | some sms ↦ ok (sms, country)
      | none ↦ elim (available enabled (r.registry) (r.default_route.provider_code)) [
        | some sms ↦ ok (sms, country)
        | none ↦ err country
      ]
    ]
