-- ===== src/SmsRouter/Sending.antt =====
-- communication/router/sms_router.go, SendSMS, with communication/provider's registry behind the router.
use gopkg.Common.{
  ◌≡◌, ◌∙◌, refl, sym, ap, arith, ◌⊎◌, inl, inr, Bool, true, false, List, [], ◌∷◌, Option, none,
  some, Option-cases, is_some, ◌&&◌, subst, if_both, if_true, if_false, Bool-cases, All, ◌++◌, ℕ,
  String, Result, ok, err, if◌then◌else◌,
}
use gopkg.ProviderRegistry.{SendRequest, SendResponse, Registry, new_registry, get}
use gopkg.ProviderRegistry.Accepted.{find, accepted, register_all, registered-Agrees}
use gopkg.SmsRouter.{
  SmsRoutingRule, ProviderLookup, lookup_sms, Routes, SmsRouter, routes_of, available,
  first_available, extract_country_code, get_provider_for_number,
}

-- A copy: nothing is shared with the router's own table.
unfoldable pub list_all_routes : {P : Type 0} → SmsRouter P → Routes
list_all_routes r = r.routes

pub data SendError : Type 0 where
  no_provider : List ℕ → SendError
  send_failed : String → SendError

unfoldable pub answer : Result String SendResponse → Result SendError SendResponse
answer (ok resp) = ok resp
answer (err e) = err (send_failed e)

-- The registry's Get, and the assertion that a provider sends SMS.
unfoldable pub sms_only : {P : Type 0} → (P → Bool) → Option P → Option P
sms_only is_sms none = none
sms_only is_sms (some p) = if is_sms p then some p else none

unfoldable pub registry_lookup : {P : Type 0} → (P → Bool) → Registry P → ProviderLookup P
unfolding get sms_only
registry_lookup is_sms registry = some (λ code. sms_only is_sms (get code registry))

module _ {P D : Type 0} (enabled : P → Bool)
    (send : P → SendRequest D → Result String SendResponse) where
  -- The provider that was asked to send, if one was, and what the caller gets.
  unfoldable pub send_sms : SendRequest D → SmsRouter P → Option P × Result SendError SendResponse
  unfolding get_provider_for_number answer
  send_sms req r = elim (get_provider_for_number enabled req.recipient_phone r) [
    | err country ↦ (none, err (no_provider country))
    | ok (p, _) ↦ (some p, answer (send p req))
  ]

-- A provider that is listed under a code, sends SMS and is enabled.
pub record Serves {P : Type 0} (code : P → String) (is_sms enabled : P → Bool) (ps : List P)
    (c : String) (p : P) : Type 0 where
  pub found : find code c ps ≡ some p
  pub sms : is_sms p ≡ true
  pub able : enabled p ≡ true

passes : {P : Type 0} → (P → Bool) → Option P → Bool
passes f none = false
passes f (some p) = f p

-- What a test lets through.
kept-some :
    {P : Type 0} (f : P → Bool) (q p : P)
    → (if f q then some q else none) ≡ some p
    → (some q ≡ some p) × (f p ≡ true)
unfolding passes
kept-some f q p =
    if_both (λ o. o ≡ some p → (some q ≡ some p) × (f p ≡ true)) (f q) (some q) none
      (λ on h. (h, ap (λ o. passes f o) (sym h) ∙ on)) (λ off h. absurd (ground (arith, h)))

sms_only-some :
    {P : Type 0} (is_sms : P → Bool) (o : Option P) (p : P)
    → sms_only is_sms o ≡ some p
    → (o ≡ some p) × (is_sms p ≡ true)
unfolding sms_only
sms_only-some is_sms none p h = absurd (ground (arith, h))
sms_only-some is_sms (some q) p h = kept-some is_sms q p h

module _ {P : Type 0} (is_sms enabled : P → Bool) (registry : Registry P) where
  abbrev table : ProviderLookup P
  table = registry_lookup is_sms registry

  gate :
      (o : Option P)
      → elim o as (λ _. Option P) [
        | none ↦ none
        | some sms ↦ if enabled sms then some sms else none
      ]
        ≡ sms_only enabled o
  unfolding sms_only
  gate none = refl
  gate (some p) = refl

  available-some :
      (c : String) (p : P)
      → available enabled table c ≡ some p
      → (get c registry ≡ some p) × (is_sms p ≡ true) × (enabled p ≡ true)
  unfolding available lookup_sms registry_lookup
  available-some c p h =
      let sms_provider = sms_only is_sms (get c registry) in
      let (same, able) = sms_only-some enabled sms_provider p (sym (gate sms_provider) ∙ h) in
      let (found, sms) = sms_only-some is_sms (get c registry) p same in (found, sms, able)

  available-none :
      (c : String) (p : P)
      → available enabled table c ≡ none
      → get c registry ≡ some p
      → is_sms p ≡ true
      → enabled p ≡ true
      → ⊥
  unfolding available lookup_sms registry_lookup sms_only
  available-none c p h found sms able = ground (arith, h, found, sms, able)

  skips :
      (rule : SmsRoutingRule) (rules : List SmsRoutingRule)
      → (rule.is_active && is_some (available enabled table rule.provider_code)) ≡ false
      → first_available enabled table (rule ∷ rules) ≡ first_available enabled table rules
  unfolding first_available
  skips rule rules off =
      if_false (rule.is_active && is_some (available enabled table rule.provider_code))
        (available enabled table rule.provider_code) (first_available enabled table rules) off

  takes :
      (rule : SmsRoutingRule) (rules : List SmsRoutingRule)
      → (rule.is_active && is_some (available enabled table rule.provider_code)) ≡ true
      → first_available enabled table (rule ∷ rules) ≡ available enabled table rule.provider_code
  unfolding first_available
  takes rule rules on =
      if_true (rule.is_active && is_some (available enabled table rule.provider_code))
        (available enabled table rule.provider_code) (first_available enabled table rules) on

module _ {P : Type 0} (code : P → String) (supported_channels : P → List String)
    (is_sms enabled : P → Bool) (registered : List (Option P)) where
  -- No provider that was accepted under this code sends SMS and is enabled.
  unfoldable pub Unserved : String → Type 0
  Unserved c = (p : P) → Serves code is_sms enabled (accepted code registered []) c p → ⊥

  -- A rule that is inactive or has no provider.
  unfoldable pub Useless : SmsRoutingRule → Type 0
  unfolding Unserved
  Useless rule = rule.is_active ≡ true → Unserved rule.provider_code

  -- The first rule that is of use, and its provider.
  pub record FirstUseful (rules : List SmsRoutingRule) (p : P) : Type 0 where
    pub before : List SmsRoutingRule
    pub rule : SmsRoutingRule
    pub after : List SmsRoutingRule
    pub split : rules ≡ before ++ rule ∷ after
    pub useless : All Useless before
    pub active : rule.is_active ≡ true
    pub serves : Serves code is_sms enabled (accepted code registered []) rule.provider_code p

  abbrev kept : Registry P
  kept = register_all code supported_channels registered new_registry

  served :
      (c : String) (p : P)
      → available enabled (registry_lookup is_sms kept) c ≡ some p
      → Serves code is_sms enabled (accepted code registered []) c p
  served c p h =
      let (found, sms, able) = available-some is_sms enabled kept c p h in
      record {
        found = sym ((registered-Agrees code supported_channels registered).gets c) ∙ found;
        sms = sms;
        able = able;
      }

  unserved : (c : String) → available enabled (registry_lookup is_sms kept) c ≡ none → Unserved c
  unfolding Unserved
  unserved c h p v =
      available-none is_sms enabled kept c p h
        ((registered-Agrees code supported_channels registered).gets c ∙ v.found) v.sms v.able

  Useless-rule :
      (rule : SmsRoutingRule)
      → (rule.is_active
          && is_some (available enabled (registry_lookup is_sms kept) rule.provider_code))
        ≡ false
      → Useless rule
  unfolding Useless
  Useless-rule rule off on =
      unserved rule.provider_code
        (elim (Option-cases (available enabled (registry_lookup is_sms kept) rule.provider_code)) [
          | inl h ↦ h
          | inr (p, h) ↦ absurd (ground (arith, off, on, h))
        ])

  -- What the loop over the rules finds, or that it finds nothing.
  first_useful :
      (rules : List SmsRoutingRule)
      → ((p : P) × (first_available enabled (registry_lookup is_sms kept) rules ≡ some p)
          × FirstUseful rules p)
        ⊎ ((first_available enabled (registry_lookup is_sms kept) rules ≡ none) × All Useless rules)
  unfolding first_available
  first_useful [] = inr (refl, tt)
  first_useful (rule ∷ rules) =
      elim (Bool-cases (
        rule.is_active
        && is_some (available enabled (registry_lookup is_sms kept) rule.provider_code))) [
          | inl on ↦
              elim (Option-cases
                (available enabled (registry_lookup is_sms kept) rule.provider_code)) [
                  | inl h ↦ absurd (ground (arith, on, h))
                  | inr (p, h) ↦ inl (
                    p,
                    takes is_sms enabled kept rule rules on ∙ h,
                    record {
                      before = [];
                      rule = rule;
                      after = rules;
                      split = refl;
                      useless = tt;
                      active = ground (arith, on);
                      serves = served rule.provider_code p h;
                    },
                  )
                ]
          | inr off ↦
              let here = Useless-rule rule off in
              let skip = skips is_sms enabled kept rule rules off in
              elim (first_useful rules) [
                | inl (p, h, v) ↦ inl (
                  p,
                  skip ∙ h,
                  record {
                    before = rule ∷ v.before;
                    rule = v.rule;
                    after = v.after;
                    split = ap (λ rs. rule ∷ rs) v.split;
                    useless = (here, v.useless);
                    active = v.active;
                    serves = v.serves;
                  },
                )
                | inr (h, v) ↦ inr (skip ∙ h, (here, v))
              ]
        ]

module _ {P D : Type 0} (code : P → String) (supported_channels : P → List String)
    (is_sms enabled : P → Bool) (send : P → SendRequest D → Result String SendResponse) where
  -- The rules of the number's country.
  abbrev rules_for : SendRequest D → SmsRouter P → List SmsRoutingRule
  rules_for req r = routes_of (extract_country_code req.recipient_phone) r.routes

  -- The three outcomes of SendSMS: through a rule, through the default route, or not at all.
  unfoldable pub Outcome : List (Option P) → SendRequest D → SmsRouter P → Type 0
  unfolding Useless Unserved
  Outcome registered req r =
      ((p : P) × (send_sms enabled send req r ≡ (some p, answer (send p req)))
        × FirstUseful code supported_channels is_sms enabled registered (rules_for req r) p)
      ⊎ (((p : P) × (send_sms enabled send req r ≡ (some p, answer (send p req)))
            × All (Useless code supported_channels is_sms enabled registered) (rules_for req r)
            × Serves code is_sms enabled (accepted code registered []) r.default_route.provider_code
                p)
          ⊎ ((send_sms enabled send req r
                ≡ (none, err (no_provider (extract_country_code req.recipient_phone))))
              × All (Useless code supported_channels is_sms enabled registered) (rules_for req r)
              × Unserved code supported_channels is_sms enabled registered
                  r.default_route.provider_code))

  -- Whatever was registered and whatever the routes are, a provider serves a code when it was the first
  -- accepted under it, sends SMS and is enabled. The message goes out through the provider that serves
  -- the first active rule of the number's country that is served at all, and its answer is the
  -- caller's; where no active rule is served, through the one that serves the default route; and where
  -- none serves that either, through none, and the caller gets the error with the country.
  pub send_sms-Outcome :
      (registered : List (Option P)) (req : SendRequest D) (r : SmsRouter P)
      → r.registry
        ≡ registry_lookup is_sms (register_all code supported_channels registered new_registry)
      → Outcome registered req r
  unfolding Outcome send_sms get_provider_for_number
  send_sms-Outcome registered req r e =
      let table = registry_lookup is_sms (kept code supported_channels is_sms enabled registered) in
      let rules = routes_of (extract_country_code req.recipient_phone) r.routes in
      let c = r.default_route.provider_code in
      elim (first_useful code supported_channels is_sms enabled registered rules) [
        | inl (p, h, v) ↦
            let h' = subst (λ g. first_available enabled g rules ≡ some p) (sym e) h in
            inl (p, rw (send_sms, get_provider_for_number, h') refl, v)
        | inr (h, v) ↦
            let h' = subst (λ g. first_available enabled g rules ≡ none) (sym e) h in
            elim (Option-cases (available enabled r.registry c)) [
              | inr (p, k) ↦ inr (
                  inl (
                    p,
                    rw (send_sms, get_provider_for_number, h', k) refl,
                    v,
                    served code supported_channels is_sms enabled registered c p
                        (subst (λ g. available enabled g c ≡ some p) e k),
                  ))
              | inl k ↦ inr (
                  inr (
                    rw (send_sms, get_provider_for_number, h', k) refl,
                    v,
                    unserved code supported_channels is_sms enabled registered c
                        (subst (λ g. available enabled g c ≡ none) e k),
                  ))
            ]
      ]
