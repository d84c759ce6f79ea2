-- ===== src/SmsRouter/Routing.antt =====
-- communication/router/sms_router.go: whatever was loaded and added, the routes of a country are in
-- order, so that the provider chosen for a number is the first that is available.
use gopkg.Common.{
  ℕ, zero, suc, ◌≡◌, refl, sym, ◌∙◌, arith, subst, Bool, true, false, ◌&&◌, List, [], ◌∷◌, ◌++◌,
  if◌then◌else◌, get_elem?, All, Bool-cases, Option-cases, inl, inr, some, is_some, ok,
  list_comparable, nat_comparable, list_eq,
}
use gopkg.Common.Assoc
use gopkg.SmsRouter.{
  SmsRoutingRule, ProviderLookup, SmsRouter, Routes, new, sort_rules, routes_of, append_route,
  load_active, sort_all, load_routes, add_route, set_default_route, get_routes_for_country,
  available, first_available, extract_country_code, get_provider_for_number,
}
use gopkg.SmsRouter.Sorting.{◌≼◌, Sorted, sort_rules-Sorted}

pub data Call : Type 0 where
  loads : List SmsRoutingRule → Call
  adds : SmsRoutingRule → Call
  sets_default : SmsRoutingRule → Call

module _ {P : Type 0} where
  unfoldable pub call : Call → SmsRouter P → SmsRouter P
  unfolding load_routes add_route set_default_route
  call (loads rules) r = load_routes rules r
  call (adds rule) r = add_route rule r
  call (sets_default rule) r = set_default_route rule r

  unfoldable pub run_calls : List Call → SmsRouter P → SmsRouter P
  unfolding call
  run_calls [] r = r
  run_calls (c ∷ cs) r = run_calls cs (call c r)

InOrder : Routes → Type 0
InOrder routes = (country : List ℕ) → Sorted (routes_of country routes)

routes_of-sort_all :
    (country : List ℕ) (routes : Routes)
    → routes_of country (sort_all routes) ≡ sort_rules (routes_of country routes)
unfolding routes_of sort_all Assoc.lookup sort_rules
routes_of-sort_all country [] = refl
routes_of-sort_all country ((c, rules) ∷ rest) = ground (arith, routes_of-sort_all country rest)

routes_of-insert :
    (country c : List ℕ) (rules : List SmsRoutingRule) (routes : Routes)
    → routes_of country (Assoc.insert c rules routes)
      ≡ (if list_eq nat_comparable c country then rules else routes_of country routes)
unfolding routes_of
routes_of-insert country c rules routes = ground (arith, Assoc.lookup-insert c country rules routes)

add-InOrder :
    {P : Type 0} (rule : SmsRoutingRule) (r : SmsRouter P)
    → InOrder (r.routes)
    → InOrder ((add_route rule r).routes)
unfolding add_route append_route InOrder
add-InOrder rule r o country =
    let c = rule.country_code in
    let added = append_route rule (r.routes) in
    elim (Bool-cases (list_eq nat_comparable c country)) [
      | inl h ↦
          rw (routes_of-insert country c (sort_rules (routes_of c added)) added, h)
            (sort_rules-Sorted (routes_of c added))
      | inr h ↦
          rw
            (
              routes_of-insert country c (sort_rules (routes_of c added)) added,
              h,
              routes_of-insert country c (routes_of c (r.routes) ++ rule ∷ []) (r.routes),
              h,
            )
            (o country)
    ]

call-InOrder :
    {P : Type 0} (c : Call) (r : SmsRouter P) → InOrder (r.routes) → InOrder ((call c r).routes)
unfolding call load_routes set_default_route InOrder
call-InOrder (loads rules) r o country =
    rw (routes_of-sort_all country (load_active rules []))
      (sort_rules-Sorted (routes_of country (load_active rules [])))
call-InOrder (adds rule) r o country = add-InOrder rule r o country
call-InOrder (sets_default rule) r o country = o country

run_calls-InOrder :
    {P : Type 0} (cs : List Call) (r : SmsRouter P)
    → InOrder (r.routes)
    → InOrder ((run_calls cs r).routes)
unfolding run_calls
run_calls-InOrder [] r o = o
run_calls-InOrder (c ∷ cs) r o = run_calls-InOrder cs (call c r) (call-InOrder c r o)

-- After any calls of LoadRoutes, AddRoute and SetDefaultRoute on a new router, the routes of every
-- country are in order of priority.
pub routes-Sorted :
    {P : Type 0} (registry : ProviderLookup P) (cs : List Call) (country : List ℕ)
    → Sorted (get_routes_for_country country (run_calls cs (new registry)))
unfolding get_routes_for_country new InOrder routes_of Assoc.lookup Sorted
routes-Sorted registry cs country = run_calls-InOrder cs (new registry) (λ c. tt) country

module _ {P : Type 0} (enabled : P → Bool) (registry : ProviderLookup P) where
  -- A rule that is active and names a provider that can send.
  unfoldable pub usable : SmsRoutingRule → Bool
  usable rule = rule.is_active && is_some (available enabled registry (rule.provider_code))

  -- `p` serves a usable rule whose priority is no worse than that of `rule`.
  pub record Best (rules : List SmsRoutingRule) (p : P) (rule : SmsRoutingRule) : Type 0 where
    pub index : ℕ
    pub best : SmsRoutingRule
    pub in_rules : get_elem? rules index ≡ some best
    pub active : best.is_active ≡ true
    pub serves : available enabled registry (best.provider_code) ≡ some p
    pub first : best ≼ rule

some_inj : {x y : SmsRoutingRule} → some x ≡ some y → x ≡ y
some_inj h = ground arith

All-get :
    (Q : SmsRoutingRule → Type 0) (rules : List SmsRoutingRule) (i : ℕ) (rule : SmsRoutingRule)
    → All Q rules
    → get_elem? rules i ≡ some rule
    → Q rule
All-get Q [] i rule qs h = ground arith
All-get Q (x ∷ xs) zero rule (q, qs) h = subst Q (some_inj h) q
All-get Q (x ∷ xs) (suc i) rule (q, qs) h = All-get Q xs i rule qs h

tail-Sorted : (x : SmsRoutingRule) (xs : List SmsRoutingRule) → Sorted (x ∷ xs) → Sorted xs
unfolding Sorted
tail-Sorted x xs s = s.1

module _ {P : Type 0} (enabled : P → Bool) (registry : ProviderLookup P) where
  unusable_skipped :
      (x : SmsRoutingRule) (xs : List SmsRoutingRule)
      → usable enabled registry x ≡ false
      → first_available enabled registry (x ∷ xs) ≡ first_available enabled registry xs
  unfolding first_available usable
  unusable_skipped x xs u = rw (u)

  usable_chosen :
      (x : SmsRoutingRule) (xs : List SmsRoutingRule)
      → usable enabled registry x ≡ true
      → (p : P) × (first_available enabled registry (x ∷ xs) ≡ some p)
        × (available enabled registry (x.provider_code) ≡ some p)
        × (x.is_active ≡ true)
  unfolding first_available usable
  usable_chosen x xs u = elim (Option-cases (available enabled registry (x.provider_code))) [
    | inl e ↦ ground arith
    | inr (p, e) ↦ (p, ground arith, e, ground arith)
  ]

  lower_first :
      (x : SmsRoutingRule) (xs : List SmsRoutingRule) (i : ℕ) (rule : SmsRoutingRule)
      → Sorted (x ∷ xs)
      → get_elem? (x ∷ xs) i ≡ some rule
      → x ≼ rule
  unfolding Sorted
  lower_first x xs zero rule s at = rw (sym (some_inj at)) omega arith
  lower_first x xs (suc i) rule (low, _) at = All-get (λ r. x ≼ r) xs i rule low at

  chosen_here :
      (x : SmsRoutingRule) (xs : List SmsRoutingRule) (i : ℕ) (rule : SmsRoutingRule)
      → Sorted (x ∷ xs)
      → get_elem? (x ∷ xs) i ≡ some rule
      → usable enabled registry x ≡ true
      → (p : P) × (first_available enabled registry (x ∷ xs) ≡ some p)
        × Best enabled registry (x ∷ xs) p rule
  chosen_here x xs i rule s at u =
      let (p, chosen, serves, active) = usable_chosen x xs u in
      (
        p,
        chosen,
        record {
          index = 0;
          best = x;
          in_rules = refl;
          active = active;
          serves = serves;
          first = lower_first x xs i rule s at;
        },
      )

  chosen_from :
      (rules : List SmsRoutingRule) (i : ℕ) (rule : SmsRoutingRule)
      → Sorted rules
      → get_elem? rules i ≡ some rule
      → usable enabled registry rule ≡ true
      → (p : P) × (first_available enabled registry rules ≡ some p)
        × Best enabled registry rules p rule
  chosen_from [] i rule s at u = ground arith
  chosen_from (x ∷ xs) zero rule s at u = chosen_here x xs 0 rule s at (rw (some_inj at) u)
  chosen_from (x ∷ xs) (suc i) rule s at u = elim (Bool-cases (usable enabled registry x)) [
    | inl h ↦ chosen_here x xs (suc i) rule s at h
    | inr h ↦
        let (p, chosen, b) = chosen_from xs i rule (tail-Sorted x xs s) at u in
        (
          p,
          unusable_skipped x xs h ∙ chosen,
          record {
            index = suc (b.index);
            best = b.best;
            in_rules = b.in_rules;
            active = b.active;
            serves = b.serves;
            first = b.first;
          },
        )
  ]

new_registry : {P : Type 0} (g : ProviderLookup P) → (new g).registry ≡ g
unfolding new
new_registry g = refl

run_calls-registry :
    {P : Type 0} (cs : List Call) (r : SmsRouter P) → (run_calls cs r).registry ≡ r.registry
unfolding run_calls call load_routes add_route set_default_route
run_calls-registry [] r = refl
run_calls-registry (loads rules ∷ cs) r = run_calls-registry cs (load_routes rules r)
run_calls-registry (adds rule ∷ cs) r = run_calls-registry cs (add_route rule r)
run_calls-registry (sets_default rule ∷ cs) r = run_calls-registry cs (set_default_route rule r)

get_provider_first :
    {P : Type 0} (enabled : P → Bool) (phone : List ℕ) (r : SmsRouter P) (p : P)
    → first_available enabled (r.registry) (get_routes_for_country (extract_country_code phone) r)
      ≡ some p
    → get_provider_for_number enabled phone r ≡ ok (p, extract_country_code phone)
unfolding get_provider_for_number get_routes_for_country
get_provider_first enabled phone r p h = ground arith

-- When a rule of the number's country is active and its provider can send, the number gets the
-- provider of a rule that is active and can send too and whose priority is no worse, whatever calls
-- made the router from a new one.
pub lowest_chosen :
    {P : Type 0} (enabled : P → Bool) (registry : ProviderLookup P) (cs : List Call)
    (phone : List ℕ) (i : ℕ) (rule : SmsRoutingRule)
    → get_elem?
        (get_routes_for_country (extract_country_code phone) (run_calls cs (new registry)))
        i
      ≡ some rule
    → usable enabled registry rule ≡ true
    → (p : P) × (get_provider_for_number enabled phone (run_calls cs (new registry))
        ≡ ok (p, extract_country_code phone))
      × Best enabled registry
          (get_routes_for_country (extract_country_code phone) (run_calls cs (new registry)))
          p
          rule
lowest_chosen enabled registry cs phone i rule at u =
    let r = run_calls cs (new registry) in
    let country = extract_country_code phone in
    let rules = get_routes_for_country country r in
    let (p, chosen, b) =
      chosen_from enabled registry rules i rule (routes-Sorted registry cs country) at u in
    (
      p,
      get_provider_first enabled phone r p (
          subst (λ g. first_available enabled g rules ≡ some p)
            (sym (run_calls-registry cs (new registry) ∙ new_registry registry)) chosen),
      b,
    )
