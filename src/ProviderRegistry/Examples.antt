-- ===== src/ProviderRegistry/Examples.antt =====
-- communication/provider/registry.go: three providers, of which two have the same code.
use gopkg.Common.{◌≡◌, refl, List, [], ◌∷◌, Option, none, some, String}
use gopkg.ProviderRegistry.{
  Registry, new_registry, register, by_channel, codes, already_registered, empty_code, nil_provider,
}
use gopkg.ProviderRegistry.Accepted.{accepted, register_all, Agrees, registered-Agrees}

-- A provider as its code and its channels.
abbrev Pair : Type 0
Pair = String × List String

abbrev code : Pair → String
code p = p.0

abbrev channels : Pair → List String
channels p = p.1

abbrev meta : Pair
meta = ("meta", "whatsapp" ∷ "sms" ∷ [])

abbrev twilio : Pair
twilio = ("twilio", "sms" ∷ [])

abbrev calls : List (Option Pair)
calls = some meta ∷ none ∷ some twilio ∷ some ("meta", "email" ∷ []) ∷ some ("", "sms" ∷ []) ∷ []

abbrev filled : Registry Pair
filled = register_all code channels calls new_registry

sms_in_order : by_channel "sms" filled ≡ meta ∷ twilio ∷ []
unfolding by_channel register_all new_registry
sms_in_order = refl

no_email : by_channel "email" filled ≡ []
unfolding by_channel register_all new_registry
no_email = refl

two_codes : codes filled ≡ "meta" ∷ "twilio" ∷ []
unfolding codes register_all new_registry
two_codes = refl

second_refused :
    (register code channels (some ("meta", "email" ∷ [])) filled).1
    ≡ some (already_registered "meta")
unfolding register register_all new_registry
second_refused = refl

no_code : (register code channels (some ("", [])) filled).1 ≡ some empty_code
unfolding register
no_code = refl

not_there : (register code channels none filled).1 ≡ some nil_provider
unfolding register
not_there = refl

registered-Agrees_example : Agrees code channels filled (accepted code calls [])
registered-Agrees_example = registered-Agrees code channels calls
