-- ===== src/ProviderRegistry.antt =====
-- communication/provider: the registry of delivery providers, and the messages that they take. A
-- provider is of the type `P`, by its methods Code and SupportedChannels; a value of Go's `any` is of
-- the type `D`.
pub mod Accepted
mod Examples
use gopkg.Common.{
  ℕ, Bool, true, false, List, [], ◌∷◌, ◌++◌, Option, none, some, String, str_eq, is_some, length,
  if◌then◌else◌, string_comparable,
}
use gopkg.Common.Assoc
use gopkg.Common.Assoc.{keys}

-- The number of the recipient is text as code points, which the router reads.
pub record SendRequest (D : Type 0) : Type 0 where
  pub recipient_email : String
  pub recipient_phone : List ℕ
  pub recipient_device_token : String
  pub recipient_telegram_chat_id : String
  pub subject : String
  pub body : String
  pub html_body : String
  pub template_code : String
  pub language : String
  pub correlation_id : String
  pub context_data : List (String × String)
  pub options : List (String × D)

pub record SendResponse : Type 0 where
  pub success : Bool
  pub provider_code : String
  pub provider_message_id : String
  pub error : String
  pub raw_response : List ℕ

pub record Registry (P : Type 0) : Type 0 where
  pub providers : List (String × P)
  pub by_channel : List (String × List P)

pub data Error : Type 0 where
  nil_provider : Error
  empty_code : Error
  already_registered : String → Error

unfoldable pub new_registry : {P : Type 0} → Registry P
new_registry = record { providers = []; by_channel = [] }

-- The slice under a key, nil where there is none.
unfoldable pub slice_of : {P : Type 0} → String → List (String × List P) → List P
unfolding Assoc.lookup
slice_of ch m = elim (Assoc.lookup ch m) [ none ↦ [] | some ps ↦ ps ]

-- The loop of Register over the channels of `p`.
unfoldable pub add_channels :
    {P : Type 0} → List String → P → List (String × List P) → List (String × List P)
unfolding slice_of Assoc.insert
add_channels [] p m = m
add_channels (ch ∷ chs) p m = add_channels chs p (Assoc.insert ch (slice_of ch m ++ p ∷ []) m)

module _ {P : Type 0} (code : P → String) (supported_channels : P → List String) where
  -- A provider that is there; the code is tested before the map is read.
  unfoldable pub register_one : P → Registry P → Registry P × Option Error
  unfolding add_channels Assoc.lookup Assoc.insert
  register_one p r =
      if str_eq (code p) ""
      then (r, some empty_code)
      else if is_some (Assoc.lookup (code p) r.providers)
      then (r, some (already_registered (code p)))
      else (
        record {
          providers = Assoc.insert (code p) p r.providers;
          by_channel = add_channels (supported_channels p) p r.by_channel;
        },
        none,
      )

  unfoldable pub register : Option P → Registry P → Registry P × Option Error
  unfolding register_one
  register none r = (r, some nil_provider)
  register (some p) r = register_one p r

module _ {P : Type 0} where
  unfoldable pub get : String → Registry P → Option P
  unfolding Assoc.lookup
  get c r = Assoc.lookup c r.providers

  unfoldable pub by_channel : String → Registry P → List P
  unfolding slice_of
  by_channel ch r = slice_of ch r.by_channel

  -- The keys of the map, in no order that is promised.
  unfoldable pub codes : Registry P → List String
  codes r = keys r.providers

  unfoldable pub len : Registry P → ℕ
  len r = length r.providers
