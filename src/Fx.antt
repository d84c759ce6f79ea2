-- ===== src/Fx.antt =====
-- financial/fx/fx.go: the exchange rates. A rate is a float64, the parameter Float64; the context's
-- error is an argument of each lookup.
pub mod Rates
mod Examples
use gopkg.Common.{
  ℕ, Bool, true, false, ◌&&◌, not, List, [], ◌∷◌, Option, none, some, String, str_eq,
  string_comparable, if◌then◌else◌, Result, ok, err,
}
use gopkg.Common.Assoc.{lookup, insert}
use gopkg.Common.Float.{Float64}
use Prim.Native.String

pub data Error : Type 0 where
  rate_not_found : String → String → Error
  invalid_rate : String → Error
  context_error : String → Error

-- The texts joined: from + ">" + to.
unfoldable pub join_text : String → String → String
join_text String.[] t = t
join_text (String.◌∷◌ c s) t = String.◌∷◌ c (join_text s t)

unfoldable pub key : String → String → String
unfolding join_text
key from to = join_text from (join_text ">" to)

module _ (fl : Float64) where
  unfoldable pub valid_rate : fl.Carrier → Bool
  valid_rate r = fl.lt fl.zero r && not (fl.is_inf r) && not (fl.is_nan r)

  abbrev pub Table : Type 0
  Table = List (String × fl.Carrier)

  -- Set and SetPair, on the table of Memory; an error leaves it as it was.
  unfoldable pub set_rate : String → String → fl.Carrier → Table → Table × Option Error
  unfolding valid_rate key insert
  set_rate from to rate table =
      if valid_rate rate
      then (insert (key from to) rate table, none)
      else (table, some (invalid_rate (key from to)))

  unfoldable pub set_pair : String → String → fl.Carrier → Table → Table × Option Error
  unfolding valid_rate key insert
  set_pair from to rate table =
      if valid_rate rate
      then (insert (key to from) (fl.div fl.one rate) (insert (key from to) rate table), none)
      else (table, some (invalid_rate (key from to)))

  -- The first loop of Load and of NewStatic.
  unfoldable pub first_invalid : Table → Option Error
  unfolding valid_rate
  first_invalid [] = none
  first_invalid ((k, v) ∷ rates) =
      if valid_rate v then first_invalid rates else some (invalid_rate k)

  -- Their second loop.
  unfoldable pub copy_rates : Table → Table → Table
  unfolding insert
  copy_rates [] next = next
  copy_rates ((k, v) ∷ rates) next = copy_rates rates (insert k v next)

  unfoldable pub load : Table → Table → Table × Option Error
  unfolding first_invalid copy_rates
  load rates table = elim (first_invalid rates) [
    | some e ↦ (table, some e)
    | none ↦ (copy_rates rates [], none)
  ]

  unfoldable pub new_static : Table → Result Error Table
  unfolding first_invalid copy_rates
  new_static rates = elim (first_invalid rates) [ some e ↦ err e | none ↦ ok (copy_rates rates []) ]

  -- GetRate and Convert, which Memory and Static share.
  unfoldable pub get_rate : Option String → String → String → Table → Result Error fl.Carrier
  unfolding key lookup
  get_rate (some e) from to table = err (context_error e)
  get_rate none from to table =
      if str_eq from to
      then ok fl.one
      else elim (lookup (key from to) table) [ none ↦ err (rate_not_found from to) | some r ↦ ok r ]

  unfoldable pub convert :
      Option String → fl.Carrier → String → String → Table → Result Error fl.Carrier
  unfolding get_rate
  convert ctx amount from to table = elim (get_rate ctx from to table) [
    | err e ↦ err e
    | ok rate ↦ ok (fl.mul amount rate)
  ]
