-- ===== src/PaymentGateway.antt =====
-- financial/paymentgateway/paymentgateway.go: the reference of a payment in its callback URL. A text is
-- the list of its code points; "/" is 47 and "?" is 63.
pub mod Callback
mod Examples
use gopkg.Common.{
  ℕ, Bool, true, false, ◌&&◌, List, [], ◌∷◌, ◌++◌, Option, none, some, if◌then◌else◌, ◌==◌, Result,
  ok, err,
}

pub data Error : Type 0 where
  empty_path no_trailing_segment : Error

-- The text before the first c, and the rest from it on (strings.Index and the two slices).
unfoldable pub cut_at : ℕ → List ℕ → List ℕ × List ℕ
cut_at c [] = ([], [])
cut_at c (x ∷ xs) =
    let (before, rest) = cut_at c xs in if x == c then ([], x ∷ xs) else (x ∷ before, rest)

-- strings.TrimSuffix(s, "/") takes one slash away, strings.TrimRight(s, "/") all at the end.
unfoldable pub trim_suffix : List ℕ → List ℕ
trim_suffix [] = []
trim_suffix (x ∷ []) = if x == 47 then [] else x ∷ []
trim_suffix (x ∷ y ∷ ys) = x ∷ trim_suffix (y ∷ ys)

abbrev pub is_empty : List ℕ → Bool
is_empty [] = true
is_empty (x ∷ xs) = false

unfoldable pub trim_right : List ℕ → List ℕ
trim_right [] = []
trim_right (x ∷ xs) = let rest = trim_right xs in if x == 47 && is_empty rest then [] else x ∷ rest

-- The text after the last slash.
unfoldable pub after_last : List ℕ → Option (List ℕ)
after_last [] = none
after_last (x ∷ xs) = elim (after_last xs) [
  | some seg ↦ some seg
  | none ↦ if x == 47 then some xs else none
]

unfoldable pub build_callback_url_with_reference : List ℕ → List ℕ → List ℕ
unfolding cut_at trim_suffix
build_callback_url_with_reference [] reference = []
build_callback_url_with_reference (x ∷ xs) reference =
    let (path, query) = cut_at 63 (x ∷ xs) in trim_suffix path ++ 47 ∷ (reference ++ query)

unfoldable pub non_empty : List ℕ → Result Error (List ℕ)
non_empty [] = err no_trailing_segment
non_empty (x ∷ xs) = ok (x ∷ xs)

unfoldable pub last_segment : List ℕ → Result Error (List ℕ)
unfolding after_last non_empty
last_segment p = elim (after_last p) [ some seg ↦ non_empty seg | none ↦ non_empty p ]

unfoldable pub extract_trimmed : List ℕ → Result Error (List ℕ)
unfolding cut_at last_segment
extract_trimmed [] = err empty_path
extract_trimmed (x ∷ xs) = last_segment (cut_at 63 (x ∷ xs)).0

unfoldable pub extract_reference_from_path : List ℕ → Result Error (List ℕ)
unfolding trim_right extract_trimmed
extract_reference_from_path url_path = extract_trimmed (trim_right url_path)
