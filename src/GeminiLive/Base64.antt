-- ===== src/GeminiLive/Base64.antt =====
-- encoding/base64, StdEncoding: the standard library's coding of bytes as voice/llm/gemini/llm.go uses it.
-- Characters are their codes; the padding is 61.
pub mod Inverse
use gopkg.Common.{
  ℕ, zero, suc, ◌+◌, ◌-◌, ◌*◌, ◌/◌, ◌%◌, Bool, true, false, ◌&&◌, ◌||◌, List, [], ◌∷◌, ◌++◌, Option,
  none, some, ltb, leb, ◌==◌, if◌then◌else◌,
}

-- The digit of a number below 64.
unfoldable pub digit : ℕ → ℕ
digit n =
    if ltb n 26
    then 65 + n
    else if ltb n 52
    then 71 + n
    else if ltb n 62
    then n - 4
    else if n == 62
    then 43
    else 47

unfoldable pub value_of : ℕ → Option ℕ
value_of c =
    if leb 65 c && leb c 90
    then some (c - 65)
    else if leb 97 c && leb c 122
    then some (c - 71)
    else if leb 48 c && leb c 57
    then some (c + 4)
    else if c == 43
    then some 62
    else if c == 47
    then some 63
    else none

unfoldable pub encode : List ℕ → List ℕ
unfolding digit
encode [] = []
encode (a ∷ []) = digit (a / 4) ∷ digit (a % 4 * 16) ∷ 61 ∷ 61 ∷ []
encode (a ∷ b ∷ []) = digit (a / 4) ∷ digit (a % 4 * 16 + b / 16) ∷ digit (b % 16 * 4) ∷ 61 ∷ []
encode (a ∷ b ∷ c ∷ rest) =
    digit (a / 4)
    ∷ digit (a % 4 * 16 + b / 16)
    ∷ digit (b % 16 * 4 + c / 64)
    ∷ digit (c % 64)
    ∷ encode rest

-- Line breaks are skipped wherever they stand.
unfoldable pub without_breaks : List ℕ → List ℕ
without_breaks [] = []
without_breaks (c ∷ cs) =
    let rest = without_breaks cs in if c == 10 || c == 13 then rest else c ∷ rest

-- Two, three or four digits to one, two or three bytes.
unfoldable pub one_byte : Option ℕ → Option ℕ → Option (List ℕ)
one_byte (some p) (some q) = some ((p * 4 + q / 16) ∷ [])
one_byte _ _ = none

unfoldable pub two_bytes : Option ℕ → Option ℕ → Option ℕ → Option (List ℕ)
two_bytes (some p) (some q) (some r) = some ((p * 4 + q / 16) ∷ (q % 16 * 16 + r / 4) ∷ [])
two_bytes _ _ _ = none

unfoldable pub three_bytes :
    Option ℕ → Option ℕ → Option ℕ → Option ℕ → Option (List ℕ) → Option (List ℕ)
three_bytes (some p) (some q) (some r) (some t) (some rest) =
    some ((p * 4 + q / 16) ∷ (q % 16 * 16 + r / 4) ∷ (r % 4 * 64 + t) ∷ rest)
three_bytes _ _ _ _ _ = none

-- The last four characters may end in padding.
unfoldable pub last_quad : ℕ → ℕ → ℕ → Option (List ℕ)
unfolding value_of one_byte two_bytes
last_quad a b c =
    if c == 61
    then one_byte (value_of a) (value_of b)
    else two_bytes (value_of a) (value_of b) (value_of c)

unfoldable pub decode_quads : List ℕ → Option (List ℕ)
unfolding value_of three_bytes last_quad
decode_quads [] = some []
decode_quads (a ∷ b ∷ c ∷ d ∷ []) =
    if d == 61
    then last_quad a b c
    else three_bytes (value_of a) (value_of b) (value_of c) (value_of d) (some [])
decode_quads (a ∷ b ∷ c ∷ d ∷ rest) =
    three_bytes (value_of a) (value_of b) (value_of c) (value_of d) (decode_quads rest)
decode_quads _ = none

unfoldable pub decode : List ℕ → Option (List ℕ)
unfolding without_breaks decode_quads
decode cs = decode_quads (without_breaks cs)
