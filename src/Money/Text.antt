-- ===== src/Money/Text.antt =====
-- money/money.go, String, and that its text tells the amount and the currency.
use gopkg.Common.{
  ℕ, zero, suc, ◌+◌, ◌-◌, ◌*◌, ◌/◌, ◌%◌, ◌<◌, ◌≤◌, ◌≡◌, ◌≢◌, ◌∙◌, refl, sym, ap, ap₂, arith, inl,
  inr, Bool, true, false, Bool-cases, List, [], ◌∷◌, ◌++◌, append_assoc, String, length,
  length-append, ltb, ltb→lt, ◌==◌, if◌then◌else◌, ℤ, pos, negsuc, neg_ℤ, quot_ℤ, rem_ℤ, is_neg,
  signed, ok, err,
}
use native.Mathlib.Nat.{mod-lt, div-add-mod'}
use gopkg.Common.Decimal.{digits_from, digits, digits_int, pow10, length-digits_from}
use gopkg.Common.Text.{codes}
use gopkg.Money.{Money, Scales, code, scale}
use gopkg.Money.Int64.{Fits, wrap, wrap_of_Fits, min_int64}

-- strings.Repeat("0", k)
unfoldable pub zeros : ℕ → List ℕ
zeros zero = []
zeros (suc k) = 48 ∷ zeros k

unfoldable pub padded : ℕ → List ℕ → List ℕ
unfolding zeros
padded s ds = if ltb (length ds) s then zeros (s - length ds) ++ ds else ds

-- The sign, `abs` and the code of a known currency with the scale `s`.
unfoldable pub amount : ℕ → Bool → ℤ → List ℕ → List ℕ
unfolding digits_int padded pow10 quot_ℤ rem_ℤ
amount zero negative abs c = (if negative then 45 ∷ [] else []) ++ (digits_int abs ++ 32 ∷ c)
amount (suc s) negative abs c =
    (if negative then 45 ∷ [] else [])
    ++ (digits_int (quot_ℤ abs (pos (pow10 (suc s))))
        ++ (46 ∷ padded (suc s) (digits_int (rem_ℤ abs (pos (pow10 (suc s))))) ++ 32 ∷ c))

module _ (upper : String → String) where
  unfoldable pub to_string : Scales → Money → List ℕ
  unfolding scale amount wrap
  to_string r m = elim (scale upper r m.currency) [
    | err e ↦ digits_int m.minor ++ (codes " <unknown:" ++ (codes m.currency ++ codes ">"))
    | ok s ↦
        amount s (is_neg m.minor) (if is_neg m.minor then wrap (neg_ℤ m.minor) else m.minor)
          (codes (code upper m.currency))
  ]

-- A reader of such a text: a `-` makes the amount negative, the digits that stand behind the point are
-- counted, and what stands after the space is the currency.
unfoldable pub read_amount : Bool → Bool → ℕ → ℕ → List ℕ → ℤ × ℕ × List ℕ
read_amount negative pointed places n [] = (signed negative n, places, [])
read_amount negative pointed places n (c ∷ cs) =
    let minus = read_amount true pointed places n cs in
    let point = read_amount negative true places n cs in
    let places' = if pointed then suc places else places in
    let digit = read_amount negative pointed places' (n * 10 + (c - 48)) cs in
    if c == 32
    then (signed negative n, places, cs)
    else if c == 45
    then minus
    else if c == 46
    then point
    else digit

-- The places after some more digits.
advance : Bool → ℕ → ℕ → ℕ
advance true k l = k + l
advance false k l = k

advance_none : (q : Bool) (k : ℕ) → advance q k 0 ≡ k
unfolding advance
advance_none true k = omega arith
advance_none false k = refl

advance_one : (q : Bool) (k : ℕ) → (if q then suc k else k) ≡ advance q k 1
unfolding advance
advance_one true k = omega arith
advance_one false k = refl

advance-add : (q : Bool) (k a b : ℕ) → advance q (advance q k a) b ≡ advance q k (a + b)
unfolding advance
advance-add true k a b = omega arith
advance-add false k a b = refl

read_character :
    (b q : Bool) (k n d : ℕ) (cs : List ℕ)
    → d < 10
    → read_amount b q k n ((48 + d) ∷ cs) ≡ read_amount b q (if q then suc k else k) (n * 10 + d) cs
unfolding read_amount
read_character b q k n d cs h = ground (arith, h)

read_digit :
    (b q : Bool) (k n d : ℕ) (cs : List ℕ)
    → d < 10
    → read_amount b q k n ((48 + d) ∷ cs) ≡ read_amount b q (advance q k 1) (n * 10 + d) cs
read_digit b q k n d cs h =
    read_character b q k n d cs h ∙ ap (λ j. read_amount b q j (n * 10 + d) cs) (advance_one q k)

shifted : (a p n : ℕ) → (a * p + n / 10) * 10 + n % 10 ≡ a * (10 * p) + n
shifted a p n = tens a p (n / 10) (n % 10) n (omega arith)
  where
    tens : (a p q r n : ℕ) → n ≡ 10 * q + r → (a * p + q) * 10 + r ≡ a * (10 * p) + n
    tens a p q r n h = rw h (grind arith)

snoc_power : (ds : List ℕ) (d : ℕ) → pow10 (length (ds ++ d ∷ [])) ≡ 10 * pow10 (length ds)
unfolding pow10
snoc_power ds d =
    let longer : length (ds ++ d ∷ []) ≡ suc (length ds) =
      omega (arith, length-append ds (d ∷ [])) in
    ap pow10 longer

read_digits :
    (b q : Bool) (k a fuel n : ℕ) (rest : List ℕ)
    → n < fuel
    → read_amount b q k a (digits_from fuel n ++ rest)
      ≡ read_amount b q
          (advance q k (length (digits_from fuel n)))
          (a * pow10 (length (digits_from fuel n)) + n)
          rest
unfolding digits_from pow10
read_digits b q k a zero n rest h = absurd (omega (arith, h))
read_digits b q k a (suc fuel) n rest h = elim (Bool-cases (ltb n 10)) [
  | inl small ↦ rw small (
      read_digit b q k a (n % 10) rest (omega arith)
      ∙ ap (λ j. read_amount b q (advance q k 1) j rest) (omega (arith, ltb→lt n 10 small)))
  | inr more ↦
      let ds = digits_from fuel (n / 10) in
      let longer : length ds + 1 ≡ length (ds ++ (48 + n % 10) ∷ []) =
        omega (arith, length-append ds ((48 + n % 10) ∷ [])) in
      rw more (
        ap (λ zs. read_amount b q k a zs) (append_assoc ds ((48 + n % 10) ∷ []) rest)
        ∙ read_digits b q k a fuel (n / 10) ((48 + n % 10) ∷ rest) (ground (arith, h, more))
        ∙ read_digit b q (advance q k (length ds)) (a * pow10 (length ds) + n / 10) (n % 10) rest
            (omega arith)
        ∙ ap₂ (λ i j. read_amount b q i j rest)
            (advance-add q k (length ds) 1 ∙ ap (advance q k) longer)
            (shifted a (pow10 (length ds)) n
              ∙ ap (λ p. a * p + n) (sym (snoc_power ds (48 + n % 10)))))
]

ten_more : (a p : ℕ) → (a * 10 + 0) * p ≡ a * (10 * p)
ten_more a p = grind arith

read_zeros :
    (b q : Bool) (k a l : ℕ) (rest : List ℕ)
    → read_amount b q k a (zeros l ++ rest) ≡ read_amount b q (advance q k l) (a * pow10 l) rest
unfolding zeros pow10
read_zeros b q k a zero rest =
    ap₂ (λ i j. read_amount b q i j rest) (sym (advance_none q k)) (omega arith)
read_zeros b q k a (suc l) rest =
    let next : 1 + l ≡ suc l = omega arith in
    read_digit b q k a 0 (zeros l ++ rest) (omega arith)
    ∙ read_zeros b q (advance q k 1) (a * 10 + 0) l rest
    ∙ ap₂ (λ i j. read_amount b q i j rest) (advance-add q k 1 l ∙ ap (advance q k) next)
        (ten_more a (pow10 l))

pow10-add : (k l : ℕ) → pow10 (k + l) ≡ pow10 k * pow10 l
unfolding pow10
pow10-add zero l = let same : 0 + l ≡ l = omega arith in ap pow10 same ∙ omega arith
pow10-add (suc k) l =
    let next : suc k + l ≡ suc (k + l) = omega arith in
    ap pow10 next ∙ ap (λ p. 10 * p) (pow10-add k l) ∙ grouped (pow10 k) (pow10 l)
  where
    grouped : (p q : ℕ) → 10 * (p * q) ≡ 10 * p * q
    grouped p q = grind arith

regroup : (a p q n : ℕ) → a * p * q + n ≡ a * (p * q) + n
regroup a p q n = grind arith

-- The digits behind the point, filled up with zeros.
read_padded :
    (b : Bool) (a k n : ℕ) (rest : List ℕ)
    → n < pow10 (suc k)
    → read_amount b true 0 a (padded (suc k) (digits n) ++ rest)
      ≡ read_amount b true (suc k) (a * pow10 (suc k) + n) rest
unfolding padded digits advance
read_padded b a k n rest h =
    let ds = digits_from (suc n) n in
    let short : length ds ≤ suc k = length-digits_from k (suc n) n h in
    elim (Bool-cases (ltb (length ds) (suc k))) [
      | inl less ↦
          let z = suc k - length ds in
          let filled : z + length ds ≡ suc k = omega (arith, short) in
          rw less (
            ap (λ zs. read_amount b true 0 a zs) (append_assoc (zeros z) ds rest)
            ∙ read_zeros b true 0 a z (ds ++ rest)
            ∙ read_digits b true (0 + z) (a * pow10 z) (suc n) n rest (omega arith)
            ∙ ap₂ (λ i j. read_amount b true i j rest) (omega (arith, filled))
                (regroup a (pow10 z) (pow10 (length ds)) n
                  ∙ ap (λ p. a * p + n) (sym (pow10-add z (length ds)) ∙ ap pow10 filled)))
      | inr full ↦
          let same : length ds ≡ suc k = ground (arith, full, short) in
          rw full (
            read_digits b true 0 a (suc n) n rest (omega arith)
            ∙ ap₂ (λ i j. read_amount b true i j rest) (omega (arith, same))
                (ap (λ l. a * pow10 l + n) same))
    ]

digits_int-pos : (a : ℕ) → digits_int (pos a) ≡ digits a
unfolding digits_int
digits_int-pos a = let same : a + 0 ≡ a = omega arith in ap digits same

whole : (a p : ℕ) → quot_ℤ (pos a) (pos p) ≡ pos (a / p)
unfolding quot_ℤ
whole a p =
    let (e, e') : (a + 0 ≡ a) × (p + 0 ≡ p) = (omega arith, omega arith) in
    ap₂ (λ x y. pos (x / y)) e e'

fraction : (a p : ℕ) → rem_ℤ (pos a) (pos p) ≡ pos (a % p)
unfolding rem_ℤ
fraction a p =
    let (e, e') : (a + 0 ≡ a) × (p + 0 ≡ p) = (omega arith, omega arith) in
    ap₂ (λ x y. pos (x % y)) e e'

pow10-pos : (k : ℕ) → 0 < pow10 k
unfolding pow10
pow10-pos zero = omega arith
pow10-pos (suc k) = omega (arith, pow10-pos k)

read_sign :
    (b : Bool) (t : List ℕ)
    → read_amount false false 0 0 ((if b then 45 ∷ [] else []) ++ t) ≡ read_amount b false 0 0 t
unfolding read_amount
read_sign true t = refl
read_sign false t = refl

read_end : (b q : Bool) (k n : ℕ) (c : List ℕ) → read_amount b q k n (32 ∷ c) ≡ (signed b n, k, c)
unfolding read_amount
read_end b q k n c = refl

read_point :
    (b : Bool) (n : ℕ) (t : List ℕ) → read_amount b false 0 n (46 ∷ t) ≡ read_amount b true 0 n t
unfolding read_amount
read_point b n t = refl

amount_plain :
    (b : Bool) (n : ℤ) (c : List ℕ)
    → amount zero b n c ≡ (if b then 45 ∷ [] else []) ++ (digits_int n ++ 32 ∷ c)
unfolding amount digits_int
amount_plain b n c = refl

amount_parts :
    (s : ℕ) (b : Bool) (n : ℤ) (c : List ℕ)
    → amount (suc s) b n c
      ≡ (if b then 45 ∷ [] else [])
        ++ (digits_int (quot_ℤ n (pos (pow10 (suc s))))
            ++ (46 ∷ padded (suc s) (digits_int (rem_ℤ n (pos (pow10 (suc s))))) ++ 32 ∷ c))
unfolding amount digits_int padded pow10 quot_ℤ rem_ℤ
amount_parts s b n c = refl

read_whole :
    (b : Bool) (a : ℕ) (rest : List ℕ)
    → read_amount b false 0 0 (digits_int (pos a) ++ rest) ≡ read_amount b false 0 a rest
unfolding digits advance
read_whole b a rest =
    ap (λ ds. read_amount b false 0 0 (ds ++ rest)) (digits_int-pos a)
    ∙ read_digits b false 0 0 (suc a) a rest (omega arith)
    ∙ ap (λ n. read_amount b false 0 n rest) (omega arith)

read_known :
    (s : ℕ) (b : Bool) (a : ℕ) (c : List ℕ)
    → read_amount false false 0 0 (amount s b (pos a) c) ≡ (signed b a, s, c)
read_known zero b a c =
    ap (λ t. read_amount false false 0 0 t) (amount_plain b (pos a) c)
    ∙ read_sign b (digits_int (pos a) ++ 32 ∷ c)
    ∙ read_whole b a (32 ∷ c)
    ∙ read_end b false 0 a c
read_known (suc s) b a c =
    let p = pow10 (suc s) in
    ap (λ t. read_amount false false 0 0 t)
      (amount_parts s b (pos a) c
        ∙ ap₂
            (λ q r.
              (if b then 45 ∷ [] else [])
              ++ (digits_int q ++ (46 ∷ padded (suc s) (digits_int r) ++ 32 ∷ c)))
            (whole a p) (fraction a p)
        ∙ ap
            (λ ds.
              (if b then 45 ∷ [] else [])
              ++ (digits_int (pos (a / p)) ++ (46 ∷ padded (suc s) ds ++ 32 ∷ c)))
            (digits_int-pos (a % p)))
    ∙ read_sign b (digits_int (pos (a / p)) ++ (46 ∷ padded (suc s) (digits (a % p)) ++ 32 ∷ c))
    ∙ read_whole b (a / p) (46 ∷ padded (suc s) (digits (a % p)) ++ 32 ∷ c)
    ∙ read_point b (a / p) (padded (suc s) (digits (a % p)) ++ 32 ∷ c)
    ∙ read_padded b (a / p) s (a % p) (32 ∷ c) (mod-lt a (pow10-pos (suc s)))
    ∙ ap (λ n. read_amount b true (suc s) n (32 ∷ c)) (div-add-mod' a p)
    ∙ read_end b true (suc s) a c

-- What String prints behind the sign.
magnitude :
    (n : ℤ)
    → Fits n
    → n ≢ min_int64
    → (a : ℕ) × ((if is_neg n then wrap (neg_ℤ n) else n) ≡ pos a) × (signed (is_neg n) a ≡ n)
magnitude (pos k) fits most = (k, refl, refl)
magnitude (negsuc k) fits most =
    let turned : neg_ℤ (negsuc k) ≡ pos (suc k) = ground arith in
    let below : suc k < 9223372036854775808 = ground (arith, fits, most) in
    (
      suc k,
      ap wrap turned ∙ wrap_of_Fits (pos (suc k)) (omega (arith, below), omega (arith, below)),
      ground arith,
    )

module _ (upper : String → String) where
  -- For every amount but the most negative one in a currency that is registered: the text of String has
  -- as many digits behind the point as the currency's scale says, and with the point left out it is
  -- the amount in minor units, with its sign, followed by the currency's code.
  pub read-to_string :
      (r : Scales) (m : Money) (s : ℕ)
      → scale upper r m.currency ≡ ok s
      → Fits m.minor
      → m.minor ≢ min_int64
      → read_amount false false 0 0 (to_string upper r m)
        ≡ (m.minor, s, codes (code upper m.currency))
  unfolding to_string
  read-to_string r m s known fits most =
      let (a, same, back) = magnitude m.minor fits most in
      let c = codes (code upper m.currency) in
      rw (to_string, known)
        (ap (λ n. read_amount false false 0 0 (amount s (is_neg m.minor) n c)) same
          ∙ read_known s (is_neg m.minor) a c
          ∙ ap (λ n. (n, s, c)) back)
