-- ===== src/GeminiLive/Base64/Inverse.antt =====
-- encoding/base64: what was encoded decodes to itself.
use gopkg.Common.{
  ℕ, ◌+◌, ◌*◌, ◌/◌, ◌%◌, ◌<◌, ◌≡◌, ◌∙◌, refl, ap, arith, false, ◌||◌, List, [], ◌∷◌, some, ◌==◌,
  All,
}
use gopkg.GeminiLive.Base64.{
  digit, value_of, encode, without_breaks, one_byte, two_bytes, three_bytes, last_quad,
  decode_quads, decode,
}

abbrev pub Bytes : List ℕ → Type 0
Bytes = All (λ b. b < 256)

value-digit : (n : ℕ) → n < 64 → value_of (digit n) ≡ some n
unfolding value_of digit
value-digit n h = ground arith

-- A digit is no padding and no line break.
digit_plain :
    (n : ℕ) → n < 64 → ((digit n == 61) ≡ false) × ((digit n == 10 || digit n == 13) ≡ false)
unfolding digit
digit_plain n h = (ground arith, ground arith)

keep_digit :
    (n : ℕ) (cs : List ℕ) → n < 64 → without_breaks (digit n ∷ cs) ≡ digit n ∷ without_breaks cs
unfolding without_breaks
keep_digit n cs h = rw (digit_plain n h).1 refl

first : (a : ℕ) → a < 256 → a / 4 < 64
first a h = omega arith

second : (a b : ℕ) → b < 256 → a % 4 * 16 + b / 16 < 64
second a b h = omega arith

third : (b c : ℕ) → c < 256 → b % 16 * 4 + c / 64 < 64
third b c h = omega arith

byte_one : (a b : ℕ) → a < 256 → b < 256 → a / 4 * 4 + (a % 4 * 16 + b / 16) / 16 ≡ a
byte_one a b h k = omega arith

byte_two :
    (a b c : ℕ)
    → b < 256
    → c < 256
    → (a % 4 * 16 + b / 16) % 16 * 16 + (b % 16 * 4 + c / 64) / 4 ≡ b
byte_two a b c h k = omega arith

byte_three : (b c : ℕ) → c < 256 → (b % 16 * 4 + c / 64) % 4 * 64 + c % 64 ≡ c
byte_three b c h = omega arith

encode_plain : (bs : List ℕ) → Bytes bs → without_breaks (encode bs) ≡ encode bs
unfolding encode without_breaks
encode_plain [] h = refl
encode_plain (a ∷ []) (p, h) =
    rw ((digit_plain (a / 4) (first a p)).1, (digit_plain (a % 4 * 16) (omega arith)).1) refl
encode_plain (a ∷ b ∷ []) (p, (q, h)) =
    rw
      (
        (digit_plain (a / 4) (first a p)).1,
        (digit_plain (a % 4 * 16 + b / 16) (second a b q)).1,
        (digit_plain (b % 16 * 4) (omega arith)).1,
      )
      refl
encode_plain (a ∷ b ∷ c ∷ rest) (p, (q, (r, h))) =
    rw
      (
        (digit_plain (a / 4) (first a p)).1,
        (digit_plain (a % 4 * 16 + b / 16) (second a b q)).1,
        (digit_plain (b % 16 * 4 + c / 64) (third b c r)).1,
        (digit_plain (c % 64) (omega arith)).1,
        encode_plain rest h,
      )
      refl

quad :
    (a b c n : ℕ) (cs : List ℕ)
    → n < 64
    → decode_quads (a ∷ b ∷ c ∷ digit n ∷ cs)
      ≡ three_bytes (value_of a) (value_of b) (value_of c) (value_of (digit n)) (decode_quads cs)
unfolding decode_quads
quad a b c n [] h = rw (digit_plain n h).0 refl
quad a b c n (d ∷ cs) h = refl

quads-encode : (bs : List ℕ) → Bytes bs → decode_quads (encode bs) ≡ some bs
unfolding encode decode_quads last_quad one_byte two_bytes three_bytes
quads-encode [] h = refl
quads-encode (a ∷ []) (p, h) =
    rw (value-digit (a / 4) (first a p), value-digit (a % 4 * 16) (omega arith))
      (ap (λ x. some (x ∷ [])) (omega arith))
quads-encode (a ∷ b ∷ []) (p, (q, h)) =
    rw
      (
        (digit_plain (b % 16 * 4) (omega arith)).0,
        value-digit (a / 4) (first a p),
        value-digit (a % 4 * 16 + b / 16) (second a b q),
        value-digit (b % 16 * 4) (omega arith),
        byte_one a b p q,
      )
      (ap (λ x. some (a ∷ x ∷ [])) (omega arith))
quads-encode (a ∷ b ∷ c ∷ rest) (p, (q, (r, h))) =
    quad (digit (a / 4)) (digit (a % 4 * 16 + b / 16)) (digit (b % 16 * 4 + c / 64)) (c % 64)
      (encode rest) (omega arith)
    ∙ rw
        (
          value-digit (a / 4) (first a p),
          value-digit (a % 4 * 16 + b / 16) (second a b q),
          value-digit (b % 16 * 4 + c / 64) (third b c r),
          value-digit (c % 64) (omega arith),
          quads-encode rest h,
          byte_one a b p q,
          byte_two a b c q r,
          byte_three b c r,
        )
        refl

-- Bytes that were encoded decode to themselves.
pub decode_audio-encode : (bs : List ℕ) → Bytes bs → decode (encode bs) ≡ some bs
unfolding decode
decode_audio-encode bs h = ap decode_quads (encode_plain bs h) ∙ quads-encode bs h
