-- ===== src/Codec/Mulaw.antt =====
-- The mu-law code: what encoding keeps of a sample.
use gopkg.Common.{
  inl, inr, Bool-cases, ℕ, zero, suc, ◌+◌, ◌-◌, ◌*◌, ◌≤◌, ◌<◌, ◌≡◌, ◌≢◌, refl, arith, Bool, true,
  false, ◌&&◌, ◌||◌, leb, ◌==◌, ==_iff, ℤ, pos, negsuc, abs_ℕ, is_neg, if◌then◌else◌,
}
use gopkg.Codec.{decode, encode}

-- Whether a test holds of every number below a bound.
holds_to : (ℕ → Bool) → ℕ → Bool
holds_to test zero = true
holds_to test (suc bound) = let lower = holds_to test bound in if test bound then lower else false

holds_at : (test : ℕ → Bool) (bound m : ℕ) → m < bound → holds_to test bound ≡ true → test m ≡ true
unfolding holds_to
holds_at test zero m under h = absurd (omega arith)
holds_at test (suc bound) m under h = elim (Bool-cases (m == bound)) [
  | inl e ↦ ground (arith, ==_iff m bound)
  | inr e ↦ holds_at test bound m (ground (arith, ==_iff m bound)) (ground arith)
]

table : holds_to (λ b. b == 127 || encode (decode b) == b) 256 ≡ true
unfolding holds_to encode decode
table = refl

-- A sample of magnitude `m` comes back as `p`: not negative, and off by little.
close_at : ℕ → ℤ → Bool
close_at m p =
    leb (32 * (abs_ℕ p - m)) (m + 132)
    && leb (32 * (m - abs_ℕ p)) (m + 132)
    && (if is_neg p then false else true)

close : ℕ → Bool
unfolding encode decode close_at
close m = close_at m (decode (encode (pos m)))

close_table : holds_to close 32769 ≡ true
unfolding holds_to close close_at
close_table = refl

-- A mu-law byte comes back as itself when it is decoded and encoded again; the only one that does
-- not is 127, the negative zero.
pub encode-decode : (b : ℕ) → b < 256 → b ≢ 127 → encode (decode b) ≡ b
encode-decode b lt other = ground (
  arith,
  holds_at (λ b. b == 127 || encode (decode b) == b) 256 b lt table,
  ==_iff b 127,
  ==_iff (encode (decode b)) b,
)

-- Results of the two signs with one magnitude.
mirror_at : ℤ → ℤ → Bool
mirror_at p n = abs_ℕ p == abs_ℕ n && (is_neg n || abs_ℕ n == 0)

mirror : ℕ → Bool
unfolding encode decode mirror_at
mirror m = mirror_at (decode (encode (pos (suc m)))) (decode (encode (negsuc m)))

mirror_table : holds_to mirror 32768 ≡ true
unfolding holds_to mirror mirror_at
mirror_table = refl

-- How far decoding the code of an int16 sample may lie from the sample: a 32nd of it and a little
-- more, with the sign kept.
pub CloseTo : ℤ → ℤ → Type 0
CloseTo s r =
    (32 * (abs_ℕ r - abs_ℕ s) ≤ abs_ℕ s + 132)
    × (32 * (abs_ℕ s - abs_ℕ r) ≤ abs_ℕ s + 132)
    × (r ≢ pos 0 → is_neg r ≡ is_neg s)

close_at_pos : (m : ℕ) (p : ℤ) → close_at m p ≡ true → CloseTo (pos m) p
unfolding close_at CloseTo
close_at_pos m p h = ground arith

close_at_neg :
    (m : ℕ) (p n : ℤ) → close_at (suc m) p ≡ true → mirror_at p n ≡ true → CloseTo (negsuc m) n
unfolding close_at mirror_at CloseTo
close_at_neg m p (pos n) h k = ground arith
close_at_neg m p (negsuc n) h k = ground arith

-- Encoding and decoding a sample of magnitude at most 32768 loses little: the magnitude is off by at most a 32nd of the
-- sample's and a little more, and the sign is kept unless the result is 0. The sample -32768, whose
-- negation an int16 does not hold, is no exception.
pub decode-encode : (s : ℤ) → abs_ℕ s ≤ 32768 → CloseTo s (decode (encode s))
unfolding close mirror
decode-encode (pos m) h =
    close_at_pos m (decode (encode (pos m))) (holds_at close 32769 m (omega arith) close_table)
decode-encode (negsuc m) h =
    close_at_neg m (decode (encode (pos (suc m)))) (decode (encode (negsuc m)))
      (holds_at close 32769 (suc m) (omega arith) close_table)
      (holds_at mirror 32768 m (omega arith) mirror_table)
