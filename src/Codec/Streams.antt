-- ===== src/Codec/Streams.antt =====
-- audio/codec/codec.go, the streams: their lengths, and what the two resamplers keep.
use gopkg.Common.{
  ℕ, zero, suc, ◌+◌, ◌*◌, ◌/◌, ◌%◌, ◌<◌, ◌≡◌, refl, arith, List, [], ◌∷◌, map, ℤ, pos, negsuc, ◌+ℤ◌,
  quot_ℤ, ◌≤ℤ◌, length, length-map, get_elem?, All,
}
use gopkg.Codec.{
  decode, encode, mulaw_to_pcm16, pcm16_to_mulaw, midpoint, upsample8to16, downsample24to8, to_u16,
  of_u16, put_samples, get_samples, mulaw8k_to_pcm16le16k, pcm16le24k_to_mulaw8k,
}

length-upsample : (xs : List ℤ) → length (upsample8to16 xs) ≡ 2 * length xs
unfolding upsample8to16
length-upsample [] = refl
length-upsample (a ∷ []) = refl
length-upsample (a ∷ b ∷ rest) = omega (arith, length-upsample (b ∷ rest))

length-put_samples : (ss : List ℤ) → length (put_samples ss) ≡ 2 * length ss
unfolding put_samples
length-put_samples [] = refl
length-put_samples (s ∷ ss) = omega (arith, length-put_samples ss)

length-get_samples : (bs : List ℕ) → length (get_samples bs) ≡ length bs / 2
unfolding get_samples
length-get_samples [] = refl
length-get_samples (a ∷ []) = refl
length-get_samples (a ∷ b ∷ rest) = omega (arith, length-get_samples rest)

length-downsample : (xs : List ℤ) → length (downsample24to8 xs) ≡ length xs / 3
unfolding downsample24to8
length-downsample [] = refl
length-downsample (a ∷ []) = refl
length-downsample (a ∷ b ∷ []) = refl
length-downsample (a ∷ b ∷ c ∷ rest) = omega (arith, length-downsample rest)

-- Towards a speech service, every mu-law byte becomes four bytes of 16 kHz PCM.
pub length-to_pcm16k : (mulaw : List ℕ) → length (mulaw8k_to_pcm16le16k mulaw) ≡ 4 * length mulaw
unfolding mulaw8k_to_pcm16le16k mulaw_to_pcm16
length-to_pcm16k mulaw = omega (
  arith,
  length-put_samples (upsample8to16 (map decode mulaw)),
  length-upsample (map decode mulaw),
  length-map mulaw decode,
)

-- Towards telephony, every six whole bytes of 24 kHz PCM become one mu-law byte.
pub length-to_mulaw8k : (pcm : List ℕ) → length (pcm16le24k_to_mulaw8k pcm) ≡ length pcm / 6
unfolding pcm16le24k_to_mulaw8k pcm16_to_mulaw
length-to_mulaw8k pcm = omega (
  arith,
  length-map (downsample24to8 (get_samples pcm)) encode,
  length-downsample (get_samples pcm),
  length-get_samples pcm,
)

-- A number that an int16 can hold.
abbrev pub InInt16 : ℤ → Type 0
InInt16 s = (negsuc 32767 ≤ℤ s) × (s ≤ℤ pos 32767)

of_to_u16 : (s : ℤ) → InInt16 s → of_u16 (to_u16 s) ≡ s
of_to_u16 (pos n) h = ground arith
of_to_u16 (negsuc n) h = ground arith

join_bytes : (u : ℕ) → u % 256 + u / 256 * 256 ≡ u
join_bytes u = omega arith

-- Reading back the little-endian bytes of int16 samples gives the samples.
pub get_samples-put_samples : (ss : List ℤ) → All InInt16 ss → get_samples (put_samples ss) ≡ ss
unfolding get_samples put_samples
get_samples-put_samples [] h = refl
get_samples-put_samples (s ∷ ss) (h, hs) =
    rw (join_bytes (to_u16 s), of_to_u16 s h, get_samples-put_samples ss hs)

-- The interpolated sample lies between its neighbours, in either order, so int16 neighbours give an
-- int16.
pub midpoint_between :
    (a b : ℤ)
    → a ≤ℤ b
    → (a ≤ℤ midpoint a b) × (midpoint a b ≤ℤ b) × (a ≤ℤ midpoint b a) × (midpoint b a ≤ℤ b)
unfolding midpoint quot_ℤ ◌+ℤ◌
midpoint_between (pos a) (pos b) h = ground arith
midpoint_between (pos a) (negsuc b) h = ground arith
midpoint_between (negsuc a) (pos b) h = ground arith
midpoint_between (negsuc a) (negsuc b) h = ground arith

three_more : (i : ℕ) → suc i * 3 ≡ suc (suc (suc (i * 3)))
three_more i = omega arith

-- Downsampling keeps the samples at the multiples of three, up to the last whole group.
pub get_elem?-downsample :
    (xs : List ℤ) (i : ℕ)
    → i < length xs / 3
    → get_elem? (downsample24to8 xs) i ≡ get_elem? xs (i * 3)
unfolding downsample24to8
get_elem?-downsample [] i h = refl
get_elem?-downsample (a ∷ []) i h = absurd (omega arith)
get_elem?-downsample (a ∷ b ∷ []) i h = absurd (omega arith)
get_elem?-downsample (a ∷ b ∷ c ∷ rest) zero h = refl
get_elem?-downsample (a ∷ b ∷ c ∷ rest) (suc i) h =
    rw (three_more i, get_elem?-downsample rest i (omega arith))
