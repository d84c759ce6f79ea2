-- ===== src/Codec.antt =====
-- audio/codec/codec.go: G.711 mu-law, resampling, and little-endian PCM. A byte is a number below 256
-- and an int16 is an integer in its range; the loops over indices are recursions on the list.
mod Table
pub mod Mulaw
pub mod Streams
mod Examples
use Prim.Native.Nat.{bit_or}
use gopkg.Common.{
  ℕ, zero, suc, ◌+◌, ◌-◌, ◌*◌, ◌/◌, ◌%◌, ◌^◌, Bool, true, false, List, [], ◌∷◌, map, ltb, ◌==◌,
  if◌then◌else◌, ℤ, pos, sub_ℕ, ◌+ℤ◌, quot_ℤ, is_neg, abs_ℕ, length, Option, none, some, get_elem?,
}
unfoldable pub use Table.{decode_table}

abbrev pub mulaw_bias : ℕ
mulaw_bias = 0x84

abbrev pub mulaw_clip : ℕ
mulaw_clip = 32635

-- `mulawDecodeTable[b]`; a byte is always in range.
abbrev at_or_zero : Option ℤ → ℤ
at_or_zero none = pos 0
at_or_zero (some s) = s

pub decode : ℕ → ℤ
unfolding decode_table
decode b = at_or_zero (get_elem? decode_table b)

pub mulaw_to_pcm16 : List ℕ → List ℤ
mulaw_to_pcm16 = map decode

-- The loop of `encodeMulaw`: the rounds left, the exponent and its mask. A magnitude with the bias
-- has a bit that stops the loop before the exponent would go below 0.
pub find_exponent : ℕ → ℕ → ℕ → ℕ → ℕ
find_exponent zero exponent mask mag = exponent
find_exponent (suc n) exponent mask mag =
    let rest = find_exponent n (exponent - 1) (mask / 2) mag in
    if (mag / mask) % 2 == 1 then exponent else rest

-- The rest of `encodeMulaw`, from the sign bit and the magnitude with the bias.
pub encode_biased : ℕ → ℕ → ℕ
unfolding find_exponent
encode_biased sign mag =
    let exponent = find_exponent 8 7 0x4000 mag in
    let mantissa = (mag / 2 ^ (exponent + 3)) % 16 in
    255 - bit_or (bit_or sign (exponent * 16)) mantissa

pub encode : ℤ → ℕ
unfolding encode_biased
encode sample =
    let mag = abs_ℕ sample in
    encode_biased (if is_neg sample then 0x80 else 0)
      ((if ltb mulaw_clip mag then mulaw_clip else mag) + mulaw_bias)

pub pcm16_to_mulaw : List ℤ → List ℕ
pcm16_to_mulaw = map encode

-- The sample between two neighbours.
pub midpoint : ℤ → ℤ → ℤ
midpoint a b = quot_ℤ (a +ℤ b) (pos 2)

pub upsample8to16 : List ℤ → List ℤ
unfolding midpoint
upsample8to16 [] = []
upsample8to16 (a ∷ []) = a ∷ a ∷ []
upsample8to16 (a ∷ b ∷ rest) = a ∷ midpoint a b ∷ upsample8to16 (b ∷ rest)

pub downsample24to8 : List ℤ → List ℤ
downsample24to8 (a ∷ b ∷ c ∷ rest) = a ∷ downsample24to8 rest
downsample24to8 _ = []

-- uint16(s), and int16(u).
abbrev pub to_u16 : ℤ → ℕ
to_u16 s = if is_neg s then 65536 - abs_ℕ s else abs_ℕ s

abbrev pub of_u16 : ℕ → ℤ
of_u16 u = if ltb u 32768 then pos u else sub_ℕ u 65536

-- binary.LittleEndian.PutUint16 and Uint16, over a stream. An odd trailing byte is ignored.
pub put_samples : List ℤ → List ℕ
put_samples [] = []
put_samples (s ∷ ss) = to_u16 s % 256 ∷ to_u16 s / 256 ∷ put_samples ss

pub get_samples : List ℕ → List ℤ
get_samples (lo ∷ hi ∷ rest) = of_u16 (lo + hi * 256) ∷ get_samples rest
get_samples _ = []

pub mulaw8k_to_pcm16le16k : List ℕ → List ℕ
unfolding mulaw_to_pcm16 upsample8to16 put_samples
mulaw8k_to_pcm16le16k mulaw = put_samples (upsample8to16 (mulaw_to_pcm16 mulaw))

pub pcm16le24k_to_mulaw8k : List ℕ → List ℕ
unfolding get_samples downsample24to8 pcm16_to_mulaw
pcm16le24k_to_mulaw8k pcm = pcm16_to_mulaw (downsample24to8 (get_samples pcm))
