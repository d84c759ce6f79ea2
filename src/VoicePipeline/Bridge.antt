-- ===== src/VoicePipeline/Bridge.antt =====
-- voice/pipeline/codec_bridge.go: the conversion between the audio formats of the two sides, over the
-- streams of Codec.
use gopkg.Common.{
  ℕ, ◌*◌, ◌≡◌, ◌⊎◌, inl, inr, refl, arith, abs_ℕ, ◌≤◌, ◌+◌, Bool, true, ◌&&◌, ◌||◌, ap, length,
  String, str_eq, eq_iff, pos, eqb_ℤ, if◌then◌else◌, Result, ok, err, not,
}
use gopkg.Codec.{mulaw8k_to_pcm16le16k, pcm16le24k_to_mulaw8k}
use gopkg.Codec.Streams.{length-to_pcm16k, length-to_mulaw8k}
use gopkg.VoicePipeline.{AudioFormat, encoding_mulaw, encoding_pcm16le, Frame, Error, format_bridge}

abbrev pub BridgeFn : Type 0
BridgeFn = Frame → Result Error Frame

unfoldable pub bridge_passthrough : Frame → Result Error Frame
bridge_passthrough f = ok f

unfoldable pub bridge_mulaw8k_to_pcm16le16k : Frame → Result Error Frame
bridge_mulaw8k_to_pcm16le16k f = ok (record f { bytes = mulaw8k_to_pcm16le16k f.bytes })

unfoldable pub bridge_pcm16le24k_to_mulaw8k : Frame → Result Error Frame
bridge_pcm16le24k_to_mulaw8k f = ok (record f { bytes = pcm16le24k_to_mulaw8k f.bytes })

-- src == dst, on structs.
pub same_format : AudioFormat → AudioFormat → Bool
same_format a b =
    str_eq a.encoding b.encoding && eqb_ℤ a.sample_rate b.sample_rate && eqb_ℤ a.channels b.channels

-- Is it this encoding, at this rate?
pub is_format : String → ℕ → AudioFormat → Bool
is_format encoding rate f = str_eq f.encoding encoding && eqb_ℤ f.sample_rate (pos rate)

unfoldable pub resolve_bridge : AudioFormat → AudioFormat → Result Error BridgeFn
unfolding same_format is_format
resolve_bridge src dst =
    if not (eqb_ℤ src.channels dst.channels) || not (eqb_ℤ src.channels (pos 1))
    then err (format_bridge src dst)
    else if same_format src dst
    then ok bridge_passthrough
    else if is_format encoding_mulaw 8000 src && is_format encoding_pcm16le 16000 dst
    then ok bridge_mulaw8k_to_pcm16le16k
    else if is_format encoding_pcm16le 24000 src && is_format encoding_mulaw 8000 dst
    then ok bridge_pcm16le24k_to_mulaw8k
    else err (format_bridge src dst)

-- How a converter was chosen.
abbrev Resolved : AudioFormat → AudioFormat → BridgeFn → Type 0
Resolved src dst b =
    ((b ≡ bridge_passthrough) × (same_format src dst ≡ true))
    ⊎ ((b ≡ bridge_mulaw8k_to_pcm16le16k)
        × (is_format encoding_mulaw 8000 src ≡ true)
        × (is_format encoding_pcm16le 16000 dst ≡ true))
    ⊎ ((b ≡ bridge_pcm16le24k_to_mulaw8k)
        × (is_format encoding_pcm16le 24000 src ≡ true)
        × (is_format encoding_mulaw 8000 dst ≡ true))

resolved :
    (src dst : AudioFormat) (b : BridgeFn) → resolve_bridge src dst ≡ ok b → Resolved src dst b
unfolding resolve_bridge
resolved src dst b h = ground arith

-- The bytes that a second of audio takes.
pub bytes_per_second : AudioFormat → ℕ
bytes_per_second f = (if str_eq f.encoding encoding_mulaw then 1 else 2) * abs_ℕ f.sample_rate

mulaw_rate :
    (rate : ℕ) (f : AudioFormat)
    → is_format encoding_mulaw rate f ≡ true
    → bytes_per_second f ≡ rate
unfolding is_format bytes_per_second
mulaw_rate rate f h = ground (arith, eq_iff f.encoding encoding_mulaw)

pcm_rate :
    (rate : ℕ) (f : AudioFormat)
    → is_format encoding_pcm16le rate f ≡ true
    → bytes_per_second f ≡ 2 * rate
unfolding is_format bytes_per_second
pcm_rate rate f h = ground (
  arith,
  eq_iff f.encoding encoding_pcm16le,
  eq_iff f.encoding encoding_mulaw,
  eq_iff encoding_pcm16le encoding_mulaw,
)

-- The frame that comes out lasts as long as the one that went in, up to the samples that do not fill a
-- byte of the slower stream.
pub Lasts : AudioFormat → Frame → AudioFormat → Frame → Type 0
Lasts src f dst f' =
    (length f'.bytes * bytes_per_second src ≤ length f.bytes * bytes_per_second dst)
    × (length f.bytes * bytes_per_second dst
        ≤ length f'.bytes * bytes_per_second src + bytes_per_second src)

same_rate :
    (src dst : AudioFormat)
    → same_format src dst ≡ true
    → bytes_per_second src ≡ bytes_per_second dst
unfolding same_format bytes_per_second
same_rate src dst h = ground (arith, eq_iff src.encoding dst.encoding)

-- Where the two formats have a bridge, it converts every frame: the time stamp stays, and the audio
-- lasts as long as before, but for the samples that do not fill the last byte.
pub bridge-Lasts :
    (src dst : AudioFormat) (b : BridgeFn) (f : Frame)
    → resolve_bridge src dst ≡ ok b
    → (f' : Frame) × (b f ≡ ok f') × (f'.timestamp ≡ f.timestamp) × Lasts src f dst f'
unfolding Lasts bridge_passthrough bridge_mulaw8k_to_pcm16le16k bridge_pcm16le24k_to_mulaw8k
bridge-Lasts src dst b f h = elim (resolved src dst b h) [
  | inl (e, same) ↦ (f, ap (λ (g : BridgeFn). g f) e, refl, grind (arith, same_rate src dst same))
  | inr (inl (e, s, d)) ↦ (
    record f { bytes = mulaw8k_to_pcm16le16k f.bytes },
    ap (λ (g : BridgeFn). g f) e,
    refl,
    rw (mulaw_rate 8000 src s, pcm_rate 16000 dst d, length-to_pcm16k f.bytes) (omega arith),
  )
  | inr (inr (e, s, d)) ↦ (
    record f { bytes = pcm16le24k_to_mulaw8k f.bytes },
    ap (λ (g : BridgeFn). g f) e,
    refl,
    rw (pcm_rate 24000 src s, mulaw_rate 8000 dst d, length-to_mulaw8k f.bytes) (omega arith),
  )
]
