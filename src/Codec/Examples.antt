-- ===== src/Codec/Examples.antt =====
-- audio/codec/codec.go: tests, and the theorems at concrete inputs.
use gopkg.Common.{quot_ℤ, ◌+ℤ◌, ◌≡◌, refl, arith, [], ◌∷◌, pos, negsuc}
use gopkg.Codec.{decode, encode, upsample8to16}
use gopkg.Codec.Mulaw.{CloseTo, decode-encode}

silence : encode (pos 0) ≡ 255
unfolding encode
silence = refl

negative_zero : encode (decode 127) ≡ 255
unfolding encode decode
negative_zero = refl

lowest : encode (negsuc 32767) ≡ 0
unfolding encode
lowest = refl

interpolated : upsample8to16 (pos 0 ∷ negsuc 2 ∷ []) ≡ pos 0 ∷ negsuc 0 ∷ negsuc 2 ∷ negsuc 2 ∷ []
unfolding upsample8to16 quot_ℤ ◌+ℤ◌
interpolated = refl

decode-encode_example : CloseTo (negsuc 32767) (decode (encode (negsuc 32767)))
decode-encode_example = decode-encode (negsuc 32767) (omega arith)
