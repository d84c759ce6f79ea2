-- ===== src/WhatsappTransport/Samples.antt =====
-- voice/transport/whatsapp/transport.go: samples as little-endian bytes and back.
use gopkg.Common.{ℕ, ◌<◌, ◌≡◌, refl, ap₂, arith, List, [], ◌∷◌, All}
use gopkg.WhatsappTransport.{bytes_to_int16_le, int16_le_to_bytes}

bytes-below : (xs : List ℕ) → All (λ v. v < 65536) xs → All (λ b. b < 256) (int16_le_to_bytes xs)
unfolding int16_le_to_bytes
bytes-below [] h = tt
bytes-below (v ∷ xs) (h, hs) = (omega arith, (omega (arith, h), bytes-below xs hs))

same-samples : (xs : List ℕ) → bytes_to_int16_le (int16_le_to_bytes xs) ≡ xs
unfolding bytes_to_int16_le int16_le_to_bytes
same-samples [] = refl
same-samples (v ∷ xs) = ap₂ (λ w ws. w ∷ ws) (omega arith) (same-samples xs)

-- Samples of 16 bits become bytes, and these become the same samples again.
pub bytes-samples :
    (xs : List ℕ)
    → All (λ v. v < 65536) xs
    → All (λ b. b < 256) (int16_le_to_bytes xs) × (bytes_to_int16_le (int16_le_to_bytes xs) ≡ xs)
bytes-samples xs h = (bytes-below xs h, same-samples xs)
