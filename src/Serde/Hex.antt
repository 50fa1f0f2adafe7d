-- ===== src/Serde/Hex.antt =====
-- include/ncaf/internal/serialization.h, `BufferToHex`; a text is its list of bytes.
use ncaf.Common.{
  ℕ, ◌+◌, ◌-◌, ◌*◌, ◌/◌, ◌%◌, ◌<◌, ◌≡◌, refl, ap, List, [], ◌∷◌, ltb, if◌then◌else◌, arith,
}

abbrev hex_digit : ℕ → ℕ
hex_digit n = if ltb n 10 then 48 + n else 87 + n

unfoldable pub buffer_to_hex : List ℕ → List ℕ
buffer_to_hex [] = []
buffer_to_hex (b ∷ bytes) = hex_digit (b / 16) ∷ hex_digit (b % 16) ∷ 32 ∷ buffer_to_hex bytes

abbrev digit_value : ℕ → ℕ
digit_value c = if ltb c 58 then c - 48 else c - 87

-- Reads such a text back.
abbrev pub hex_to_buffer : List ℕ → List ℕ
hex_to_buffer (high ∷ low ∷ space ∷ rest) =
    (digit_value high * 16 + digit_value low) ∷ hex_to_buffer rest
hex_to_buffer _ = []

abbrev pub AllBytes : List ℕ → Type 0
AllBytes [] = Unit {0}
AllBytes (b ∷ bytes) = (b < 256) × AllBytes bytes

digit_value-hex_digit : (n : ℕ) → n < 16 → digit_value (hex_digit n) ≡ n
digit_value-hex_digit n h = ground arith

-- BufferToHex loses nothing: two digits and a space for each byte, from which it is read back.
pub buffer_to_hex_lem :
    (bytes : List ℕ) → AllBytes bytes → hex_to_buffer (buffer_to_hex bytes) ≡ bytes
unfolding buffer_to_hex
buffer_to_hex_lem [] h = refl
buffer_to_hex_lem (b ∷ bytes) h =
    rw
      (
        digit_value-hex_digit (b / 16) (omega arith),
        digit_value-hex_digit (b % 16) (omega arith),
        buffer_to_hex_lem bytes h.1,
      )
      (ap (λ v. v ∷ bytes) (omega arith))
