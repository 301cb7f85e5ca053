-- ===== src/Text/Hex.antt =====
-- `{:02x}` of a byte, a byte sequence so printed, and `{:016x}` of a 64-bit number.
use mathlib.Core.Path.{ap₂}
use caminus.Prelude.{
  nat_eq, false, ℕ, zero, suc, ◌+◌, ◌-◌, ◌*◌, ◌/◌, ◌%◌, ◌<◌, ◌≡◌, refl, List, [], ◌∷◌, arith, ltb,
  if◌then◌else◌, All,
}
use caminus.Text.Defs.{Text}

unfoldable pub hex_digit : ℕ → ℕ
hex_digit d = if ltb d 10 then b'0' + d else b'a' + (d - 10)

unfoldable pub hex_byte : ℕ → Text → Text
unfolding hex_digit
hex_byte b rest = hex_digit (b / 16) ∷ hex_digit (b % 16) ∷ rest

-- `bytes.iter().map(|b| format!("{:02x}", b)).collect()`
unfoldable pub hex_bytes : List ℕ → Text
unfolding hex_byte
hex_bytes [] = []
hex_bytes (b ∷ bs) = hex_byte b (hex_bytes bs)

hex_padded : ℕ → ℕ → Text → Text
unfolding hex_digit
hex_padded zero n out = out
hex_padded (suc w) n out = hex_padded w (n / 16) (hex_digit (n % 16) ∷ out)

-- `format!("{:016x}", n)` of a number of 64 bits
unfoldable pub hex16 : ℕ → Text
unfolding hex_padded
hex16 n = hex_padded 16 n []

unhex_digit : ℕ → ℕ
unhex_digit c = if ltb c b'a' then c - b'0' else c - b'a' + 10

-- Reads hexadecimal digits in pairs.
unfoldable pub unhex : Text → List ℕ
unfolding unhex_digit
unhex (h ∷ l ∷ s) = (unhex_digit h * 16 + unhex_digit l) ∷ unhex s
unhex _ = []

unhex-hex_digit : (d : ℕ) → d < 16 → unhex_digit (hex_digit d) ≡ d
unfolding hex_digit unhex_digit
unhex-hex_digit d h = ground arith

-- Hexadecimal text gives its bytes back.
pub unhex-hex_bytes : (bs : List ℕ) → All (λ b. b < 256) bs → unhex (hex_bytes bs) ≡ bs
unfolding unhex hex_bytes
unhex-hex_bytes [] h = refl
unhex-hex_bytes (b ∷ bs) h =
    ap₂ ◌∷◌
      (rw (unhex-hex_digit (b / 16) (omega arith), unhex-hex_digit (b % 16) (omega arith))
        (omega arith))
      (unhex-hex_bytes bs h.1)

pub hex_bytes-digits :
    (bs : List ℕ) → All (λ b. b < 256) bs → All (λ c. nat_eq c b':' ≡ false) (hex_bytes bs)
unfolding hex_bytes hex_byte hex_digit
hex_bytes-digits [] h = tt
hex_bytes-digits (b ∷ bs) h = (ground (arith, h.0), (ground (arith, h.0), hex_bytes-digits bs h.1))
