-- ===== src/Security/Reveal.antt =====
-- What an encrypted field gives away.
use mathlib.Core.Path.{ap₂}
use caminus.Prelude.{
  ℕ, ◌<◌, ◌≡◌, refl, ap, ◌∙◌, false, List, [], ◌∷◌, ◌++◌, nat_eq, if◌then◌else◌, All, arith,
}
use caminus.Text.Defs.{Text}
use caminus.Text.Decimal.{to_string, to_string-digits}
use caminus.Text.Hex.{hex_bytes, unhex, unhex-hex_bytes, hex_bytes-digits}
use caminus.Security.Engine.{encrypted}

-- The text after the first colon.
unfoldable after_colon : Text → Text
after_colon [] = []
after_colon (c ∷ s) = if nat_eq c b':' then s else after_colon s

unfoldable before_colon : Text → Text
before_colon [] = []
before_colon (c ∷ s) = let rest = before_colon s in if nat_eq c b':' then [] else c ∷ rest

-- The key and the text of an encrypted field, read without a key.
unfoldable pub reveal : Text → List ℕ × Text
unfolding after_colon before_colon
reveal s =
    let rest = after_colon (after_colon s) in (unhex (before_colon rest), unhex (after_colon rest))

abbrev NoColon : Text → Type 0
NoColon = All (λ c. nat_eq c b':' ≡ false)

after-append : (a b : Text) → NoColon a → after_colon (a ++ b':' ∷ b) ≡ b
unfolding after_colon
after-append [] b h = refl
after-append (c ∷ a) b h = rw (h.0) (after-append a b h.1)

before-append : (a b : Text) → NoColon a → before_colon (a ++ b':' ∷ b) ≡ a
unfolding before_colon
before-append [] b h = refl
before-append (c ∷ a) b h = rw (h.0) (ap (◌∷◌ c) (before-append a b h.1))

digits-NoColon : (s : Text) → All (λ c. c < b':') s → NoColon s
digits-NoColon [] h = tt
digits-NoColon (c ∷ s) h = (ground (arith, h.0), digits-NoColon s h.1)

-- Whoever reads an encrypted field has the key and the text: both stand in it in hexadecimal.
reveal-encrypted :
    (version : ℕ) (key raw_str : List ℕ)
    → All (λ b. b < 256) key
    → All (λ b. b < 256) raw_str
    → reveal (encrypted version key raw_str) ≡ (key, raw_str)
unfolding reveal encrypted after_colon
reveal-encrypted version key raw_str kb rb =
    let v : Text = b'v' ∷ to_string version in
    let no_colon : NoColon v =
      (ground arith, digits-NoColon (to_string version) (to_string-digits version)) in
    let tail : Text = hex_bytes key ++ b':' ∷ hex_bytes raw_str in
    let rest : after_colon (v ++ b':' ∷ tail) ≡ tail = after-append v tail no_colon in
    ap (λ t. (unhex (before_colon t), unhex (after_colon t))) rest
    ∙ ap₂ (λ a b. (unhex a, unhex b))
        (before-append (hex_bytes key) (hex_bytes raw_str) (hex_bytes-digits key kb))
        (after-append (hex_bytes key) (hex_bytes raw_str) (hex_bytes-digits key kb))
    ∙ ap₂ (λ a b. (a, b)) (unhex-hex_bytes key kb) (unhex-hex_bytes raw_str rb)
