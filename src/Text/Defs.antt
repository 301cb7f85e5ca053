-- ===== src/Text/Defs.antt =====
-- The bytes of a text, equality of texts, ASCII literals and `starts_with`.
use Prim.Native.Char.{code}
use Prim.Native.String.{String}
use caminus.Prelude.{
  ℕ, ◌≡◌, refl, Bool, true, false, ◌&&◌, List, [], ◌∷◌, ◌++◌, ◌↔◌, arith, PartialEq, ◌==◌, ℕ_eq,
  list_eq, list_eq_iff, nat_eq_iff,
}

abbrev pub Text : Type 0
Text = List ℕ

unfoldable pub text_beq : Text → Text → Bool
unfolding list_eq
text_beq = list_eq

pub text_beq_iff : (a b : Text) → (text_beq a b ≡ true) ↔ (a ≡ b)
unfolding text_beq
text_beq_iff = list_eq_iff

instance abbrev pub text_eq : PartialEq Text
text_eq = record { eq = text_beq; eq_iff = text_beq_iff }

-- An ASCII literal.
abbrev pub codes : String → Text
codes String.[] = []
codes (String.◌∷◌ c s) = code c ∷ codes s

-- `text.starts_with(prefix)`
unfoldable pub starts_with : Text → Text → Bool
starts_with s [] = true
starts_with [] (p ∷ ps) = false
starts_with (c ∷ s) (p ∷ ps) = c == p && starts_with s ps

-- `starts_with` holds exactly of the texts that go on from the prefix.
pub starts_with_iff : (s p : Text) → (starts_with s p ≡ true) ↔ ((r : Text) × (s ≡ p ++ r))
unfolding starts_with
starts_with_iff s [] = (λ _. (s, refl), λ _. refl)
starts_with_iff [] (p ∷ ps) = (λ h. absurd (cc h), λ h. absurd (cc (h.1)))
starts_with_iff (c ∷ s) (p ∷ ps) =
    let ih = starts_with_iff s ps in
    (
      λ h. let (r, e) = ih.0 (ground arith) in (r, cc (e, (nat_eq_iff c p).0 (ground arith))),
      λ h. ground (arith, nat_eq_iff c p, ih.1 (h.0, cc (h.1))),
    )
