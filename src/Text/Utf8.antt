-- ===== src/Text/Utf8.antt =====
-- `String::from_utf8`: a byte sequence is a text just where it is well formed UTF-8 (the table of
-- the Unicode standard, read as an automaton that is at the boundary of a character or inside one).
use caminus.Prelude.{
  ℕ, zero, suc, ◌<◌, ◌≡◌, refl, Bool, true, false, ◌&&◌, Option, none, some, List, [], ◌∷◌, ◌++◌,
  arith, ltb, leb, nat_eq, if◌then◌else◌, All,
}
use caminus.Text.Defs.{Text}

-- `left` more bytes, the next one between `low` and `high`.
pub data State : Type 0 where
  boundary : State
  inside : ℕ → ℕ → ℕ → State

lead : ℕ → Option State
lead b =
    if ltb b 0x80
    then some boundary
    else if ltb b 0xc2
    then none
    else if ltb b 0xe0
    then some (inside 0 0x80 0xbf)
    else if nat_eq b 0xe0
    then some (inside 1 0xa0 0xbf)
    else if nat_eq b 0xed
    then some (inside 1 0x80 0x9f)
    else if ltb b 0xf0
    then some (inside 1 0x80 0xbf)
    else if nat_eq b 0xf0
    then some (inside 2 0x90 0xbf)
    else if ltb b 0xf4
    then some (inside 2 0x80 0xbf)
    else if nat_eq b 0xf4
    then some (inside 2 0x80 0x8f)
    else none

step : State → ℕ → Option State
unfolding lead
step boundary b = lead b
step (inside zero low high) b = if leb low b && leb b high then some boundary else none
step (inside (suc n) low high) b =
    if leb low b && leb b high then some (inside n 0x80 0xbf) else none

accepts : State → List ℕ → Bool
accepts boundary [] = true
accepts (inside n low high) [] = false
accepts st (b ∷ bs) = elim (step st b) [ none ↦ false | some st' ↦ accepts st' bs ]

unfoldable pub is_utf8 : List ℕ → Bool
unfolding accepts step
is_utf8 = accepts boundary

unfoldable pub from_utf8 : List ℕ → Option Text
from_utf8 bytes = if is_utf8 bytes then some bytes else none

pub from_utf8-valid : (t : Text) → is_utf8 t ≡ true → from_utf8 t ≡ some t
unfolding from_utf8
from_utf8-valid t h = rw h

-- ASCII bytes stand anywhere between characters.
pub is_utf8-ascii-append : (p s : Text) → All (λ c. c < 128) p → is_utf8 (p ++ s) ≡ is_utf8 s
unfolding is_utf8
is_utf8-ascii-append [] s h = refl
is_utf8-ascii-append (c ∷ p) s h = ground (arith, is_utf8-ascii-append p s h.1)

euro : is_utf8 (0xe2 ∷ 0x82 ∷ 0xac ∷ []) ≡ true
unfolding is_utf8
euro = refl

surrogate : is_utf8 (0xed ∷ 0xa0 ∷ 0x80 ∷ []) ≡ false
unfolding is_utf8
surrogate = refl
