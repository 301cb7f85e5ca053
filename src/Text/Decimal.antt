-- ===== src/Text/Decimal.antt =====
-- `to_string` of an unsigned number and `parse::<u64>`, which offsets go through.
use caminus.Prelude.{
  ℕ, zero, suc, ◌+◌, ◌-◌, ◌*◌, ◌/◌, ◌%◌, ◌^◌, ◌≤◌, ◌<◌, ◌≡◌, refl, ◌||◌, Option, none, some, [],
  ◌∷◌, arith, ltb, leb, nat_eq, if◌then◌else◌, All, inl, inr, Bool-cases, ap, ◌∙◌,
}
use caminus.Text.Defs.{Text}

abbrev pub u64_mod : ℕ
u64_mod = 2 ^ 64

-- The digits of `n` in front of `out`; the fuel is more than `n`.
digits : ℕ → ℕ → Text → Text
digits zero n out = out
digits (suc f) n out =
    let rest = digits f (n / 10) ((b'0' + n % 10) ∷ out) in
    if ltb n 10 then (b'0' + n) ∷ out else rest

unfoldable pub to_string : ℕ → Text
unfolding digits
to_string n = digits (suc n) n []

-- The loop of `parse::<u64>`: a byte that is no digit and an overflow are errors.
scan : Text → ℕ → Option ℕ
scan [] n = some n
scan (c ∷ s) n =
    let d = c - b'0' in
    if ltb c b'0' || ltb b'9' c
    then none
    else if leb u64_mod (n * 10 + d)
    then none
    else scan s (n * 10 + d)

-- A lone sign and the empty text are errors; `+` may stand in front.
parse_digits : Text → Option ℕ
parse_digits [] = none
parse_digits (c ∷ s) = scan (c ∷ s) 0

unfoldable pub parse_u64 : Text → Option ℕ
unfolding scan parse_digits
parse_u64 [] = none
parse_u64 (c ∷ s) = if nat_eq c b'+' then parse_digits s else parse_digits (c ∷ s)

abbrev IsDigit : ℕ → Type 0
IsDigit c = (b'0' ≤ c) × (c ≤ b'9')

digits-All : (f n : ℕ) (out : Text) → All IsDigit out → All IsDigit (digits f n out)
unfolding digits
digits-All zero n out h = h
digits-All (suc f) n out h =
    ground (arith, digits-All f (n / 10) ((b'0' + n % 10) ∷ out) (omega arith, h))

digits-cons : (f n : ℕ) (out : Text) → (c : ℕ) × (s : Text) × (digits (suc f) n out ≡ c ∷ s)
unfolding digits
digits-cons zero n out = elim (Bool-cases (ltb n 10)) [
  | inl small ↦ (b'0' + n, out, rw small)
  | inr large ↦ (b'0' + n % 10, out, rw large)
]
digits-cons (suc f) n out = elim (Bool-cases (ltb n 10)) [
  | inl small ↦ (b'0' + n, out, rw small)
  | inr large ↦ rw large (digits-cons f (n / 10) ((b'0' + n % 10) ∷ out))
]

scan-digit :
    (n d : ℕ) (out : Text)
    → d ≤ 9
    → n * 10 + d < u64_mod
    → scan ((b'0' + d) ∷ out) n ≡ scan out (n * 10 + d)
unfolding scan
scan-digit n d out small fits = let e : b'0' + d - b'0' ≡ d = omega arith in rw e (ground arith)

scan-digits : (f n : ℕ) (out : Text) → n < f → n < u64_mod → scan (digits f n out) 0 ≡ scan out n
unfolding digits
scan-digits zero n out h lt = absurd (omega arith)
scan-digits (suc f) n out h lt = elim (Bool-cases (ltb n 10)) [
  | inl small ↦
      rw small (scan-digit 0 n out (ground arith) (omega arith) ∙ ap (scan out) (omega arith))
  | inr large ↦ rw large (
      scan-digits f (n / 10) ((b'0' + n % 10) ∷ out) (ground arith) (omega arith)
      ∙ scan-digit (n / 10) (n % 10) out (omega arith) (omega arith)
      ∙ ap (scan out) (omega arith))
]

-- A number of 64 bits that is printed is parsed back.
pub parse_u64-to_string : (n : ℕ) → n < u64_mod → parse_u64 (to_string n) ≡ some n
unfolding to_string parse_u64
parse_u64-to_string n lt =
    let (c, s, e) = digits-cons n n [] in
    let ds : All IsDigit (digits (suc n) n []) = digits-All (suc n) n [] tt in
    let first : All IsDigit (c ∷ s) = rw e at ds in
    let scanned : scan (c ∷ s) 0 ≡ some n =
      rw e at (scan-digits (suc n) n [] (omega arith) lt ∙ unfold scan in refl) in
    rw e (ground (arith, scanned, first))

-- The digits are ASCII.
pub to_string-ascii : (n : ℕ) → All (λ c. c < 128) (to_string n)
unfolding to_string
to_string-ascii n = digits-ascii (digits (suc n) n []) (digits-All (suc n) n [] tt)
  where
    digits-ascii : (s : Text) → All IsDigit s → All (λ c. c < 128) s
    digits-ascii [] h = tt
    digits-ascii (c ∷ s) h = (omega arith, digits-ascii s h.1)

pub to_string-digits : (n : ℕ) → All (λ c. c < b':') (to_string n)
unfolding to_string
to_string-digits n = below (digits (suc n) n []) (digits-All (suc n) n [] tt)
  where
    below : (s : Text) → All IsDigit s → All (λ c. c < b':') s
    below [] h = tt
    below (c ∷ s) h = (omega (arith, h.0), below s h.1)
