-- ===== src/Source/Attempts.antt =====
-- How often the closure is called.
use caminus.Prelude.{
  ℕ, zero, suc, ◌+◌, max, ◌<◌, ◌≡◌, ◌⊎◌, inl, inr, refl, sym, ap, ◌∙◌, subst, leb, true, false,
  Result, ok, err, Bool-cases, arith,
}
use caminus.Source.Retry.{or_retry, retry_from, retry_with_backoff}

module _ {E A : Type 0} (f : ℕ → Result E A) where
  abbrev pub Fails : ℕ → Type 0
  Fails i = (e : E) × (f i ≡ err e)

  -- `k + 1` calls, and the result of the last.
  abbrev pub Outcome : ℕ → ℕ × Result E A → Type 0
  Outcome max_attempts r =
      (k : ℕ) × (r ≡ (k + 1, f k))
      × (k < max max_attempts 1)
      × ((i : ℕ) → i < k → Fails i)
      × (((a : A) × (f k ≡ ok a)) ⊎ (k + 1 ≡ max max_attempts 1))

  result-cases : (i : ℕ) → ((a : A) × (f i ≡ ok a)) ⊎ Fails i
  result-cases i = of (f i) refl
    where
      of : (r : Result E A) → f i ≡ r → ((a : A) × (f i ≡ ok a)) ⊎ Fails i
      of (ok a) e = inl (a, e)
      of (err b) e = inr (b, e)

  failed_up_to : (n : ℕ) → ((i : ℕ) → i < n → Fails i) → Fails n → (i : ℕ) → i < n + 1 → Fails i
  failed_up_to n before at i h =
      let last_or_before : (n ≡ i) ⊎ (i < n) = omega (arith, h) in
      elim last_or_before [ inl e ↦ subst Fails e at | inr below ↦ before i below ]

  stops :
      (attempt n : ℕ) (e : E) (rest : ℕ × Result E A)
      → leb n attempt ≡ true
      → or_retry f attempt n (err e) rest ≡ (attempt, err e)
  stops attempt n e rest h = rw h refl

  goes_on :
      (attempt n : ℕ) (e : E) (rest : ℕ × Result E A)
      → leb n attempt ≡ false
      → or_retry f attempt n (err e) rest ≡ rest
  goes_on attempt n e rest h = rw h refl

  retry_from-Outcome :
      (fuel attempt max_attempts : ℕ) (last : Result E A)
      → attempt + fuel ≡ max max_attempts 1
      → 0 < fuel
      → ((i : ℕ) → i < attempt → Fails i)
      → Outcome max_attempts (retry_from f fuel attempt max_attempts last)
  unfolding retry_from
  retry_from-Outcome zero attempt n last total some_fuel before = absurd (omega arith)
  retry_from-Outcome (suc fuel) attempt n last total some_fuel before =
      let rest : ℕ × Result E A = retry_from f fuel (attempt + 1) n (f attempt) in
      let returned = λ (r : Result E A). or_retry f (attempt + 1) n r rest in
      elim (result-cases attempt) [
        | inl (a, e) ↦ (
          attempt,
          ap returned e ∙ ap (λ r. (attempt + 1, r)) (sym e),
          omega (arith, total),
          before,
          inl (a, e),
        )
        | inr (b, e) ↦ elim (Bool-cases (leb n (attempt + 1))) [
          | inl done ↦ (
            attempt,
            ap returned e ∙ stops (attempt + 1) n b rest done ∙ ap (λ r. (attempt + 1, r)) (sym e),
            omega (arith, total),
            before,
            inr (ground (arith, total, done)),
          )
          | inr more ↦
              let (k, result, small, failed, last) =
                retry_from-Outcome fuel (attempt + 1) n (f attempt) (omega (arith, total))
                  (ground (arith, total, more)) (failed_up_to attempt before (b, e)) in
              (k, ap returned e ∙ goes_on (attempt + 1) n b rest more ∙ result, small, failed, last)
        ]
      ]

  -- The closure is called until it succeeds, but no more often than allowed, and once at least: all
  -- calls before the last fail, the last gives the result, and it is a success unless it was the last
  -- one allowed.
  pub retry_with_backoff-Outcome :
      (max_attempts : ℕ) → Outcome max_attempts (retry_with_backoff f max_attempts)
  unfolding retry_with_backoff
  retry_with_backoff-Outcome n =
      retry_from-Outcome (max n 1) 0 n (f 0) (omega arith) (omega arith)
        (λ i h. absurd (omega (arith, h)))
