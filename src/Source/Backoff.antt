-- ===== src/Source/Backoff.antt =====
-- `retry_with_backoff` with its sleeps (src/source/mod.rs). Durations are in nanoseconds.
use caminus.Prelude.{
  ℕ, zero, suc, ◌+◌, ◌*◌, ◌%◌, ◌^◌, ◌≤◌, ◌<◌, ◌≡◌, min, max, refl, sym, subst, ap, ◌∙◌, false, leb,
  List, [], ◌∷◌, length, All, inl, inr, Bool-cases, arith, Result, ok, err, if◌then◌else◌,
}
use caminus.Source.Attempts.{Outcome, retry_with_backoff-Outcome}
use caminus.Source.Retry.{or_retry, retry_from, retry_with_backoff}

-- What is used of `f64` and of durations, and the rounding that is relied on.
pub record Durations : Type 1 where
  pub F : Type 0
  pub of_u64 : ℕ → F
  pub three_quarters : F
  pub two_thousand : F
  pub add : F → F → F
  pub div : F → F → F
  pub mul_f64 : ℕ → F → ℕ
  -- A product with a factor from 0.75 to 1.25 is rounded to a nanosecond.
  pub mul_f64-factor :
      (delay n : ℕ)
      → n < 1000
      → delay < 2 ^ 52
      → (let product = mul_f64 delay (add three_quarters (div (of_u64 n) two_thousand)) in
          (3 * delay ≤ 4 * product + 4) × (4 * product ≤ 5 * delay + 4))

module _ (d : Durations) where
  open d use {F, of_u64, three_quarters, two_thousand, add, div, mul_f64}

  -- The factor by the clock's reading in nanoseconds.
  unfoldable pub jitter : ℕ → F
  jitter seed = add three_quarters (div (of_u64 (seed % 1000)) two_thousand)

  unfoldable pub current_delay : ℕ → ℕ → ℕ
  current_delay delay seed = mul_f64 delay (jitter seed)

  -- `seeds` are the readings after the failed calls.
  module _ (multiplier : F) (max_delay : ℕ) (seeds : ℕ → ℕ) {E A : Type 0}
      (f : ℕ → Result E A) where
    unfoldable pub next_delay : ℕ → ℕ
    next_delay delay = min (mul_f64 delay multiplier) max_delay

    -- After a failed call that is not the last there is a sleep, and another call.
    abbrev pub or_sleep :
        ℕ → ℕ → ℕ → Result E A → List ℕ × (ℕ × Result E A) → List ℕ × (ℕ × Result E A)
    or_sleep attempt max_attempts sleep (ok val) rest = ([], (attempt, ok val))
    or_sleep attempt max_attempts sleep (err e) rest =
        if leb max_attempts attempt then ([], (attempt, err e)) else (sleep ∷ rest.0, rest.1)

    -- The sleeps of the loop, the number of calls and what the last one returned.
    unfoldable pub backoff_from : ℕ → ℕ → ℕ → ℕ → Result E A → List ℕ × (ℕ × Result E A)
    backoff_from zero attempt max_attempts delay last = ([], (attempt, last))
    backoff_from (suc fuel) attempt max_attempts delay last =
        or_sleep (attempt + 1) max_attempts (current_delay delay (seeds (attempt + 1))) (f attempt)
          (backoff_from fuel (attempt + 1) max_attempts (next_delay delay) (f attempt))

    unfoldable pub retry_sleeping : ℕ → ℕ → List ℕ × (ℕ × Result E A)
    retry_sleeping max_attempts initial_delay =
        backoff_from (max max_attempts 1) 0 max_attempts initial_delay (f 0)

    or_sleep-or_retry :
        (attempt max_attempts sleep : ℕ) (r : Result E A) (rest : List ℕ × (ℕ × Result E A))
        → (or_sleep attempt max_attempts sleep r rest).1 ≡ or_retry f attempt max_attempts r rest.1
    or_sleep-or_retry attempt n sleep (ok val) rest = refl
    or_sleep-or_retry attempt n sleep (err e) rest = elim (Bool-cases (leb n attempt)) [
      | inl done ↦ rw done refl
      | inr more ↦ rw more refl
    ]

    backoff_from-retry_from :
        (fuel attempt max_attempts delay : ℕ) (last : Result E A)
        → (backoff_from fuel attempt max_attempts delay last).1
          ≡ retry_from f fuel attempt max_attempts last
    unfolding backoff_from retry_from
    backoff_from-retry_from zero attempt n delay last = refl
    backoff_from-retry_from (suc fuel) attempt n delay last =
        or_sleep-or_retry (attempt + 1) n (current_delay delay (seeds (attempt + 1))) (f attempt)
          (backoff_from fuel (attempt + 1) n (next_delay delay) (f attempt))
        ∙ ap (or_retry f (attempt + 1) n (f attempt))
            (backoff_from-retry_from fuel (attempt + 1) n (next_delay delay) (f attempt))

    -- Between three quarters of the one and five quarters of the other, up to a nanosecond.
    abbrev pub IsBetween : ℕ → ℕ → ℕ → Type 0
    IsBetween low high sleep = (3 * low ≤ 4 * sleep + 4) × (4 * sleep ≤ 5 * high + 4)

    -- One sleep less than calls, all within the bounds.
    pub record Sleeps (initial_delay calls : ℕ) (sleeps : List ℕ) : Type 0 where
      pub one_less : length sleeps + 1 ≡ calls
      pub within : All (IsBetween initial_delay max_delay) sleeps

    module _ (initial_delay : ℕ) (small : max_delay < 2 ^ 52)
        (grows : (delay : ℕ) → delay ≤ max_delay → delay ≤ mul_f64 delay multiplier) where
      current_delay-IsBetween :
          (delay seed : ℕ)
          → initial_delay ≤ delay
          → delay ≤ max_delay
          → IsBetween initial_delay max_delay (current_delay delay seed)
      unfolding current_delay jitter
      current_delay-IsBetween delay seed low high =
          let (no_less, no_more) =
            d.mul_f64-factor delay (seed % 1000) (omega arith) (omega (arith, high, small)) in
          (omega (arith, low, no_less), omega (arith, high, no_more))

      next_delay-bounds :
          (delay : ℕ)
          → initial_delay ≤ delay
          → delay ≤ max_delay
          → (initial_delay ≤ next_delay delay) × (next_delay delay ≤ max_delay)
      unfolding next_delay
      next_delay-bounds delay low high = (omega (arith, low, high, grows delay high), omega arith)

      -- The sleeps from a number of calls on.
      abbrev SleepsFrom : ℕ → List ℕ × (ℕ × Result E A) → Type 0
      SleepsFrom attempt r =
          (attempt + length r.0 + 1 ≡ r.1.0) × All (IsBetween initial_delay max_delay) r.0

      or_sleep-SleepsFrom :
          (attempt n sleep : ℕ) (r : Result E A) (rest : List ℕ × (ℕ × Result E A))
          → IsBetween initial_delay max_delay sleep
          → (leb n (attempt + 1) ≡ false → SleepsFrom (attempt + 1) rest)
          → SleepsFrom attempt (or_sleep (attempt + 1) n sleep r rest)
      or_sleep-SleepsFrom attempt n sleep (ok val) rest between onward = (omega arith, tt)
      or_sleep-SleepsFrom attempt n sleep (err e) rest between onward =
          elim (Bool-cases (leb n (attempt + 1))) [
            | inl done ↦ rw done (omega arith, tt)
            | inr more ↦
                let (count, within) = onward more in
                rw more (omega (arith, count), (between, within))
          ]

      backoff_from-SleepsFrom :
          (fuel attempt n delay : ℕ) (last : Result E A)
          → attempt + fuel ≡ max n 1
          → 0 < fuel
          → initial_delay ≤ delay
          → delay ≤ max_delay
          → SleepsFrom attempt (backoff_from fuel attempt n delay last)
      unfolding backoff_from
      backoff_from-SleepsFrom zero attempt n delay last total some_fuel low high =
          absurd (omega (arith, some_fuel))
      backoff_from-SleepsFrom (suc fuel) attempt n delay last total some_fuel low high =
          let (low', high') = next_delay-bounds delay low high in
          or_sleep-SleepsFrom attempt n (current_delay delay (seeds (attempt + 1))) (f attempt)
            (backoff_from fuel (attempt + 1) n (next_delay delay) (f attempt))
            (current_delay-IsBetween delay (seeds (attempt + 1)) low high)
            (λ more.
              backoff_from-SleepsFrom fuel (attempt + 1) n (next_delay delay) (f attempt)
                (omega (arith, total)) (ground (arith, total, more)) low' high')

      -- If the initial delay is at most the longest, that is under 2 ^ 52 nanoseconds, and the
      -- multiplier makes no delay up to the longest shorter, then whatever the clock reads, the closure
      -- is called until it succeeds, but no more often than allowed, and once at least: all calls before
      -- the last fail, the last gives the result, and it is a success unless it was the last one
      -- allowed. There is one sleep less than there are calls, and each takes no less than three quarters
      -- of the initial delay and no more than five quarters of the longest, up to a nanosecond.
      pub retry_sleeping-Outcome :
          (max_attempts : ℕ)
          → initial_delay ≤ max_delay
          → (let r = retry_sleeping max_attempts initial_delay in
              Outcome f max_attempts r.1 × Sleeps initial_delay r.1.0 r.0)
      unfolding retry_sleeping retry_with_backoff
      retry_sleeping-Outcome n low =
          let (count, within) =
            backoff_from-SleepsFrom (max n 1) 0 n initial_delay (f 0) (omega arith) (omega arith)
              (omega arith) low in
          (
            subst (Outcome f n) (sym (backoff_from-retry_from (max n 1) 0 n initial_delay (f 0)))
                (retry_with_backoff-Outcome f n),
            record { one_less = omega (arith, count); within = within },
          )
