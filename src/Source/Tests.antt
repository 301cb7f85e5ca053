-- ===== src/Source/Tests.antt =====
-- Retries and starts of streams, and the theorems about them.
use native.Mathlib.Nat.{mul-le-mul_left}
use caminus.Prelude.{◌<◌, ◌≤◌, ◌*◌, ◌/◌, [], ◌∷◌, ◌+◌, arith, ℕ, zero, suc, ◌≡◌, refl}
use caminus.Prelude.Fallible.{Result, ok, err}
use caminus.Source.Retry.{retry_from, retry_with_backoff}
use caminus.Source.Backoff.{
  Durations, jitter, current_delay, next_delay, backoff_from, retry_sleeping, Sleeps,
  retry_sleeping-Outcome,
}
use caminus.Source.Attempts.{Outcome}

program : Unit {0}
unfolding retry_from retry_with_backoff jitter current_delay next_delay backoff_from retry_sleeping
program = tt

-- Two calls fail and the third succeeds.
abbrev third_time : ℕ → Result ℕ ℕ
third_time zero = err 0
third_time (suc zero) = err 1
third_time (suc (suc n)) = ok 7

three_calls : retry_with_backoff third_time 5 ≡ (3, ok 7)
unfolding program
three_calls = refl

two_calls : retry_with_backoff third_time 2 ≡ (2, err 1)
unfolding program
two_calls = refl

abbrev thousandths_of : ℕ → ℕ → ℕ
thousandths_of delay n = delay * (750 + n * 1000 / 2000) / 1000

rounded :
    (delay n : ℕ)
    → n < 1000
    → (3 * delay ≤ 4 * thousandths_of delay n + 4) × (4 * thousandths_of delay n ≤ 5 * delay + 4)
rounded delay n small =
    let low : delay * 750 ≤ delay * (750 + n * 1000 / 2000) = mul-le-mul_left delay (omega arith) in
    let high : delay * (750 + n * 1000 / 2000) ≤ delay * 1250 =
      mul-le-mul_left delay (omega (arith, small)) in
    (of_product _ low, of_product_above _ high)
  where
    of_product : (p : ℕ) → delay * 750 ≤ p → 3 * delay ≤ 4 * (p / 1000) + 4
    of_product p low = omega (arith, low)

    of_product_above : (p : ℕ) → p ≤ delay * 1250 → 4 * (p / 1000) ≤ 5 * delay + 4
    of_product_above p high = omega (arith, high)

-- Factors in thousandths.
abbrev thousandths : Durations
thousandths = record {
  F = ℕ;
  of_u64 = λ n. n * 1000;
  three_quarters = 750;
  two_thousand = 2000;
  add = λ a b. a + b;
  div = λ a b. a / b;
  mul_f64 = λ delay factor. delay * factor / 1000;
  mul_f64-factor = λ delay n small u52. rounded delay n small;
}

doubled : (delay : ℕ) → delay ≤ 500 → delay ≤ delay * 2000 / 1000
doubled delay fits = omega arith

-- Of two failed calls.
two_sleeps :
    retry_sleeping thousandths 2000 500 (λ attempt. 998 * attempt) third_time 5 50
    ≡ (62 ∷ 124 ∷ [], (3, ok 7))
unfolding program
two_sleeps = refl

retry_sleeping-Outcome_example :
    (let r = retry_sleeping thousandths 2000 500 (λ attempt. 998 * attempt) third_time 5 50 in
      Outcome third_time 5 r.1
      × Sleeps thousandths 2000 500 (λ attempt. 998 * attempt) third_time 50 r.1.0 r.0)
retry_sleeping-Outcome_example =
    retry_sleeping-Outcome thousandths 2000 500 (λ attempt. 998 * attempt) third_time 50
      (omega arith) doubled 5 (omega arith)
