-- ===== src/Limiter/Instances.antt =====
-- Tokens in billionths, counted exactly: arithmetic that has the laws.
use caminus.Prelude.{ℕ, ◌*◌, ◌+◌, ◌-◌, ◌/◌, ◌^◌, ◌≤◌, ◌≡◌, min, max, leb, true, arith, some}
use caminus.Limiter.Float.{Float}
use caminus.Limiter.Floors.{Floors}

abbrev pub one : ℕ
one = 10 ^ 9

pub leb-scaled : (a b : ℕ) → leb (b * one) (a * one) ≡ leb b a
leb-scaled a b = ground arith

pub min-scaled : (a b : ℕ) → min (a * one) (b * one) ≡ min a b * one
min-scaled a b = omega arith

pub sub-scaled : (a b : ℕ) → b ≤ a → a * one - b * one ≡ (a - b) * one
sub-scaled a b h = omega arith

pub nothing_added : (a rate : ℕ) → a * one + 0 * rate / one ≡ a * one
nothing_added a rate = grind arith

pub le_of_min : (x a b : ℕ) → leb (b * one) (min x (a * one)) ≡ true → b ≤ a
le_of_min x a b h = ground arith

pub nothing_more :
    (x rate a : ℕ) → leb x (a * one) ≡ true → leb (x + 0 * rate / one) (a * one) ≡ true
nothing_more x rate a h = grind (arith, h)

pub le_min : (x y a : ℕ) → leb x (a * one) ≡ true → leb (min x y) (a * one) ≡ true
le_min x y a h = ground (arith, h)

pub le_min_self : (x a : ℕ) → leb (min x (a * one)) (a * one) ≡ true
le_min_self x a = ground arith

pub le_difference :
    (x a b : ℕ) → b ≤ a → leb x (a * one) ≡ true → leb (x - b * one) ((a - b) * one) ≡ true
le_difference x a b fits h = ground (arith, fits, h)

pub between : (x a b : ℕ) → leb x (a * one) ≡ true → leb (b * one) x ≡ true → b ≤ a
between x a b h k = ground (arith, h, k)

abbrev pub billionths : Float
billionths = record {
  F = ℕ;
  of_u32 = λ n. n * one;
  one_millisecond = 10 ^ 6;
  as_secs = λ nanoseconds. nanoseconds;
  from_secs = λ seconds. some seconds;
  add = λ a b. a + b;
  sub = λ a b. a - b;
  mul = λ a b. a * b / one;
  div = λ a b. a * one / b;
  f_min = min;
  f_max = max;
  ge = λ a b. leb b a;
  IsFinite = λ a. Unit {0};
  ge-of_u32 = λ a b ha hb. leb-scaled a b;
  sub-of_u32 = λ a b ha h. sub-scaled a b h;
  min-of_u32 = λ a b ha hb. min-scaled a b;
  add-mul_zero = λ a rate h. nothing_added a rate;
  le-add_nothing = λ x rate a small r h. nothing_more x rate a h;
  le-min = λ x y a small h. le_min x y a h;
  le-min_u32 = λ x a small. le_min_self x a;
  le-sub = λ x a b small fits h. le_difference x a b fits h;
  ge-between = λ x a b ha hb h k. between x a b h k;
  ge-min = λ x a b ha hb h. le_of_min x a b h;
}

pub ge_sum : (x n more : ℕ) → leb (n * one) x ≡ true → leb (n * one) (x + more) ≡ true
ge_sum x n more h = ground (arith, h)

pub ge_min : (x n c : ℕ) → n ≤ c → leb (n * one) x ≡ true → leb (n * one) (min x (c * one)) ≡ true
ge_min x n c h enough = ground (arith, h, enough)

pub ge_difference : (x n k : ℕ) → leb ((n + k) * one) x ≡ true → leb (n * one) (x - k * one) ≡ true
ge_difference x n k h = ground (arith, h)

pub ge_less : (x m n : ℕ) → m ≤ n → leb (n * one) x ≡ true → leb (m * one) x ≡ true
ge_less x m n h enough = ground (arith, h, enough)

abbrev pub billionths_floors : Floors billionths
billionths_floors = record {
  IsNonNegative = λ a. Unit {0};
  ge-add = λ x rate n elapsed small r h. ge_sum x n _ h;
  ge-f_min = λ x n c h u32 enough. ge_min x n c h enough;
  ge-sub = λ x n k u32 h. ge_difference x n k h;
  ge-le = λ x m n h u32 enough. ge_less x m n h enough;
}
