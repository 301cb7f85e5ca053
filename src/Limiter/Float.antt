-- ===== src/Limiter/Float.antt =====
-- What the limiters use of `f64`, which the language has and the model does not: its operations, and
-- the facts of IEEE 754 that are relied on.
use caminus.Prelude.{ℕ, ◌-◌, ◌^◌, ◌≤◌, ◌<◌, ◌≡◌, Bool, true, leb, min, Option}

pub record Float : Type 1 where
  pub F : Type 0
  pub of_u32 : ℕ → F
  pub one_millisecond : F
  -- `Duration::as_secs_f64` and `Duration::from_secs_f64`, of nanoseconds; `none` stands for the panic
  -- on a number that no duration has
  pub as_secs : ℕ → F
  pub from_secs : F → Option ℕ
  pub add : F → F → F
  pub sub : F → F → F
  pub mul : F → F → F
  pub div : F → F → F
  pub f_min : F → F → F
  pub f_max : F → F → F
  -- `a >= b`
  pub ge : F → F → Bool
  pub IsFinite : F → Type 0
  -- Integers of 32 bits are exact.
  pub ge-of_u32 : (a b : ℕ) → a < 2 ^ 32 → b < 2 ^ 32 → ge (of_u32 a) (of_u32 b) ≡ leb b a
  pub sub-of_u32 : (a b : ℕ) → a < 2 ^ 32 → b ≤ a → sub (of_u32 a) (of_u32 b) ≡ of_u32 (a - b)
  pub min-of_u32 :
      (a b : ℕ) → a < 2 ^ 32 → b < 2 ^ 32 → f_min (of_u32 a) (of_u32 b) ≡ of_u32 (min a b)
  -- A finite factor of zero seconds adds nothing.
  pub add-mul_zero :
      (a : ℕ) (rate : F) → IsFinite rate → add (of_u32 a) (mul (as_secs 0) rate) ≡ of_u32 a
  -- What is at most an integer stays so when nothing is added to it, and in a minimum.
  pub le-add_nothing :
      (x rate : F) (a : ℕ)
      → a < 2 ^ 32
      → IsFinite rate
      → ge (of_u32 a) x ≡ true
      → ge (of_u32 a) (add x (mul (as_secs 0) rate)) ≡ true
  pub le-min :
      (x y : F) (a : ℕ) → a < 2 ^ 32 → ge (of_u32 a) x ≡ true → ge (of_u32 a) (f_min x y) ≡ true
  -- The minimum with an integer is no more than it, whatever the other argument is.
  pub le-min_u32 : (x : F) (a : ℕ) → a < 2 ^ 32 → ge (of_u32 a) (f_min x (of_u32 a)) ≡ true
  -- A difference from what is at most an integer rounds to no more than the exact one.
  pub le-sub :
      (x : F) (a b : ℕ)
      → a < 2 ^ 32
      → b ≤ a
      → ge (of_u32 a) x ≡ true
      → ge (of_u32 (a - b)) (sub x (of_u32 b)) ≡ true
  pub ge-between :
      (x : F) (a b : ℕ)
      → a < 2 ^ 32
      → b < 2 ^ 32
      → ge (of_u32 a) x ≡ true
      → ge x (of_u32 b) ≡ true
      → b ≤ a
  -- The minimum with a number is at most that number, whatever the other argument is.
  pub ge-min :
      (x : F) (a b : ℕ)
      → a < 2 ^ 32
      → b < 2 ^ 32
      → ge (f_min x (of_u32 a)) (of_u32 b) ≡ true
      → b ≤ a
