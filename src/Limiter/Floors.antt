-- ===== src/Limiter/Floors.antt =====
-- What a bucket has at least, whatever the clock reads, and the requests that it grants at once.
use caminus.Prelude.{
  ℕ, ◌+◌, ◌-◌, ◌^◌, ◌≤◌, ◌<◌, ◌≡◌, refl, ap, subst, ◌∙◌, true, List, [], ◌∷◌, arith, All,
}
use caminus.Limiter.Float.{Float}
use caminus.Limiter.Bucket.{
  TokenBucketLimiter, new, refill, take_tokens, try_acquire, or_again, acquire, Acquired, acquired,
  sleeping, panicked,
}

-- The facts of IEEE 754 that are relied on here: sums with what is not negative, minima and
-- differences round to what is no less than an integer of 32 bits that is below.
pub record Floors (f : Float) : Type 1 where
  -- finite, and not below zero
  pub IsNonNegative : f.F → Type 0
  pub ge-add :
      (x rate : f.F) (n elapsed : ℕ)
      → n < 2 ^ 32
      → IsNonNegative rate
      → f.ge x (f.of_u32 n) ≡ true
      → f.ge (f.add x (f.mul (f.as_secs elapsed) rate)) (f.of_u32 n) ≡ true
  pub ge-f_min :
      (x : f.F) (n c : ℕ)
      → n ≤ c
      → c < 2 ^ 32
      → f.ge x (f.of_u32 n) ≡ true
      → f.ge (f.f_min x (f.of_u32 c)) (f.of_u32 n) ≡ true
  pub ge-sub :
      (x : f.F) (n k : ℕ)
      → n + k < 2 ^ 32
      → f.ge x (f.of_u32 (n + k)) ≡ true
      → f.ge (f.sub x (f.of_u32 k)) (f.of_u32 n) ≡ true
  pub ge-le :
      (x : f.F) (m n : ℕ)
      → m ≤ n
      → n < 2 ^ 32
      → f.ge x (f.of_u32 n) ≡ true
      → f.ge x (f.of_u32 m) ≡ true

abbrev pub sum_counts : List (List ℕ × ℕ) → ℕ
sum_counts [] = 0
sum_counts ((readings, count) ∷ calls) = count + sum_counts calls

-- The clock is read at least once.
abbrev pub IsRead : List ℕ × ℕ → Type 0
IsRead ([], count) = ⊥
IsRead (now ∷ later, count) = Unit {0}

module _ (f : Float) where
  abbrev S : Type 0
  S = TokenBucketLimiter f

  abbrev pub and_then : Acquired f → (S → Acquired f) → Acquired f
  and_then (acquired s) next = next s
  and_then (sleeping s) next = sleeping s
  and_then (panicked s) next = panicked s

  -- Calls of `acquire` in turn, each with the readings in its rounds.
  unfoldable pub acquire_all : List (List ℕ × ℕ) → S → Acquired f
  acquire_all [] s = acquired s
  acquire_all ((readings, count) ∷ calls) s =
      and_then (acquire f readings count s) (acquire_all calls)

  module _ (laws : Floors f) where
    -- So many tokens at least, with a capacity of 32 bits and a rate that is not negative.
    pub record HasAtLeast (n capacity : ℕ) (s : S) : Type 0 where
      pub tokens_left : f.ge s.tokens (f.of_u32 n) ≡ true
      pub same_capacity : s.capacity ≡ capacity
      pub rate : laws.IsNonNegative s.refill_rate_per_sec

    pub new-HasAtLeast :
        (created capacity : ℕ) (rate : f.F)
        → capacity < 2 ^ 32
        → laws.IsNonNegative rate
        → HasAtLeast capacity capacity (new f created capacity rate)
    new-HasAtLeast created capacity rate u32 positive = record {
      tokens_left = f.ge-of_u32 capacity capacity u32 u32 ∙ ground arith;
      same_capacity = refl;
      rate = positive;
    }

    pub less-HasAtLeast :
        (m n capacity : ℕ) (s : S)
        → m ≤ n
        → n < 2 ^ 32
        → HasAtLeast n capacity s
        → HasAtLeast m capacity s
    less-HasAtLeast m n capacity s below u32 h = record {
      tokens_left = laws.ge-le s.tokens m n below u32 h.tokens_left;
      same_capacity = h.same_capacity;
      rate = h.rate;
    }

    refill-HasAtLeast :
        (n capacity now : ℕ) (s : S)
        → n ≤ capacity
        → capacity < 2 ^ 32
        → HasAtLeast n capacity s
        → HasAtLeast n capacity (refill f now s)
    unfolding refill
    refill-HasAtLeast n capacity now s fits u32 h = record {
      tokens_left =
          laws.ge-f_min _ n s.capacity (omega (arith, h.same_capacity))
            (omega (arith, h.same_capacity))
            (laws.ge-add s.tokens s.refill_rate_per_sec n (now - s.last_refill) (omega arith) h.rate
              h.tokens_left);
      same_capacity = h.same_capacity;
      rate = h.rate;
    }

    take_tokens-HasAtLeast :
        (n k capacity : ℕ) (s : S)
        → n + k ≤ capacity
        → capacity < 2 ^ 32
        → HasAtLeast (n + k) capacity s
        → (s' : S) × (take_tokens f k s ≡ (true, s')) × HasAtLeast n capacity s'
    unfolding take_tokens
    take_tokens-HasAtLeast n k capacity s fits u32 h =
        let enough : f.ge s.tokens (f.of_u32 k) ≡ true =
          laws.ge-le s.tokens k (n + k) (omega arith) (omega arith) h.tokens_left in
        (
          record s { tokens = f.sub s.tokens (f.of_u32 k) },
          rw enough refl,
          record {
            tokens_left = laws.ge-sub s.tokens n k (omega arith) h.tokens_left;
            same_capacity = h.same_capacity;
            rate = h.rate;
          },
        )

    pub acquire-HasAtLeast :
        (n k capacity now : ℕ) (later : List ℕ) (s : S)
        → n + k ≤ capacity
        → capacity < 2 ^ 32
        → HasAtLeast (n + k) capacity s
        → (s' : S) × (acquire f (now ∷ later) k s ≡ acquired s') × HasAtLeast n capacity s'
    unfolding acquire try_acquire
    acquire-HasAtLeast n k capacity now later s fits u32 h =
        let (s', taken, rest) =
          take_tokens-HasAtLeast n k capacity (refill f now s) fits u32
            (refill-HasAtLeast (n + k) capacity now s fits u32 h) in
        (s', ap (λ r. or_again f k r (acquire f later k r.1)) taken, rest)

    acquire_all-HasAtLeast :
        (n capacity : ℕ) (calls : List (List ℕ × ℕ)) (s : S)
        → n + sum_counts calls ≤ capacity
        → capacity < 2 ^ 32
        → All IsRead calls
        → HasAtLeast (n + sum_counts calls) capacity s
        → (s' : S) × (acquire_all calls s ≡ acquired s') × HasAtLeast n capacity s'
    unfolding acquire_all
    acquire_all-HasAtLeast n capacity [] s fits u32 read h =
        let same : n + 0 ≡ n = omega arith in (s, refl, subst (λ i. HasAtLeast i capacity s) same h)
    acquire_all-HasAtLeast n capacity (([], k) ∷ calls) s fits u32 read h = absurd (read.0)
    acquire_all-HasAtLeast n capacity ((now ∷ later, k) ∷ calls) s fits u32 read h =
        let same : n + (k + sum_counts calls) ≡ n + sum_counts calls + k = omega arith in
        let below : n + sum_counts calls ≤ capacity = omega (arith, fits) in
        let (s1, first, h1) =
          acquire-HasAtLeast (n + sum_counts calls) k capacity now later s (omega (arith, fits)) u32
            (subst (λ i. HasAtLeast i capacity s) same h) in
        let (s', others, rest) = acquire_all-HasAtLeast n capacity calls s1 below u32 read.1 h1 in
        (s', ap (λ o. and_then o (acquire_all calls)) first ∙ others, rest)

    -- A new bucket with a capacity of 32 bits and a rate that is not negative grants requests in turn
    -- whose counts sum up to no more than the capacity, each in its first round, whatever the clock
    -- reads, later or earlier than before. What is left is no less than the rest of the capacity.
    pub acquire_all-ends :
        (created capacity : ℕ) (rate : f.F) (calls : List (List ℕ × ℕ))
        → sum_counts calls ≤ capacity
        → capacity < 2 ^ 32
        → laws.IsNonNegative rate
        → All IsRead calls
        → (s : S) × (acquire_all calls (new f created capacity rate) ≡ acquired s)
          × (f.ge s.tokens (f.of_u32 (capacity - sum_counts calls)) ≡ true)
    acquire_all-ends created capacity rate calls fits u32 positive read =
        let whole : capacity ≡ capacity - sum_counts calls + sum_counts calls =
          omega (arith, fits) in
        let (s, ends, h) =
          acquire_all-HasAtLeast (capacity - sum_counts calls) capacity calls
            (new f created capacity rate) (omega (arith, fits)) u32 read
            (subst (λ i. HasAtLeast i capacity (new f created capacity rate)) whole
              (new-HasAtLeast created capacity rate u32 positive)) in
        (s, ends, h.tokens_left)
