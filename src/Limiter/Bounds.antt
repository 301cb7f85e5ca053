-- ===== src/Limiter/Bounds.antt =====
-- How many tokens a bucket gives.
use caminus.Prelude.{
  ℕ, ◌+◌, ◌-◌, ◌^◌, ◌≤◌, ◌<◌, ◌≡◌, refl, ap, ◌∙◌, Bool, true, false, none, List, [], ◌∷◌, leb, All,
  Bool-cases, Option-cases, ◌⊎◌, inl, inr, arith, if◌then◌else◌,
}
use caminus.Limiter.Float.{Float}
use caminus.Limiter.Bucket.{
  TokenBucketLimiter, new, refill, take_tokens, try_acquire, or_again, after_wait, wait_time,
  acquire, sleeping, panicked,
}

-- A counter of whole tokens that is not refilled: what it answers to requests in turn.
abbrev pub grants : ℕ → List ℕ → List Bool
grants left [] = []
grants left (count ∷ counts) =
    if leb count left then true ∷ grants (left - count) counts else false ∷ grants left counts

abbrev pub if_granted : Bool → ℕ → ℕ
if_granted true count = count
if_granted false count = 0

abbrev pub granted_sum : List Bool → List ℕ → ℕ
granted_sum [] counts = 0
granted_sum (g ∷ gs) [] = 0
granted_sum (g ∷ gs) (count ∷ counts) = if_granted g count + granted_sum gs counts

granted_sum-grants : (left : ℕ) (counts : List ℕ) → granted_sum (grants left counts) counts ≤ left
granted_sum-grants left [] = omega arith
granted_sum-grants left (count ∷ counts) = elim (Bool-cases (leb count left)) [
  | inl enough ↦ rw enough (ground (arith, enough, granted_sum-grants (left - count) counts))
  | inr short ↦ rw short (omega (arith, granted_sum-grants left counts))
]

module _ (f : Float) where
  open f use {F, of_u32, as_secs, add, mul, f_min, ge, IsFinite}

  -- The answers to requests at one instant, in turn.
  unfoldable pub try_all : ℕ → List ℕ → TokenBucketLimiter f → List Bool
  try_all now [] s = []
  try_all now (count ∷ counts) s =
      let tried = try_acquire f now count s in tried.0 ∷ try_all now counts tried.1

  module _ (now capacity : ℕ) (rate : F) (u32 : capacity < 2 ^ 32) (finite : IsFinite rate) where
    abbrev bucket : F → TokenBucketLimiter f
    bucket tokens = record {
      capacity = capacity;
      tokens = tokens;
      refill_rate_per_sec = rate;
      last_refill = now;
    }

    no_time :
        (left : ℕ) → left ≤ capacity → refill f now (bucket (of_u32 left)) ≡ bucket (of_u32 left)
    unfolding refill
    no_time left fits =
        ap (λ t. bucket (f_min (add (of_u32 left) (mul (as_secs t) rate)) (of_u32 capacity)))
          (omega arith)
        ∙ ap (λ x. bucket (f_min x (of_u32 capacity))) (f.add-mul_zero left rate finite)
        ∙ ap bucket (f.min-of_u32 left capacity (omega arith) u32)
        ∙ ap (λ n. bucket (of_u32 n)) (omega arith)

    abbrev taken : Bool → ℕ → ℕ → Bool × TokenBucketLimiter f
    taken true left count = (true, bucket (of_u32 (left - count)))
    taken false left count = (false, bucket (of_u32 left))

    take_now :
        (left count : ℕ)
        → left ≤ capacity
        → count < 2 ^ 32
        → try_acquire f now count (bucket (of_u32 left)) ≡ taken (leb count left) left count
    unfolding try_acquire take_tokens
    take_now left count fits small =
        let test : ge (of_u32 left) (of_u32 count) ≡ leb count left =
          f.ge-of_u32 left count (omega arith) small in
        ap (take_tokens f count) (no_time left fits) ∙ elim (Bool-cases (leb count left)) [
          | inl enough ↦
              rw (test, enough)
                (ap (λ x. (true, bucket x))
                  (f.sub-of_u32 left count (omega arith) (ground (arith, enough))))
          | inr short ↦ rw (test, short) refl
        ]

    try_all-grants :
        (left : ℕ) (counts : List ℕ)
        → left ≤ capacity
        → All (λ c. c < 2 ^ 32) counts
        → try_all now counts (bucket (of_u32 left)) ≡ grants left counts
    unfolding try_all
    try_all-grants left [] fits small = refl
    try_all-grants left (count ∷ counts) fits small =
        ap (λ r. r.0 ∷ try_all now counts r.1) (take_now left count fits small.0)
        ∙ elim (Bool-cases (leb count left)) [
          | inl enough ↦
              rw enough (ap (◌∷◌ true) (try_all-grants (left - count) counts (omega arith) small.1))
          | inr short ↦ rw short (ap (◌∷◌ false) (try_all-grants left counts fits small.1))
        ]

    -- A new bucket with a capacity of 32 bits and a finite rate answers requests of 32 bits that come
    -- at the instant of its making as a counter of `capacity` whole tokens does: each is granted
    -- exactly if so many tokens are left of those before it.
    new-grants :
        (counts : List ℕ)
        → All (λ c. c < 2 ^ 32) counts
        → try_all now counts (new f now capacity rate) ≡ grants capacity counts
    new-grants counts small = try_all-grants capacity counts (omega arith) small

  module _ (now : ℕ) where
    -- At the instant of its last refill, with no more than so many tokens.
    record HasAtMost (left : ℕ) (s : TokenBucketLimiter f) : Type 0 where
      no_more : ge (of_u32 left) s.tokens ≡ true
      within : left ≤ s.capacity
      u32 : s.capacity < 2 ^ 32
      finite : IsFinite s.refill_rate_per_sec
      refilled : now - s.last_refill ≡ 0

    refill-HasAtMost :
        (left : ℕ) (s : TokenBucketLimiter f) → HasAtMost left s → HasAtMost left (refill f now s)
    unfolding refill
    refill-HasAtMost left s h = record {
      no_more = f.le-min _ _ left (omega (arith, h.within, h.u32)) (
          rw h.refilled (
            f.le-add_nothing s.tokens s.refill_rate_per_sec left (omega (arith, h.within, h.u32))
              h.finite h.no_more));
      within = h.within;
      u32 = h.u32;
      finite = h.finite;
      refilled = omega arith;
    }

    -- The first refill leaves at most the capacity, whatever the tokens were.
    first_refill :
        (s : TokenBucketLimiter f)
        → s.capacity < 2 ^ 32
        → IsFinite s.refill_rate_per_sec
        → HasAtMost s.capacity (refill f now s)
    unfolding refill
    first_refill s u32 finite = record {
      no_more = f.le-min_u32 _ s.capacity u32;
      within = omega arith;
      u32 = u32;
      finite = finite;
      refilled = omega arith;
    }

    refilled-granted :
        (left count : ℕ) (counts : List ℕ) (s : TokenBucketLimiter f)
        → count < 2 ^ 32
        → HasAtMost left s
        → ((i : ℕ) (t : TokenBucketLimiter f)
            → HasAtMost i t
            → granted_sum (try_all now counts t) counts ≤ i)
        → granted_sum
            ((take_tokens f count s).0 ∷ try_all now counts (take_tokens f count s).1)
            (count ∷ counts)
          ≤ left
    unfolding take_tokens
    refilled-granted left count counts s small h rest =
        elim (Bool-cases (ge s.tokens (of_u32 count))) [
          | inl enough ↦
              let fits : count ≤ left =
                f.ge-between s.tokens left count (omega (arith, h.within, h.u32)) small h.no_more
                  enough in
              let s' : TokenBucketLimiter f = record s { tokens = f.sub s.tokens (of_u32 count) } in
              let others = rest (left - count) s' record {
                no_more =
                    f.le-sub s.tokens left count (omega (arith, h.within, h.u32)) fits h.no_more;
                within = omega (arith, h.within);
                u32 = h.u32;
                finite = h.finite;
                refilled = h.refilled;
              } in
              rw enough (omega (arith, fits, others))
          | inr short ↦ rw short (omega (arith, rest left s h))
        ]

    try_all-granted :
        (left : ℕ) (counts : List ℕ) (s : TokenBucketLimiter f)
        → All (λ c. c < 2 ^ 32) counts
        → HasAtMost left s
        → granted_sum (try_all now counts s) counts ≤ left
    unfolding try_all try_acquire
    try_all-granted left [] s small h = omega arith
    try_all-granted left (count ∷ counts) s small h =
        refilled-granted left count counts (refill f now s) small.0 (refill-HasAtMost left s h)
          (λ i t. try_all-granted i counts t small.1)

    -- Requests of 32 bits that a bucket gets at one instant, whatever its tokens and its last refill
    -- are: those that are granted together take no more than the capacity. The capacity has 32 bits
    -- and the rate is finite.
    pub burst :
        (counts : List ℕ) (s : TokenBucketLimiter f)
        → s.capacity < 2 ^ 32
        → IsFinite s.refill_rate_per_sec
        → All (λ c. c < 2 ^ 32) counts
        → granted_sum (try_all now counts s) counts ≤ s.capacity
    unfolding try_all try_acquire
    burst [] s u32 finite small = omega arith
    burst (count ∷ counts) s u32 finite small =
        refilled-granted s.capacity count counts (refill f now s) small.0
          (first_refill s u32 finite) (λ i t. try_all-granted i counts t small.1)

  refused :
      (now count : ℕ) (s : TokenBucketLimiter f)
      → s.capacity < count
      → count < 2 ^ 32
      → try_acquire f now count s ≡ (false, refill f now s)
  unfolding try_acquire take_tokens refill
  refused now count s short small = elim (Bool-cases (ge (refill f now s).tokens (of_u32 count))) [
    | inl enough ↦ absurd (omega (arith, f.ge-min _ s.capacity count (omega arith) small enough))
    | inr less ↦ rw less refl
  ]

  refill-capacity : (now : ℕ) (s : TokenBucketLimiter f) → (refill f now s).capacity ≡ s.capacity
  unfolding refill
  refill-capacity now s = refl

  -- A request of 32 bits for more than the capacity is never granted: after any number of rounds
  -- `acquire` sleeps, or it has panicked at a wait that no duration has, whatever the state of the
  -- bucket and the readings of the clock.
  pub acquire_too_many :
      (readings : List ℕ) (count : ℕ) (s : TokenBucketLimiter f)
      → s.capacity < count
      → count < 2 ^ 32
      → (t : TokenBucketLimiter f) × ((acquire f readings count s ≡ sleeping t)
          ⊎ ((acquire f readings count s ≡ panicked t) × (wait_time f count t ≡ none)))
  unfolding acquire
  acquire_too_many [] count s short small = (s, inl refl)
  acquire_too_many (now ∷ later) count s short small =
      let t = refill f now s in
      let e =
        ap (λ r. or_again f count r (acquire f later count r.1))
          (refused now count s short small) in
      elim (Option-cases (wait_time f count t)) [
        | inl stuck ↦
            (t, inr (e ∙ ap (λ o. after_wait f t o (acquire f later count t)) stuck, stuck))
        | inr (d, waits) ↦
            let same = e ∙ ap (λ o. after_wait f t o (acquire f later count t)) waits in
            let (u, out) =
              acquire_too_many later count t (omega (arith, refill-capacity now s, short)) small in
            (u, rw same out)
      ]
