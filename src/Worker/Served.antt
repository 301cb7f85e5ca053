-- ===== src/Worker/Served.antt =====
-- A task is not held up at first.
use caminus.Prelude.{
  ℕ, suc, ◌+◌, ◌^◌, ◌≤◌, ◌<◌, ◌≡◌, refl, ap, ◌∙◌, subst, Bool, true, false, List, [], ◌∷◌, length,
  map, arith, All,
}
use caminus.Limiter.Bucket.{TokenBucketLimiter, new, acquire, acquired}
use caminus.Limiter.Floors.{
  Floors, IsRead, HasAtLeast, less-HasAtLeast, acquire-HasAtLeast, new-HasAtLeast,
}
use caminus.Worker.World.{World, Labels}
use caminus.Worker.Defs.{Turn}
use caminus.Worker.Items.{granted, or_kept, serve, served, item}

module _ (world : World) (labels : Labels) where
  open world use {float, StreamError}

  abbrev pub IsTimed : Turn world labels → Type 0
  IsTimed turn = IsRead (turn.rounds, 1)

  module _ (laws : Floors float) (capacity : ℕ) (u32 : capacity < 2 ^ 32) where
    abbrev Has : ℕ → TokenBucketLimiter float → Type 0
    Has n limiter = HasAtLeast float laws n capacity limiter

    granted-Has :
        (n : ℕ) (limiter : TokenBucketLimiter float) (turn : Turn world labels) (leader : Bool)
        (rounds : List ℕ)
        → n + 1 ≤ capacity
        → turn.rounds ≡ rounds
        → IsRead (rounds, 1)
        → Has (n + 1) limiter
        → (later : TokenBucketLimiter float) × (granted world labels limiter turn leader
            ≡ acquired later)
          × Has n later
    granted-Has n limiter turn false rounds fits same read h = (
      limiter,
      refl,
      less-HasAtLeast float laws n (n + 1) capacity limiter (omega arith) (omega (arith, fits, u32))
          h,
    )
    granted-Has n limiter turn true [] fits same read h = absurd read
    granted-Has n limiter turn true (now ∷ more) fits same read h =
        let (later, ends, left) =
          acquire-HasAtLeast float laws n 1 capacity now more limiter fits u32 h in
        (later, ap (λ r. acquire float r 1 limiter) same ∙ ends, left)

    served-Has :
        (n : ℕ) (turns : List (Turn world labels)) (limiter : TokenBucketLimiter float)
        → n + length turns ≤ capacity
        → All IsTimed turns
        → Has (n + length turns) limiter
        → served world labels limiter turns ≡ map (item world labels) turns
    unfolding served
    served-Has n [] limiter fits timed h = refl
    served-Has n (turn ∷ turns) limiter fits timed h =
        let same : n + suc (length turns) ≡ n + length turns + 1 = omega arith in
        let (later, ends, left) =
          granted-Has (n + length turns) limiter turn turn.is_leader turn.rounds
            (omega (arith, fits)) refl timed.0 (subst (λ i. Has i limiter) same h) in
        ap
          (λ bucket.
            serve world labels turn.is_leader turn.event_result bucket
              (served world labels (or_kept world labels limiter bucket) turns))
          ends
        ∙ ap (◌∷◌ (item world labels turn))
            (served-Has n turns later (omega (arith, fits)) timed.1 left)

    -- With a new bucket to itself, of a capacity of 32 bits and a rate that is not negative, a task
    -- gets a token at once for each of its first turns, as many as the capacity, whatever the clock
    -- reads: the items that are served are all those of the stream.
    pub served-at_first :
        (created : ℕ) (rate : float.F) (turns : List (Turn world labels))
        → laws.IsNonNegative rate
        → length turns ≤ capacity
        → All IsTimed turns
        → served world labels (new float created capacity rate) turns
          ≡ map (item world labels) turns
    served-at_first created rate turns positive fits timed =
        let none_more : length turns ≡ 0 + length turns = omega arith in
        served-Has 0 turns (new float created capacity rate) (omega (arith, fits)) timed (
          subst (λ i. Has i (new float created capacity rate)) none_more
            (less-HasAtLeast float laws (length turns) capacity capacity _ fits u32
              (new-HasAtLeast float laws created capacity rate u32 positive)))
