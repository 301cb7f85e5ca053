-- ===== src/Worker/Items.antt =====
-- The items of the stream that a worker comes to.
use caminus.Prelude.{Bool, true, false, List, [], ◌∷◌, Result}
use caminus.Event.{ChangeEvent}
use caminus.Limiter.Bucket.{TokenBucketLimiter, acquire, Acquired, acquired, sleeping, panicked}
use caminus.Worker.World.{World, Labels}
use caminus.Worker.Defs.{Turn}

module _ (world : World) (labels : Labels) where
  open world use {float, StreamError}

  abbrev pub Bucket : Type 0
  Bucket = TokenBucketLimiter float

  -- The bucket after the wait for a token, which a node that is no leader does not take.
  abbrev pub granted : Bucket → Turn world labels → Bool → Acquired float
  granted limiter turn false = acquired limiter
  granted limiter turn true = acquire float turn.rounds 1 limiter

  abbrev pub or_kept : Bucket → Acquired float → Bucket
  or_kept limiter (acquired limiter') = limiter'
  or_kept limiter (sleeping limiter') = limiter'
  or_kept limiter (panicked limiter') = limiter'

  abbrev pub serve :
      Bool
      → Result StreamError ChangeEvent
      → Acquired float
      → List (Bool × Result StreamError ChangeEvent)
      → List (Bool × Result StreamError ChangeEvent)
  serve is_leader event_result (sleeping limiter) later = []
  serve is_leader event_result (panicked limiter) later = []
  serve is_leader event_result (acquired limiter) later = (is_leader, event_result) ∷ later

  -- The items up to the first whose wait for a token does not end.
  unfoldable pub served :
      Bucket → List (Turn world labels) → List (Bool × Result StreamError ChangeEvent)
  served limiter [] = []
  served limiter (turn ∷ turns) =
      let bucket = granted limiter turn turn.is_leader in
      serve turn.is_leader turn.event_result bucket (served (or_kept limiter bucket) turns)

  -- What the pipeline sees of a turn.
  abbrev pub item : Turn world labels → Bool × Result StreamError ChangeEvent
  item turn = (turn.is_leader, turn.event_result)
