-- ===== src/Limiter/Bucket.antt =====
-- `TokenBucketLimiter`. Times are readings of the clock in nanoseconds, given to each call.
use caminus.Prelude.{ℕ, ◌-◌, Bool, true, false, Option, none, some, List, [], ◌∷◌, if◌then◌else◌}
use caminus.Limiter.Float.{Float}

module _ (f : Float) where
  open f use {F, of_u32, one_millisecond, as_secs, from_secs, add, sub, mul, div, f_min, f_max, ge}

  pub record TokenBucketLimiter : Type 0 where
    pub capacity : ℕ
    pub tokens : F
    pub refill_rate_per_sec : F
    pub last_refill : ℕ

  abbrev pub new : ℕ → ℕ → F → TokenBucketLimiter
  new now capacity refill_rate_per_sec = record {
    capacity = capacity;
    tokens = of_u32 capacity;
    refill_rate_per_sec = refill_rate_per_sec;
    last_refill = now;
  }

  -- A reading that is before the last one counts as no time, as in `duration_since`.
  unfoldable pub refill : ℕ → TokenBucketLimiter → TokenBucketLimiter
  refill now s = record s {
    tokens =
        f_min (add s.tokens (mul (as_secs (now - s.last_refill)) s.refill_rate_per_sec))
          (of_u32 s.capacity);
    last_refill = now;
  }

  unfoldable pub take_tokens : ℕ → TokenBucketLimiter → Bool × TokenBucketLimiter
  take_tokens count s =
      if ge s.tokens (of_u32 count)
      then (true, record s { tokens = sub s.tokens (of_u32 count) })
      else (false, s)

  unfoldable pub try_acquire : ℕ → ℕ → TokenBucketLimiter → Bool × TokenBucketLimiter
  try_acquire now count s = take_tokens count (refill now s)

  -- How long `acquire` sleeps after a failed round; `none` is the panic of `Duration::from_secs_f64`,
  -- as on the infinite quotient by a rate of zero.
  unfoldable pub wait_time : ℕ → TokenBucketLimiter → Option ℕ
  wait_time count s =
      from_secs (f_max (div (sub (of_u32 count) s.tokens) s.refill_rate_per_sec) one_millisecond)

  -- What a call of `acquire` has come to: it has the tokens, sleeps, or has panicked. The locks are
  -- released before the panic.
  pub data Acquired : Type 0 where
    acquired : TokenBucketLimiter → Acquired
    sleeping : TokenBucketLimiter → Acquired
    panicked : TokenBucketLimiter → Acquired

  -- After the sleep comes the next round.
  abbrev pub after_wait : TokenBucketLimiter → Option ℕ → Acquired → Acquired
  after_wait s none again = panicked s
  after_wait s (some duration) again = again

  -- A granted round ends the loop.
  abbrev pub or_again : ℕ → Bool × TokenBucketLimiter → Acquired → Acquired
  or_again count (true, s) again = acquired s
  or_again count (false, s) again = after_wait s (wait_time count s) again

  -- The rounds of the loop at the readings in turn.
  unfoldable pub acquire : List ℕ → ℕ → TokenBucketLimiter → Acquired
  acquire [] count s = sleeping s
  acquire (now ∷ later) count s =
      let round = try_acquire now count s in or_again count round (acquire later count round.1)
