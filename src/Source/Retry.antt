-- ===== src/Source/Retry.antt =====
-- `retry_with_backoff` (src/source/mod.rs). What the closure returns is a function of the number of
-- the call, from zero. Backoff has the delays.
use caminus.Prelude.{ℕ, zero, suc, ◌+◌, max, leb, if◌then◌else◌, Result, ok, err}

module _ {E A : Type 0} (f : ℕ → Result E A) where
  -- After a failed call: the limit is tested, and there is another call.
  abbrev pub or_retry : ℕ → ℕ → Result E A → ℕ × Result E A → ℕ × Result E A
  or_retry attempt max_attempts (ok val) rest = (attempt, ok val)
  or_retry attempt max_attempts (err e) rest =
      if leb max_attempts attempt then (attempt, err e) else rest

  -- The loop, with the number of calls and what the last one returned. Without fuel it is that of the
  -- call that was made last.
  unfoldable pub retry_from : ℕ → ℕ → ℕ → Result E A → ℕ × Result E A
  retry_from zero attempt max_attempts last = (attempt, last)
  retry_from (suc fuel) attempt max_attempts last =
      or_retry (attempt + 1) max_attempts (f attempt)
        (retry_from fuel (attempt + 1) max_attempts (f attempt))

  -- As many rounds as calls are allowed, and one at least.
  unfoldable pub retry_with_backoff : ℕ → ℕ × Result E A
  retry_with_backoff max_attempts = retry_from (max max_attempts 1) 0 max_attempts (f 0)
