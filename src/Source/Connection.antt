-- ===== src/Source/Connection.antt =====
-- The start of a stream (src/source/postgres.rs, src/source/cassandra.rs): each source counts its calls
-- for all its streams, and the first two of them meet a simulated outage.
use caminus.Prelude.{
  ℕ, ◌+◌, ◌-◌, ◌%◌, ◌^◌, ◌<◌, ◌≡◌, ap, ◌∙◌, max, ltb, Option, Result, ok, err, if◌then◌else◌, arith,
  inl, inr, ◌⊎◌,
}
use caminus.Text.Defs.{Text, codes}
use caminus.Source.Retry.{retry_with_backoff}
use caminus.Source.Attempts.{Fails, Outcome, retry_with_backoff-Outcome}
use caminus.Source.Postgres.{start_seq}

pub data PostgresSourceError : Type 0 where
  connection : Text → PostgresSourceError
  slot : Text → PostgresSourceError
  parse : Text → PostgresSourceError

pub data CassandraSourceError : Type 0 where
  directory_access : Text → CassandraSourceError
  commit_log_parse : Text → CassandraSourceError

module _ {E : Type 0} (outage : E) where
  -- What the call with the given number returns, after so many calls by earlier streams.
  unfoldable pub make_conn : ℕ → ℕ → Result E (Unit {0})
  make_conn attempts n = if ltb ((attempts + n) % 2 ^ 64) 2 then err outage else ok tt

  abbrev pub connected : Option Text → Result E (Unit {0}) → Result E ℕ
  connected start_offset (ok u) = ok (start_seq start_offset)
  connected start_offset (err e) = err e

  abbrev after : ℕ → Option Text → ℕ × Result E (Unit {0}) → Result E ℕ × ℕ
  after attempts start_offset (calls, result) =
      (connected start_offset result, (attempts + calls) % 2 ^ 64)

  -- The state of the stream, or the error of the last call; and the new count of calls.
  unfoldable pub start_stream : ℕ → Option Text → Result E ℕ × ℕ
  start_stream attempts start_offset =
      after attempts start_offset (retry_with_backoff (make_conn attempts) 5)

  outage_early : (attempts n : ℕ) → Fails (make_conn attempts) n → (attempts + n) % 2 ^ 64 < 2
  unfolding make_conn
  outage_early attempts n (e, failed) = ground (arith, failed)

  success_late :
      (attempts n : ℕ)
      → ((u : Unit {0}) × (make_conn attempts n ≡ ok u))
      → 2 < (attempts + n) % 2 ^ 64 + 1
  unfolding make_conn
  success_late attempts n (u, done) = ground (arith, done)

  -- The call is not before the last one, or it fails early.
  early :
      (attempts k : ℕ)
      → ((i : ℕ) → i < k → Fails (make_conn attempts) i)
      → (i : ℕ) → (k < i + 1) ⊎ ((attempts + i) % 2 ^ 64 < 2)
  early attempts k failed i =
      let before_or_not : (k < i + 1) ⊎ (i < k) = omega arith in
      elim before_or_not [
        | inl later ↦ inl later
        | inr before ↦ inr (outage_early attempts i (failed i before))
      ]

  number_of_calls :
      (attempts k : ℕ)
      → attempts < 2 ^ 64
      → ((i : ℕ) → i < k → Fails (make_conn attempts) i)
      → 2 < (attempts + k) % 2 ^ 64 + 1
      → k + 1 ≡ max (3 - attempts) 1
  number_of_calls attempts k small failed late =
      let first = early attempts k failed 0 in
      let second = early attempts k failed 1 in
      let third = early attempts k failed 2 in ground (arith, small, late, first, second, third)

  never_exhausted :
      (attempts : ℕ) → attempts < 2 ^ 64 → ¬ ((i : ℕ) → i < 4 → Fails (make_conn attempts) i)
  never_exhausted attempts small failed =
      let first = outage_early attempts 0 (failed 0 (omega arith)) in
      let last = outage_early attempts 3 (failed 3 (omega arith)) in
      omega (arith, small, first, last)

  start_stream-Outcome :
      (attempts : ℕ) (start_offset : Option Text)
      → attempts < 2 ^ 64
      → Outcome (make_conn attempts) 5 (retry_with_backoff (make_conn attempts) 5)
      → start_stream attempts start_offset
        ≡ (ok (start_seq start_offset), (attempts + max (3 - attempts) 1) % 2 ^ 64)
  unfolding start_stream
  start_stream-Outcome attempts start_offset small (k, result, few, failed, last) = elim last [
    | inl (u, done) ↦
        let calls = number_of_calls attempts k small failed (success_late attempts k (u, done)) in
        ap (after attempts start_offset) result
        ∙ ap (λ r. after attempts start_offset (k + 1, r)) done
        ∙ ap (λ c. after attempts start_offset (c, ok u)) calls
    | inr exhausted ↦
        let four : k ≡ 4 = omega (arith, exhausted) in
        absurd (never_exhausted attempts small (λ i before. failed i (omega (arith, four, before))))
  ]

  -- The start of a stream never fails, and the stream begins at the given offset, whatever number of
  -- calls earlier streams have made: three calls are made in all before the first success, and one for
  -- each later start.
  pub start_stream_succeeds :
      (attempts : ℕ) (start_offset : Option Text)
      → attempts < 2 ^ 64
      → start_stream attempts start_offset
        ≡ (ok (start_seq start_offset), (attempts + max (3 - attempts) 1) % 2 ^ 64)
  start_stream_succeeds attempts start_offset small =
      start_stream-Outcome attempts start_offset small
        (retry_with_backoff-Outcome (make_conn attempts) 5)

abbrev pub start_postgres : ℕ → Option Text → Result PostgresSourceError ℕ × ℕ
start_postgres = start_stream (connection (codes "Simulated Postgres database outage"))

abbrev pub start_cassandra : ℕ → Option Text → Result CassandraSourceError ℕ × ℕ
start_cassandra =
    start_stream (directory_access (codes "Simulated Cassandra CommitLog folder lock error"))
