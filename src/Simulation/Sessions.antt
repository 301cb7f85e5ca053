-- ===== src/Simulation/Sessions.antt =====
-- What has been sent after any number of stops and starts.
use caminus.Prelude.{
  ℕ, ◌+◌, ◌^◌, ◌<◌, ◌≡◌, sym, ap, ◌∙◌, subst, true, Option, none, some, List, [], ◌∷◌, ◌++◌, map,
  Result, ok, arith, inl, inr,
}
use mathlib.Core.Path.{ap₂}
use mathlib.Core.List.{map-append}
use caminus.Text.Defs.{Text}
use caminus.Text.Utf8.{is_utf8}
use caminus.Json.Value.{Value}
use caminus.Event.{ChangeEvent}
use caminus.Storage.Database.{Database, Serde}
use caminus.Storage.Store.{save_offset, get_offset, get_schema}
use caminus.Dedup.Defs.{new as new_filter}
use caminus.Buffer.Defs.{new as new_buffer, run as buffer_run}
use caminus.Watermark.Defs.{new as new_engine, run as watermark_run}
use caminus.Source.Postgres.{start_seq, event_at, next_event}
use caminus.Pipeline.Stages.{fresh, accepted, transformed, led}
use caminus.Pipeline.Defs.{handle_postgres, run}
use caminus.Pipeline.Runs.{postgres-sent}
use caminus.Pipeline.Checkpoint.{IsCheckpointed, last_offset, run-IsCheckpointed}
use caminus.Simulation.Defs.{
  user_schema, source_name, stream, while_leader, register_users, resumed_at, Task, start, session,
  sessions,
}
use caminus.Simulation.Stages.{
  AreOfStream, IsRegistered, transformed-same, next_event-Counts, led-while_leader, accepted-stream,
  watermark_run-stream,
}
use caminus.Simulation.Filter.{event_at-AreNamed, fresh-stream}
use caminus.Simulation.Blocks.{transactions-span, last_number, completed, run-session}
use caminus.Simulation.Transactions.{timeless, transactions}
use caminus.Simulation.Ready.{
  total, last_offset-timeless, last_offset-transactions, start_seq-checkpoint, span-AreOfStream,
  AreOfStream-timeless, last_number-completed, last_number-eq, IsReady, resumed_at-eq,
  register_users-IsReady,
}

-- How many transactions are complete after the sessions.
unfoldable pub delivered : ℕ → List ((ℕ → ℕ) × ℕ) → ℕ
delivered k [] = k
delivered k ((clock, n) ∷ ss) = delivered (k + completed k n) ss

module _ (d : Database) (j : Serde) (key_text : Value → Text) {T : Type 0}
    (transform : ChangeEvent → Result T ChangeEvent)
    (same : (now n : ℕ) → n < 2 ^ 64 → transform (event_at now n) ≡ ok (event_at now n))
    (valid : (e t : ChangeEvent) → transform e ≡ ok t → is_utf8 t.offset ≡ true)
    (saves : (s : d.State) (offset : Text)
      → (s' : d.State) × (save_offset d j s source_name offset ≡ ok s')) where
  abbrev R : Type 0
  R = Task d j key_text transform

  -- All stages let the stream of the source through, up to the transactions it completes.
  stages-stream :
      (s : d.State) (clock : ℕ → ℕ) (k n : ℕ)
      → IsRegistered d j s
      → last_number k + n < 2 ^ 64
      → transformed transform
          (buffer_run new_buffer
            (watermark_run key_text new_engine (
              accepted d j source_name s (
                fresh
                  (new_filter 1000)
                  (led (while_leader (stream next_event clock (last_number k) n)))))).1).1
        ≡ (buffer_run new_buffer (stream next_event clock (last_number k) n)).1
  stages-stream s clock k n registered fits =
      let events : List ChangeEvent = stream next_event clock (last_number k) n in
      let out : List ChangeEvent = (buffer_run new_buffer events).1 in
      let end : List ChangeEvent → List ChangeEvent =
        λ es. transformed transform (buffer_run new_buffer es).1 in
      let marked : List ChangeEvent → List ChangeEvent =
        λ es. end (watermark_run key_text new_engine es).1 in
      ap (λ es. marked (accepted d j source_name s (fresh (new_filter 1000) es)))
        (led-while_leader events)
      ∙ ap (λ es. marked (accepted d j source_name s es))
          (fresh-stream next_event event_at next_event-Counts event_at-AreNamed 1000 clock
            (last_number k) n fits)
      ∙ ap marked (accepted-stream d j s clock (last_number k) n registered)
      ∙ ap end (watermark_run-stream key_text new_engine clock (last_number k) n)
      ∙ transformed-same transform same out (
          AreOfStream-timeless out (
            subst AreOfStream (sym (run-session clock k n fits)) (
              span-AreOfStream k (completed k n) (
                omega
                  (arith, fits, last_number-completed k n, last_number-eq (k + completed k n))))))

  -- The first so many transactions are sent, and the checkpoint is that of the last.
  record IsAt (k : ℕ) (p : R) : Type 0 where
    sent : map timeless p.sent ≡ transactions k
    ready : IsReady d j (last_offset none p.sent) p.store

  resumed-IsAt :
      (k : ℕ) (p : R)
      → last_number k < 2 ^ 64
      → IsAt k p
      → resumed_at d j source_name (register_users d j p.store) ≡ last_number k
  resumed-IsAt k p small at =
      resumed_at-eq d j source_name (register_users d j p.store) (last_offset none p.sent)
        (register_users-IsReady d j (last_offset none p.sent) p.store at.ready).0
      ∙ ap start_seq (
          sym (last_offset-timeless none p.sent)
          ∙ ap (last_offset none) at.sent
          ∙ last_offset-transactions k)
      ∙ start_seq-checkpoint k small

  -- A run from the start of the program over the events after the checkpoint.
  abbrev run_from : R → (ℕ → ℕ) → ℕ → ℕ → R
  run_from p clock seq n =
      run d j key_text transform source_name (handle_postgres d j key_text transform source_name)
        (start d j key_text transform p) (while_leader (stream next_event clock seq n))

  run_from-IsCheckpointed :
      (p : R) (clock : ℕ → ℕ) (seq n : ℕ) (schema : Option Value)
      → get_offset d j (register_users d j p.store) source_name ≡ ok (last_offset none p.sent)
      → get_schema d j (register_users d j p.store) source_name ≡ ok schema
      → IsCheckpointed d j key_text transform source_name none schema
          (run_from p clock seq n).store
          (run_from p clock seq n).sent
  run_from-IsCheckpointed p clock seq n schema offset found =
      run-IsCheckpointed d j key_text transform source_name none schema saves valid
        (start d j key_text transform p) (while_leader (stream next_event clock seq n))
        record { checkpoint = offset; schema_kept = found }

  run_from-IsReady :
      (p : R) (clock : ℕ → ℕ) (seq n : ℕ)
      → IsReady d j (last_offset none p.sent) p.store
      → IsReady d j (last_offset none (run_from p clock seq n).sent) (run_from p clock seq n).store
  run_from-IsReady p clock seq n ready =
      let (offset, registered) =
        register_users-IsReady d j (last_offset none p.sent) p.store ready in
      elim registered [
        | inl found ↦
            let c = run_from-IsCheckpointed p clock seq n none offset found in
            (c.checkpoint, inl c.schema_kept)
        | inr found ↦
            let c = run_from-IsCheckpointed p clock seq n (some user_schema) offset found in
            (c.checkpoint, inr c.schema_kept)
      ]

  run_from-IsAt :
      (p : R) (clock : ℕ → ℕ) (k n : ℕ)
      → last_number k + n < 2 ^ 64
      → IsAt k p
      → IsAt (k + completed k n) (run_from p clock (last_number k) n)
  run_from-IsAt p clock k n fits at =
      let registered = (register_users-IsReady d j (last_offset none p.sent) p.store at.ready).1 in
      let out : List ChangeEvent =
        (buffer_run new_buffer (stream next_event clock (last_number k) n)).1 in
      record {
        sent =
            ap (map timeless) (
              postgres-sent d j key_text transform source_name (start d j key_text transform p)
                (while_leader (stream next_event clock (last_number k) n))
              ∙ ap (λ l. p.sent ++ l)
                  (stages-stream (register_users d j p.store) clock k n registered fits))
            ∙ map-append timeless p.sent out
            ∙ ap₂ (λ a b. a ++ b) at.sent (run-session clock k n fits)
            ∙ transactions-span k (completed k n);
        ready = run_from-IsReady p clock (last_number k) n at.ready;
      }

  session-IsAt :
      (p : R) (clock : ℕ → ℕ) (k n : ℕ)
      → last_number k + n < 2 ^ 64
      → IsAt k p
      → IsAt (k + completed k n) (session d j key_text transform p (clock, n))
  unfolding session
  session-IsAt p clock k n fits at =
      subst (λ seq. IsAt (k + completed k n) (run_from p clock seq n))
        (sym (resumed-IsAt k p (omega (arith, fits)) at)) (run_from-IsAt p clock k n fits at)

  sessions-IsAt :
      (p : R) (k : ℕ) (ss : List ((ℕ → ℕ) × ℕ))
      → last_number k + total ss < 2 ^ 64
      → IsAt k p
      → IsAt (delivered k ss) (sessions d j key_text transform p ss)
  unfolding delivered sessions
  sessions-IsAt p k [] fits at = at
  sessions-IsAt p k ((clock, n) ∷ ss) fits at =
      sessions-IsAt (session d j key_text transform p (clock, n)) (k + completed k n) ss
        (omega (arith, fits, last_number-completed k n))
        (session-IsAt p clock k n (omega (arith, fits)) at)

  -- The Postgres task from a store without a checkpoint, in which no schema or that of the program is
  -- registered for the source, while the program is stopped and started again any number of times, each
  -- time between two events, after however many, and the node is leader. What has been sent are the
  -- mutations of the first transactions of the stream, each exactly once and in their order, as many
  -- transactions as were completed; the times of the events are left out of the comparison. A crash while an event is handled
  -- is not among the stops. It is assumed that the sessions have fewer than 2 ^ 64 events in all, that
  -- every write of an offset succeeds, that the transformation returns the events of the stream as they
  -- are, and that the offset of what it returns of any event is a text.
  pub exactly_once :
      (p : R) (ss : List ((ℕ → ℕ) × ℕ))
      → p.sent ≡ []
      → get_offset d j p.store source_name ≡ ok none
      → IsRegistered d j p.store
      → total ss < 2 ^ 64
      → map timeless (sessions d j key_text transform p ss).sent ≡ transactions (delivered 0 ss)
  unfolding transactions
  exactly_once p ss nothing unsaved registered fits =
      (sessions-IsAt p 0 ss (omega (arith, fits)) record {
        sent = ap (map timeless) nothing;
        ready = (unsaved ∙ ap (λ l. ok (last_offset none l)) (sym nothing), registered);
      }).sent
