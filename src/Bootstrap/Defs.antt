-- ===== src/Bootstrap/Defs.antt =====
-- What `main` makes, and the tasks that it spawns. What it prints before the loops of the tasks is
-- left out. The capacity of the limiter is that of the program; its rate is a number of `f64`.
use caminus.Prelude.{ℕ, Option, [], List, Result, ok, err, ◌∷◌, ◌++◌}
use caminus.Text.Defs.{Text}
use caminus.Event.{ChangeEvent}
use caminus.Console.{Line, start_failed}
use caminus.Storage.Store.{get_offset}
use caminus.Dedup.Defs.{new as new_filter}
use caminus.Buffer.Defs.{new as new_buffer}
use caminus.Watermark.Defs.{new as new_engine}
use caminus.Consensus.Failover.{FailoverController, resume_checkpoint_offset, new as new_failover}
use caminus.Limiter.Bucket.{TokenBucketLimiter, new as new_limiter}
use caminus.Source.Connection.{
  PostgresSourceError, CassandraSourceError, start_postgres, start_cassandra,
}
use caminus.Simulation.Defs.{or_stored, register_users}
use caminus.Worker.World.{World, Labels, postgres, cassandra}
use caminus.Worker.Defs.{Worker, Turn, print, validated, buffered_cassandra, run}

module _ (world : World) where
  open world use {database, serde, float}

  abbrev pub failover_controller : ℕ → FailoverController
  failover_controller now = new_failover now 1 1000

  abbrev pub rate_limiter : ℕ → float.F → TokenBucketLimiter float
  rate_limiter now rate = new_limiter float now 1000 rate

  -- The state of a task at its start, with the users' schema registered.
  abbrev pub new_worker : (labels : Labels) → ℕ → float.F → database.State → Worker world labels
  new_worker labels now rate store = record {
    tx_buffer = new_buffer;
    watermark_engine = new_engine;
    dedup_filter = new_filter 1000;
    store = register_users database serde store;
    failover = failover_controller now;
    limiter = rate_limiter now rate;
    printed = [];
    throughput = 0;
  }

  abbrev pub start_offset : Labels → database.State → Option Text
  start_offset labels store =
      or_stored (resume_checkpoint_offset database serde store labels.source_id)
        (get_offset database serde store labels.source_id)

  -- The loop over the turns of the stream from where it starts, or an error.
  abbrev pub streamed :
      {E : Type 0}
      → (labels : Labels) → (E → Text)
      → (Worker world labels → ChangeEvent → Worker world labels)
      → (ℕ → List (Turn world labels))
      → Worker world labels
      → Result E ℕ
      → Worker world labels
  streamed labels error_text next turns_from w (ok seq) = run world labels next w (turns_from seq)
  streamed labels error_text next turns_from w (err e) =
      print world labels (start_failed labels.source_words (error_text e) ∷ []) w

  -- `attempts` is how often the source has tried to connect since the program started.
  unfoldable pub postgres_task :
      (PostgresSourceError → Text)
      → ℕ
      → (ℕ → List (Turn world postgres))
      → Worker world postgres
      → Worker world postgres
  postgres_task error_text attempts turns_from w =
      streamed postgres error_text (validated world postgres) turns_from w
        (start_postgres attempts (start_offset postgres w.store)).0

  unfoldable pub cassandra_task :
      (CassandraSourceError → Text)
      → ℕ
      → (ℕ → List (Turn world cassandra))
      → Worker world cassandra
      → Worker world cassandra
  cassandra_task error_text attempts turns_from w =
      streamed cassandra error_text (buffered_cassandra world cassandra) turns_from w
        (start_cassandra attempts (start_offset cassandra w.store)).0

  -- A start of the program until it is stopped between two events: the clock at the start and at each event of the Postgres
  -- stream, how many events come, and their turns from where the stream starts.
  pub record Launch : Type 0 where
    pub now : ℕ
    pub clock : ℕ → ℕ
    pub count : ℕ
    pub turns_from : ℕ → List (Turn world postgres)

  module _ (error_text : PostgresSourceError → Text) (rate : float.F) where
    abbrev pub launched : Launch → database.State → Worker world postgres
    launched l store =
        postgres_task error_text 0 l.turns_from (new_worker postgres l.now rate store)

    -- What is printed in all launches, each from the store that the last one left.
    unfoldable pub launches : database.State → List Launch → List Line
    launches store [] = []
    launches store (l ∷ ls) =
        let w = launched l store in let later = launches w.store ls in w.printed ++ later
