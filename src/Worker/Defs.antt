-- ===== src/Worker/Defs.antt =====
-- The loop of each task with its effects in their order. The readings of the clock come with the
-- items of the stream. The limiter and the failover controller are the task's own here. The counter of
-- throughput is a plain number, and the histograms of times are left out.
use caminus.Prelude.{
  ℕ, ◌+◌, Bool, true, false, ◌&&◌, Option, none, some, List, [], ◌∷◌, ◌++◌, length, ◌==◌, Result,
  ok, err, if◌then◌else◌,
}
use caminus.Text.Defs.{codes}
use caminus.Event.{ChangeEvent, commit, operation_eq}
use caminus.Console.{Line, assigned, commit_received, low_watermark, high_watermark, stream_error}
use caminus.Storage.Store.{save_offset}
use caminus.Schema.Defs.{Fault, validate_event}
use caminus.Dedup.Defs.{DeduplicationFilter, check_and_track}
use caminus.Buffer.Defs.{TransactionBuffer, process}
use caminus.Watermark.Defs.{
  WatermarkSnapshotter, is_watermark_row, is_marker_operation, process_replication_event,
}
use caminus.Consensus.Failover.{FailoverController, record_heartbeat}
use caminus.Limiter.Bucket.{TokenBucketLimiter, acquire, Acquired, acquired, sleeping, panicked}
use caminus.Router.Defs.{resolve_partition}
use caminus.Sink.Defs.{send_kafka, send_stdout}
use caminus.DeadLetter.{new_record, route_to_dlq}
use caminus.Pipeline.Defs.{state_after}
use caminus.Worker.World.{World, Labels, partition_router, dlq, kafka_sink}

module _ (world : World) (labels : Labels) where
  open world use {
    database, serde, float, key_text, hash, TransformError, transform, to_string, StreamError,
    fault_text, transform_text, simd_text, stream_text, letter_time,
  }

  pub record Worker : Type 0 where
    pub tx_buffer : TransactionBuffer
    pub watermark_engine : WatermarkSnapshotter
    pub dedup_filter : DeduplicationFilter
    pub store : database.State
    pub failover : FailoverController
    pub limiter : TokenBucketLimiter float
    pub printed : List Line
    pub throughput : ℕ

  abbrev pub print : List Line → Worker → Worker
  print lines w = record w { printed = w.printed ++ lines }

  -- `observability::increment_throughput`
  abbrev pub increment_throughput : ℕ → Worker → Worker
  increment_throughput count w = record w { throughput = w.throughput + count }

  -- What is printed for an event that is sent: its partition, and the lines of the sinks.
  unfoldable pub delivery_lines : ChangeEvent → List Line
  delivery_lines transformed =
      assigned labels.event_words transformed.id
          (resolve_partition key_text hash partition_router transformed)
        ∷ (send_kafka to_string simd_text kafka_sink transformed).0
      ++ (send_stdout to_string simd_text record {} transformed).0

  -- A write that fails is ignored.
  abbrev pub save : ChangeEvent → Worker → Worker
  save transformed w = record w {
    store =
        state_after database serde key_text transform labels.source_id w.store
          (save_offset database serde w.store labels.source_id transformed.offset);
  }

  unfoldable pub schema_letter : ChangeEvent → Fault database serde → List Line
  schema_letter event e =
      (route_to_dlq to_string simd_text dlq
        (new_record (letter_time event) event (fault_text e) (codes "SchemaValidation") 1)).0

  unfoldable pub transform_letter : ChangeEvent → TransformError → List Line
  transform_letter mut_event e =
      (route_to_dlq to_string simd_text dlq (
        new_record (letter_time mut_event) mut_event (transform_text e) (codes "WasmTransform")
          1)).0

  abbrev pub deliver_as : Worker → ChangeEvent → Result TransformError ChangeEvent → Worker
  deliver_as w mut_event (ok transformed) =
      increment_throughput 1 (save transformed (print (delivery_lines transformed) w))
  deliver_as w mut_event (err e) = print (transform_letter mut_event e) w

  unfoldable pub deliver : Worker → List ChangeEvent → Worker
  deliver w [] = w
  deliver w (mut_event ∷ mutations) =
      deliver (deliver_as w mut_event (transform mut_event)) mutations

  unfoldable pub buffered_cassandra : Worker → ChangeEvent → Worker
  buffered_cassandra w event =
      let processed = process w.tx_buffer event in
      deliver (record w { tx_buffer = processed.0 }) processed.1

  -- The line about a commit.
  abbrev pub commit_lines : ChangeEvent → List ChangeEvent → List Line
  commit_lines event mutations =
      if event.operation == commit
      then commit_received event.transaction_id (length mutations) ∷ []
      else []

  unfoldable pub buffered_postgres : Worker → ChangeEvent → Worker
  buffered_postgres w event =
      let processed = process w.tx_buffer event in
      deliver (print (commit_lines event processed.1) (record w { tx_buffer = processed.0 }))
        processed.1

  abbrev pub pass : Worker → Option ChangeEvent → Worker
  pass w none = w
  pass w (some event) = buffered_postgres w event

  -- The line about a marker: whether it opens the window or closes it.
  unfoldable pub watermark_lines : WatermarkSnapshotter → ChangeEvent → List Line
  watermark_lines engine event =
      if is_watermark_row event && is_marker_operation event.operation
      then (if engine.in_watermark_window
          then high_watermark
          else low_watermark event.transaction_id)
        ∷ []
      else []

  unfoldable pub watermarked : Worker → ChangeEvent → Worker
  watermarked w event =
      let processed = process_replication_event key_text w.watermark_engine event in
      pass
        (print (watermark_lines w.watermark_engine event)
          (record w { watermark_engine = processed.0 }))
        processed.1

  abbrev pub judge : Worker → ChangeEvent → Result (Fault database serde) (Unit {0}) → Worker
  judge w event (ok u) = watermarked w event
  judge w event (err e) = print (schema_letter event e) w

  unfoldable pub validated : Worker → ChangeEvent → Worker
  validated w event = judge w event (validate_event database serde w.store labels.source_id event)

  abbrev pub unless_duplicate :
      (Worker → ChangeEvent → Worker) → Worker → ChangeEvent → Bool → Worker
  unless_duplicate next w event true = w
  unless_duplicate next w event false = next w event

  -- An event of the stream, and what is done to it if it is no duplicate.
  unfoldable pub handle : (Worker → ChangeEvent → Worker) → Worker → ChangeEvent → Worker
  handle next w event =
      let checked = check_and_track w.dedup_filter event.id in
      unless_duplicate next (record w { dedup_filter = checked.0 }) event checked.1

  -- An item of the stream, with what `is_leader` says, the reading of the clock at the heartbeat, and
  -- those in the rounds of `acquire`.
  pub record Turn : Type 0 where
    pub is_leader : Bool
    pub heartbeat : ℕ
    pub rounds : List ℕ
    pub event_result : Result StreamError ChangeEvent

  -- After each, whether the loop goes on.
  abbrev pub answered :
      (Worker → ChangeEvent → Worker) → Worker → Result StreamError ChangeEvent → Worker × Bool
  answered next w (ok event) = (handle next w event, true)
  answered next w (err e) = (print (stream_error labels.source_words (stream_text e) ∷ []) w, false)

  -- Without a token the task still waits, or the panic of `acquire` has ended it.
  abbrev pub admitted :
      (Worker → ChangeEvent → Worker) → Worker → Turn → Acquired float → Worker × Bool
  admitted next w turn (sleeping limiter) = (record w { limiter = limiter }, false)
  admitted next w turn (panicked limiter) = (record w { limiter = limiter }, false)
  admitted next w turn (acquired limiter) =
      answered next (record w { limiter = limiter }) turn.event_result

  abbrev pub led_turn : (Worker → ChangeEvent → Worker) → Worker → Turn → Bool → Worker × Bool
  led_turn next w turn false = (w, true)
  led_turn next w turn true =
      admitted next (record w { failover = record_heartbeat turn.heartbeat w.failover }) turn
        (acquire float turn.rounds 1 w.limiter)

  unfoldable pub take_turn : (Worker → ChangeEvent → Worker) → Worker → Turn → Worker × Bool
  take_turn next w turn = led_turn next w turn turn.is_leader

  abbrev pub while_going : Worker × Bool → Worker → Worker
  while_going (w, false) later = w
  while_going (w, true) later = later

  unfoldable pub run : (Worker → ChangeEvent → Worker) → Worker → List Turn → Worker
  run next w [] = w
  run next w (turn ∷ turns) =
      let taken = take_turn next w turn in while_going taken (run next taken.0 turns)
