-- ===== src/Worker/Tests.antt =====
-- A worker through a few turns, and the theorems about it.
use caminus.Prelude.{◌*◌, ◌^◌, ◌≡◌, refl, true, none, some, List, [], ◌∷◌, map, arith}
use caminus.Prelude.Fallible.{Result, ok, err}
use caminus.Text.Defs.{Text, codes, text_beq, text_eq}
use caminus.Text.Utf8.{is_utf8, from_utf8}
use caminus.Text.Decimal.{to_string}
use caminus.Dict.Defs.{get, insert, remove, contains_key}
use caminus.Json.Value.{null}
use caminus.Event.{ChangeEvent, Operation, create, commit, operation_beq}
use caminus.Console.{text, assigned, kafka_sent, console, commit_received, stream_error}
use caminus.Storage.Store.{save_offset, get_offset, get_schema}
use caminus.Storage.Instances.{memory, plain_json, print, parse}
use caminus.Schema.Defs.{validate_event}
use caminus.Dedup.Defs.{check_and_track, evict, contains, remove as remove_id, new as new_filter}
use caminus.Buffer.Defs.{held, process_in, process, new as new_buffer, run as buffer_run}
use caminus.Watermark.Defs.{
  is_watermark_row, process_replication_event, new as new_engine, run as watermark_run,
}
use caminus.Consensus.Failover.{new as new_failover}
use caminus.Limiter.Bucket.{
  TokenBucketLimiter, new, refill, take_tokens, try_acquire, wait_time, acquire,
}
use caminus.Limiter.Instances.{billionths, billionths_floors}
use caminus.Router.Defs.{resolve_partition, routing_text}
use caminus.Sink.Defs.{serialize_event, send_kafka, send_stdout}
use caminus.DeadLetter.{route_to_dlq}
use caminus.Pipeline.Defs as Task
use caminus.Pipeline.Stages.{fresh, accepted, transformed, led}
use caminus.Pipeline.Checkpoint.{last_offset}
use caminus.Worker.World.{postgres}
use caminus.Worker.Defs.{
  Worker, Turn, delivery_lines, schema_letter, transform_letter, deliver, buffered_postgres,
  watermark_lines, watermarked, validated, handle, take_turn, run,
}
use caminus.Worker.Shows.{task}
use caminus.Worker.Items.{served}
use caminus.Worker.Outcome.{Accounts, postgres-Accounts}
use caminus.Worker.Kafka.{kafka_log, kafka_lines, postgres-kafka}
use caminus.Worker.Items.{item}
use caminus.Worker.Served.{served-at_first}
use caminus.Worker.Instances.{passthrough-valid, saves, world}

program : Unit {0}
unfolding text_beq is_utf8 from_utf8 get insert remove contains_key operation_beq save_offset
    get_offset get_schema print parse validate_event check_and_track evict contains remove_id held
    process_in process is_watermark_row process_replication_event refill take_tokens try_acquire
    wait_time acquire resolve_partition routing_text serialize_event send_kafka send_stdout
    route_to_dlq delivery_lines schema_letter transform_letter deliver buffered_postgres
    watermark_lines watermarked validated handle take_turn run
program = tt

abbrev event : Text → Operation → ChangeEvent
event id op = record {
  id = id;
  source_database = codes "db";
  source_table_or_collection = codes "users";
  operation = op;
  timestamp = 0;
  key = null;
  before = none;
  after = none;
  transaction_id = some (codes "a");
  offset = id;
}

abbrev bucket : TokenBucketLimiter billionths
bucket = new billionths 0 1000 (500 * 10 ^ 9)

abbrev worker : Worker world postgres
worker = record {
  tx_buffer = new_buffer;
  watermark_engine = new_engine;
  dedup_filter = new_filter 1000;
  store = [];
  failover = new_failover 0 1 1000;
  limiter = bucket;
  printed = [];
  throughput = 0;
}

abbrev turn : Result (Unit {0}) ChangeEvent → Turn world postgres
turn r = record { is_leader = true; heartbeat = 1; rounds = 1 ∷ []; event_result = r }

abbrev turns : List (Turn world postgres)
turns =
    turn (ok (event (codes "1") create))
    ∷ turn (ok (event (codes "2") create))
    ∷ turn (ok (event (codes "3") commit))
    ∷ turn (err tt)
    ∷ []

abbrev ended : Worker world postgres
ended = run world postgres (validated world postgres) worker turns

log :
    ended.printed
    ≡ commit_received (some (codes "a")) 2
      ∷ assigned (codes "Event") (codes "1") 2
      ∷ kafka_sent (codes "caminus_mutations") (codes "localhost:9092") 1
      ∷ console (codes "1")
      ∷ assigned (codes "Event") (codes "2") 2
      ∷ console (codes "Serialization error")
      ∷ stream_error (codes "PG Source") (codes "gone")
      ∷ []
unfolding program
log = refl

-- Without a reading at which there is a token the worker waits.
waiting :
    (run world postgres
      (validated world postgres)
      (record worker { limiter = new billionths 0 0 0 })
      turns).printed
    ≡ []
unfolding program
waiting = refl

line :
    text (λ transaction. codes "Some") (kafka_sent (codes "t") (codes "b") 12)
    ≡ codes "[KAFKA SINK] Sent to topic 't' on brokers 'b' - Payload size: 12 bytes"
unfolding text to_string
line = refl

postgres-Accounts_example : Accounts world postgres ended (
    Task.run memory plain_json world.key_text world.transform postgres.source_id
      (Task.handle_postgres memory plain_json world.key_text world.transform postgres.source_id)
      (task world postgres worker [] [])
      (served world postgres bucket turns))
postgres-Accounts_example = postgres-Accounts world postgres worker turns refl refl

no_checkpoint : get_offset memory plain_json [] postgres.source_id ≡ ok none
unfolding program
no_checkpoint = refl

no_schema : get_schema memory plain_json [] postgres.source_id ≡ ok none
unfolding program
no_schema = refl

postgres-kafka_example :
    (let events =
        transformed world.transform
          (buffer_run new_buffer
            (watermark_run world.key_text new_engine (
              accepted memory plain_json postgres.source_id []
                (fresh (new_filter 1000) (led (served world postgres bucket turns))))).1).1 in
      (kafka_log ended.printed ≡ kafka_lines world postgres events)
      × (get_offset memory plain_json ended.store postgres.source_id
          ≡ ok (last_offset none events)))
postgres-kafka_example =
    postgres-kafka world postgres worker turns none none refl refl (saves postgres.source_id)
      passthrough-valid no_checkpoint no_schema

served-at_first_example : served world postgres bucket turns ≡ map (item world postgres) turns
served-at_first_example =
    served-at_first world postgres billionths_floors 1000 (omega arith) 0 (500 * 10 ^ 9) turns tt
      (omega arith) (tt, (tt, (tt, (tt, tt))))
