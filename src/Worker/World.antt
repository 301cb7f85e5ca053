-- ===== src/Worker/World.antt =====
-- What the tasks use that is no code of the program, as one record, and what `main` makes for them.
use caminus.Prelude.{ℕ, Result}
use caminus.Text.Defs.{Text, codes}
use caminus.Json.Value.{Value}
use caminus.Event.{ChangeEvent}
use caminus.Storage.Database.{Database, Serde}
use caminus.Schema.Defs.{Fault}
use caminus.Sink.Defs.{KafkaSink, new_kafka}
use caminus.Router.Defs.{PartitionRouter, key_hash}
use caminus.Limiter.Float.{Float}
use caminus.DeadLetter.{DeadLetterQueue, new as new_queue}

pub record World : Type 1 where
  pub database : Database
  pub serde : Serde
  pub float : Float
  -- the text of a key, and the hasher's value
  pub key_text : Value → Text
  pub hash : Text → ℕ
  -- the transformation, and `simd_json::to_string`
  pub TransformError : Type 0
  pub transform : ChangeEvent → Result TransformError ChangeEvent
  pub SimdError : Type 0
  pub to_string : ChangeEvent → Result SimdError Text
  pub StreamError : Type 0
  -- the texts of errors
  pub fault_text : Fault database serde → Text
  pub transform_text : TransformError → Text
  pub simd_text : SimdError → Text
  pub stream_text : StreamError → Text
  -- the clock when the dead letter of an event is made
  pub letter_time : ChangeEvent → ℕ

-- The words in which the two tasks differ.
pub record Labels : Type 0 where
  pub source_id : Text
  pub event_words : Text
  pub source_words : Text

abbrev pub postgres : Labels
postgres = record {
  source_id = codes "postgres_users";
  event_words = codes "Event";
  source_words = codes "PG Source";
}

abbrev pub cassandra : Labels
cassandra = record {
  source_id = codes "cassandra_sensors";
  event_words = codes "Cassandra Event";
  source_words = codes "Cassandra Source";
}

abbrev pub partition_router : PartitionRouter
partition_router = record { num_partitions = 4; strategy = key_hash }

abbrev pub dlq : DeadLetterQueue
dlq = new_queue (codes "caminus_dlq_poison_pills")

abbrev pub kafka_sink : KafkaSink
kafka_sink = new_kafka (codes "localhost:9092") (codes "caminus_mutations") (codes "caminus_engine")
