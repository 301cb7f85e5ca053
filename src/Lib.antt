-- ===== src/Lib.antt =====
-- Caminus, a change data capture engine in Rust.
--
-- The program takes change events from Postgres and Cassandra streams, and sends them to Kafka and to
-- the console. A task for each source (src/main.rs) takes its events through the stages in turn: the
-- leader test, the duplicate filter, the validation by the registered schema, the watermark engine,
-- the transaction buffer, the transformation, the sinks; after each delivery it saves the offset, from
-- which a restart resumes. Beside the tasks stand the election loop and the failover controller, the
-- parallel snapshotter, the Confluent client with its encoder, the synchronization between clusters,
-- the masking of fields, the limiter and the router by tenant, the registry of WebAssembly plugins and
-- the commands for the operator.
--
-- Which file models which part; the names are those of the source:
--   Pipeline    src/main.rs, the loops of the two tasks: Defs has the stages of one event, Stages the
--               same stages each over a whole list; Delivery, Composition and Runs relate the two,
--               Keeps and Checkpoint follow the store, Rejected and Failed the dead letters,
--               Log what a run adds to what it starts with
--   Worker      src/main.rs, the same loops with their effects in their order: the heartbeat, the wait
--               for a token, the routing, the sinks, the dead letters, the log and the counter. World
--               has what is no code of the program, Defs the stages, Items the items that are come to;
--               Lines, Shows, Stages, Runs, Outcome, Kafka and Served relate it to Pipeline
--   Simulation  src/main.rs, the tasks on their streams from each start to a stop: Defs and Cassandra
--               have the start and the sessions, the rest what each stage does with the streams; Wasm
--               has when WasmTransformer returns the events of the Postgres stream as they are. The
--               sessions of the Postgres task end between two events, those of the Cassandra task
--               there or between the sending of an event and the write of its offset
--   Bootstrap   src/main.rs, what the tasks start with, the Postgres task as a session, and the
--               log of all launches, each stopped between two events
--   System      src/main.rs, the two tasks on the store they share
--   Sink        src/sink/ and serialize_event of src/serialize/mod.rs
--   DeadLetter  src/resiliency/dlq.rs
--   Console     the lines that these print
--   Event       src/source/mod.rs, ChangeEvent and Operation
--   Source      src/source/mod.rs (Retry, Attempts), src/source/postgres.rs, src/source/cassandra.rs;
--               Backoff has the sleeps of retries, Connection the start of a stream of either
--   Buffer      src/buffer/mod.rs, TransactionBuffer
--   Dedup       src/resiliency/dedup.rs, DeduplicationFilter
--   Watermark   src/snapshot/watermark.rs, WatermarkSnapshotter
--   Snapshot    src/snapshot/parallel.rs, ParallelSnapshotter: its chunks, its workers
--               and the progress that is saved (Progress)
--   Storage     src/storage/mod.rs, StateStore; Database has what is used of RocksDB and serde_json
--   Schema      src/storage/schema.rs, SchemaRegistry
--   Confluent   src/storage/confluent.rs and src/serialize/avro.rs; in Calls the sections of
--               register_schema under locks are steps of calls at once, in register_schema and the
--               encoder no other call comes between them
--   Consensus   src/consensus/mod.rs (Defs, Election, Shutdown), src/consensus/failover.rs
--               (Failover, Lease)
--   Limiter     src/resiliency/rate_limiter.rs, TokenBucketLimiter (Bucket, Bounds, Floors)
--               and TenantQuotaLimiter (Quota, Isolation, Reset); Float and Floors have what is used of
--               f64
--   Router      src/router/mod.rs, PartitionRouter (Defs, Partitions) and TenantRouter (Tenants, Routes)
--   Transform   src/transform/mod.rs (Engine, Passthrough) and src/transform/registry.rs (Registry,
--               Reload); Wasm has what is used of wasmtime
--   Cli         src/cli/mod.rs, CliHandler
--   Metrics     src/resiliency/metrics.rs, MetricsRegistry
--   Sync        src/sync/mod.rs, SyncCoordinator
--   Security    src/security/kms.rs (Kms, Rotation) and src/security/mod.rs (Engine, Fields, Reveal)
--   Prelude, Text, Dict, Json   the shared names, results, texts as bytes, hash maps, JSON values
--
-- State is a record with the fields of the source's struct, and an operation with `&mut self` returns
-- the new state beside its result. A hash map is a list of entries and a hash set a list; no theorem
-- depends on their order. A mutex or an atomic that several tasks share is a field of a common state,
-- and the tasks are a step relation on it. An error has the data of the source's message and not the
-- text. The state of a worker in Worker has a log of the lines it prints; that of a task in Pipeline
-- has in its place the events that are given to the sinks and the dead letters. Readings of the clock
-- are arguments: of an operation, or of the turn of a worker.
--
-- Numbers are natural numbers with the wrap-around of their width written out where the source can
-- reach it; subtraction stops at zero only where the source saturates. A text is its bytes. Numbers of
-- JSON are integers of 64 bits or the bits of a float.
--
-- Loops are structural recursion, but for two that take fuel: that of `ParallelSnapshotter::new`, for
-- which one round more than there are rows is enough with every chunk size except zero, and that of
-- `retry_with_backoff`, which has a round for each call that is allowed. The loop of `acquire` runs over
-- the readings of the clock in its rounds; a worker whose readings end before it has a token waits, and
-- one whose wait is no duration, as with a rate of zero, panics.
--
-- Parameters with laws, since their code is not in the repository: the database, the JSON of schemas
-- and of events, the numbers of type f64, the WebAssembly engine. Concrete instances stand in the
-- modules Instances. Parameters without: how a JSON value or an error is printed, the hash of a text,
-- and of the Cassandra stream the readings and the text of the clock. The transformation is a
-- parameter of the tasks. Of it Simulation assumes that it returns the events of the Postgres stream,
-- whose values are texts and integers, as they are, and of those of Cassandra, whose readings are floats,
-- events that keep the offset. JSON is printed and parsed back without loss where it has no floats, no
-- row that is there but null, and no deeper nesting than the parser takes.
--
-- Not modelled: a crash in the middle of a flush of the Postgres task, which between the sending of
-- a mutation and the write of its offset makes the next start send it again; what only calls a
-- library, namely the histograms of times and the exporter of the observability, the sockets of the
-- metrics, the inside of the WebAssembly engine, the opening of the database and the signal that
-- ends the process; the lines that are printed before the loops of the tasks; what the tasks do to
-- each other through the limiter and the failover controller that they share, since a worker is
-- modelled with its own; and what one does between two steps of the other's work on one event, since
-- in System an event is one step.
pub mod Bootstrap
pub mod Buffer
pub mod Cli
pub mod Confluent
pub mod Consensus
pub mod Console
pub mod DeadLetter
pub mod Dedup
pub mod Dict
pub mod Event
pub mod Json
pub mod Limiter
pub mod Metrics
pub mod Pipeline
pub mod Prelude
pub mod Router
pub mod Schema
pub mod Security
pub mod Simulation
pub mod Sink
pub mod Snapshot
pub mod Source
pub mod Storage
pub mod Sync
pub mod System
pub mod Text
pub mod Transform
pub mod Watermark
pub mod Worker
