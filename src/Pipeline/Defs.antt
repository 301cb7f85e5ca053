-- ===== src/Pipeline/Defs.antt =====
-- The loop of each task, over what its stream yields. The transformation, the texts of keys, the
-- database and the JSON of schemas are parameters. Sinks, routing and metrics are output: the results
-- of the sinks are dropped, and what is kept of them is which events they are given.
use caminus.Prelude.{Bool, true, false, Option, none, some, List, [], ◌∷◌, ◌++◌, Result, ok, err}
use caminus.Text.Defs.{Text}
use caminus.Json.Value.{Value}
use caminus.Event.{ChangeEvent}
use caminus.Storage.Database.{Database, Serde}
use caminus.Storage.Store.{Error, save_offset}
use caminus.Schema.Defs.{Fault, validate_event}
use caminus.Dedup.Defs.{DeduplicationFilter, check_and_track}
use caminus.Buffer.Defs.{TransactionBuffer, process}
use caminus.Watermark.Defs.{WatermarkSnapshotter, process_replication_event}

-- The error of a dead letter, in place of its text, which also says at which step it failed.
pub data Reason (S T : Type 0) : Type 0 where
  schema_validation : S → Reason S T
  wasm_transform : T → Reason S T

pub record DlqRecord (S T : Type 0) : Type 0 where
  pub failed_event : ChangeEvent
  pub error_reason : Reason S T

-- Which parameters a task has: its source's name in the store among them.
module _ (d : Database) (j : Serde) (key_text : Value → Text) {T : Type 0}
    (transform : ChangeEvent → Result T ChangeEvent) (source_id : Text) where
  pub record Pipeline : Type 0 where
    pub tx_buffer : TransactionBuffer
    pub watermark_engine : WatermarkSnapshotter
    pub dedup_filter : DeduplicationFilter
    pub store : d.State
    pub sent : List ChangeEvent
    pub dead_letters : List (DlqRecord (Fault d j) T)

  -- A write that fails is ignored.
  abbrev pub state_after : d.State → Result (Error d j) d.State → d.State
  state_after s (ok s') = s'
  state_after s (err e) = s

  -- What becomes of a mutation that is transformed, or not.
  abbrev pub deliver_as : Pipeline → ChangeEvent → Result T ChangeEvent → Pipeline
  deliver_as p mut_event (ok transformed) = record p {
    sent = p.sent ++ transformed ∷ [];
    store = state_after p.store (save_offset d j p.store source_id transformed.offset);
  }
  deliver_as p mut_event (err e) = record p {
    dead_letters =
        p.dead_letters ++ record { failed_event = mut_event; error_reason = wasm_transform e } ∷ [];
  }

  unfoldable pub deliver : Pipeline → List ChangeEvent → Pipeline
  deliver p [] = p
  deliver p (mut_event ∷ mutations) =
      deliver (deliver_as p mut_event (transform mut_event)) mutations

  unfoldable pub buffered : Pipeline → ChangeEvent → Pipeline
  buffered p event =
      let processed = process p.tx_buffer event in
      deliver (record p { tx_buffer = processed.0 }) processed.1

  abbrev pub pass : Pipeline → Option ChangeEvent → Pipeline
  pass p none = p
  pass p (some event) = buffered p event

  unfoldable pub watermarked : Pipeline → ChangeEvent → Pipeline
  watermarked p event =
      let processed = process_replication_event key_text p.watermark_engine event in
      pass (record p { watermark_engine = processed.0 }) processed.1

  abbrev pub judge : Pipeline → ChangeEvent → Result (Fault d j) (Unit {0}) → Pipeline
  judge p event (ok u) = watermarked p event
  judge p event (err e) = record p {
    dead_letters =
        p.dead_letters ++ record { failed_event = event; error_reason = schema_validation e } ∷ [];
  }

  unfoldable pub validated : Pipeline → ChangeEvent → Pipeline
  validated p event = judge p event (validate_event d j p.store source_id event)

  abbrev pub unless_duplicate :
      (Pipeline → ChangeEvent → Pipeline) → Pipeline → ChangeEvent → Bool → Pipeline
  unless_duplicate next p event true = p
  unless_duplicate next p event false = next p event

  -- An event of the Postgres stream, and one of the Cassandra stream.
  unfoldable pub handle_postgres : Pipeline → ChangeEvent → Pipeline
  handle_postgres p event =
      let checked = check_and_track p.dedup_filter event.id in
      unless_duplicate validated (record p { dedup_filter = checked.0 }) event checked.1

  unfoldable pub handle_cassandra : Pipeline → ChangeEvent → Pipeline
  handle_cassandra p event =
      let checked = check_and_track p.dedup_filter event.id in
      unless_duplicate buffered (record p { dedup_filter = checked.0 }) event checked.1

  -- The loop over the stream, where each item comes with what `is_leader` says at that time. An error
  -- of the stream ends it, unless the node is no leader.
  unfoldable pub run :
      {E : Type 0}
      → (Pipeline → ChangeEvent → Pipeline)
      → Pipeline
      → List (Bool × Result E ChangeEvent)
      → Pipeline
  run handle p [] = p
  run handle p ((false, event_result) ∷ items) = run handle p items
  run handle p ((true, ok event) ∷ items) = run handle (handle p event) items
  run handle p ((true, err e) ∷ items) = p
