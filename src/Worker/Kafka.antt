-- ===== src/Worker/Kafka.antt =====
-- What Kafka is sent, and where the checkpoint is.
use caminus.Prelude.{
  true, ◌≡◌, refl, sym, ap, ◌∙◌, Option, List, [], ◌∷◌, ◌++◌, length, Result, ok, err,
}
use mathlib.Core.List.{filter_map, filter_map-append}
use mathlib.Core.Path.{ap₂}
use caminus.Text.Defs.{Text}
use caminus.Text.Utf8.{is_utf8}
use caminus.Json.Value.{Value}
use caminus.Event.{ChangeEvent}
use caminus.Console.{
  Line, assigned, kafka_sent, console, forwarded, dead_letter, commit_received, low_watermark,
  high_watermark, stream_error, start_failed,
}
use caminus.Storage.Store.{save_offset, get_offset, get_schema}
use caminus.Sink.Defs.{serialize_event, send_kafka, send_stdout}
use caminus.Buffer.Defs.{run as buffer_run}
use caminus.Watermark.Defs.{run as watermark_run}
use caminus.Pipeline.Stages.{fresh, accepted, transformed, led}
use caminus.Pipeline.Runs.{postgres-sent}
use caminus.Pipeline.Checkpoint.{last_offset, run-IsCheckpointed}
use caminus.Worker.World.{World, Labels, kafka_sink}
use caminus.Worker.Defs.{Turn, validated, delivery_lines, run}
use caminus.Worker.Lines.{as_kafka, deliveries, sent_lines, lines_by}
use caminus.Worker.Shows.{W, task}
use caminus.Worker.Items.{served}
use caminus.Worker.Outcome.{postgres-Accounts}

-- The lines of Kafka's sink.
unfoldable pub kafka_log : List Line → List Line
kafka_log = filter_map as_kafka

kafka_log-deliveries : (lines : List Line) → kafka_log (deliveries lines) ≡ kafka_log lines
unfolding kafka_log deliveries filter_map
kafka_log-deliveries [] = refl
kafka_log-deliveries (assigned words id partition ∷ lines) = kafka_log-deliveries lines
kafka_log-deliveries (kafka_sent topic brokers size ∷ lines) =
    ap (◌∷◌ (kafka_sent topic brokers size)) (kafka_log-deliveries lines)
kafka_log-deliveries (console serialized ∷ lines) = kafka_log-deliveries lines
kafka_log-deliveries (forwarded id table cluster endpoint size ∷ lines) = kafka_log-deliveries lines
kafka_log-deliveries (dead_letter topic step retries reason payload ∷ lines) =
    kafka_log-deliveries lines
kafka_log-deliveries (commit_received transaction count ∷ lines) = kafka_log-deliveries lines
kafka_log-deliveries (low_watermark transaction ∷ lines) = kafka_log-deliveries lines
kafka_log-deliveries (high_watermark ∷ lines) = kafka_log-deliveries lines
kafka_log-deliveries (stream_error source error ∷ lines) = kafka_log-deliveries lines
kafka_log-deliveries (start_failed source error ∷ lines) = kafka_log-deliveries lines

module _ (world : World) (labels : Labels) where
  open world use {database, serde, key_text, SimdError, transform, to_string}

  -- One line for an event that can be serialized, and none for another.
  abbrev pub of_payload : Result SimdError Text → List Line
  of_payload (ok payload) = kafka_sent kafka_sink.topic kafka_sink.brokers (length payload) ∷ []
  of_payload (err e) = []

  unfoldable pub kafka_lines : List ChangeEvent → List Line
  kafka_lines [] = []
  kafka_lines (t ∷ ts) = of_payload (to_string t) ++ kafka_lines ts

  kafka_log-delivery_lines :
      (t : ChangeEvent) → kafka_log (delivery_lines world labels t) ≡ of_payload (to_string t)
  unfolding kafka_log filter_map delivery_lines send_kafka send_stdout serialize_event
  kafka_log-delivery_lines t = of (to_string t)
    where
      of : (r : Result SimdError Text) → kafka_log (lines_by world labels t r) ≡ of_payload r
      of (ok payload) = refl
      of (err e) = refl

  kafka_log-sent_lines :
      (ts : List ChangeEvent) → kafka_log (sent_lines world labels ts) ≡ kafka_lines ts
  unfolding kafka_log filter_map sent_lines kafka_lines
  kafka_log-sent_lines [] = refl
  kafka_log-sent_lines (t ∷ ts) =
      filter_map-append as_kafka (delivery_lines world labels t) (sent_lines world labels ts)
      ∙ ap₂ (λ xs ys. xs ++ ys) (kafka_log-delivery_lines t) (kafka_log-sent_lines ts)

  -- If every write of an offset succeeds and transformed events have offsets that are texts, then
  -- a Postgres worker that has printed and counted nothing, whose source has a readable checkpoint
  -- and schema in the store, ends as follows after any turns. Let the events be what the stages let
  -- through in turn of the items up to the first whose wait for a token does not end. Kafka has been
  -- sent one line for each event that can be serialized, in order, and none for the others; the
  -- checkpoint is the offset of the last event, whether it could be serialized or not, or the one
  -- before if there is no event.
  pub postgres-kafka :
      (w : W world labels) (turns : List (Turn world labels)) (before : Option Text)
      (schema : Option Value)
      → w.printed ≡ []
      → w.throughput ≡ 0
      → ((s : database.State) (offset : Text)
          → (s' : database.State) × (save_offset database serde s labels.source_id offset ≡ ok s'))
      → ((e t : ChangeEvent) → transform e ≡ ok t → is_utf8 t.offset ≡ true)
      → get_offset database serde w.store labels.source_id ≡ ok before
      → get_schema database serde w.store labels.source_id ≡ ok schema
      → (let w' = run world labels (validated world labels) w turns in
          let events =
            transformed transform
              (buffer_run w.tx_buffer
                (watermark_run key_text w.watermark_engine (
                  accepted database serde labels.source_id w.store
                    (fresh w.dedup_filter (led (served world labels w.limiter turns))))).1).1 in
          (kafka_log w'.printed ≡ kafka_lines events)
          × (get_offset database serde w'.store labels.source_id ≡ ok (last_offset before events)))
  postgres-kafka w turns before schema quiet zero_count saves valid checkpoint schema_kept =
      let items = served world labels w.limiter turns in
      let accounts = postgres-Accounts world labels w turns quiet zero_count in
      let sent =
        postgres-sent database serde key_text transform labels.source_id (task world labels w [] [])
          items in
      let checked =
        run-IsCheckpointed database serde key_text transform labels.source_id before schema saves
          valid (task world labels w [] []) items
          (record { checkpoint = checkpoint; schema_kept = schema_kept }) in
      (
        sym (kafka_log-deliveries _)
            ∙ ap kafka_log accounts.of_deliveries
            ∙ kafka_log-sent_lines _
            ∙ ap kafka_lines sent,
        ap (λ s. get_offset database serde s labels.source_id) accounts.stored
            ∙ checked.checkpoint
            ∙ ap (λ l. ok (last_offset before l)) sent,
      )
