-- ===== src/Worker/Lines.antt =====
-- The lines of the log by what they are about.
use caminus.Prelude.{
  ◌≡◌, refl, sym, ap, ◌∙◌, inl, inr, Bool-cases, ◌==◌, ◌&&◌, Option, none, some, List, [], ◌∷◌,
  ◌++◌, append-nil, append_assoc, Result, ok, err, map_err,
}
use mathlib.Core.List.{filter_map, filter_map-append}
use caminus.Text.Defs.{Text, codes}
use caminus.Event.{ChangeEvent, commit, operation_eq}
use caminus.Console.{Line, assigned, kafka_sent, console, dead_letter}
use caminus.Schema.Defs.{Fault}
use caminus.Sink.Defs.{
  simd, delivery, kafka_printed, or_text, display, serialize_event, send_kafka, send_stdout,
}
use caminus.Router.Defs.{resolve_partition}
use caminus.DeadLetter.{route_to_dlq}
use caminus.Pipeline.Defs.{DlqRecord, Reason, schema_validation, wasm_transform}
use caminus.Watermark.Defs.{WatermarkSnapshotter, is_watermark_row, is_marker_operation}
use caminus.Worker.World.{World, Labels, partition_router, kafka_sink}
use caminus.Worker.Defs.{
  delivery_lines, schema_letter, transform_letter, commit_lines, watermark_lines,
}

-- The lines about a delivery, and those of the dead letter queue.
abbrev pub as_delivery : Line → Option Line
as_delivery (assigned words id partition) = some (assigned words id partition)
as_delivery (kafka_sent topic brokers size) = some (kafka_sent topic brokers size)
as_delivery (console serialized) = some (console serialized)
as_delivery _ = none

abbrev pub as_letter : Line → Option Line
as_letter (dead_letter topic step retries reason payload) =
    some (dead_letter topic step retries reason payload)
as_letter _ = none

abbrev pub as_kafka : Line → Option Line
as_kafka (kafka_sent topic brokers size) = some (kafka_sent topic brokers size)
as_kafka _ = none

unfoldable pub deliveries : List Line → List Line
deliveries = filter_map as_delivery

unfoldable pub letters : List Line → List Line
letters = filter_map as_letter

pub deliveries-append : (xs ys : List Line) → deliveries (xs ++ ys) ≡ deliveries xs ++ deliveries ys
unfolding deliveries
deliveries-append = filter_map-append as_delivery

pub deliveries-nil : deliveries [] ≡ []
unfolding deliveries filter_map
deliveries-nil = refl

pub letters-append : (xs ys : List Line) → letters (xs ++ ys) ≡ letters xs ++ letters ys
unfolding letters
letters-append = filter_map-append as_letter

module _ (world : World) (labels : Labels) where
  open world use {database, serde, key_text, hash, TransformError, SimdError, to_string, simd_text}

  -- The lines of events that are sent, in turn.
  unfoldable pub sent_lines : List ChangeEvent → List Line
  sent_lines [] = []
  sent_lines (t ∷ ts) = delivery_lines world labels t ++ sent_lines ts

  abbrev pub letter_lines : Reason (Fault database serde) TransformError → ChangeEvent → List Line
  letter_lines (schema_validation e) event = schema_letter world labels event e
  letter_lines (wasm_transform e) event = transform_letter world labels event e

  -- The lines of dead letters, in turn.
  unfoldable pub dead_lines : List (DlqRecord (Fault database serde) TransformError) → List Line
  dead_lines [] = []
  dead_lines (letter ∷ rest) =
      letter_lines letter.error_reason letter.failed_event ++ dead_lines rest

  pub sent_lines-append :
      (ts us : List ChangeEvent) → sent_lines (ts ++ us) ≡ sent_lines ts ++ sent_lines us
  unfolding sent_lines
  sent_lines-append [] us = refl
  sent_lines-append (t ∷ ts) us =
      ap (λ l. delivery_lines world labels t ++ l) (sent_lines-append ts us)
      ∙ sym (append_assoc (delivery_lines world labels t) (sent_lines ts) (sent_lines us))

  pub sent_lines-snoc :
      (ts : List ChangeEvent) (t : ChangeEvent)
      → sent_lines (ts ++ t ∷ []) ≡ sent_lines ts ++ delivery_lines world labels t
  unfolding sent_lines
  sent_lines-snoc ts t =
      sent_lines-append ts (t ∷ [])
      ∙ ap (λ l. sent_lines ts ++ l) (append-nil (delivery_lines world labels t))

  pub dead_lines-snoc :
      (ls : List (DlqRecord (Fault database serde) TransformError))
      (letter : DlqRecord (Fault database serde) TransformError)
      → dead_lines (ls ++ letter ∷ [])
        ≡ dead_lines ls ++ letter_lines letter.error_reason letter.failed_event
  unfolding dead_lines
  dead_lines-snoc [] letter = append-nil (letter_lines letter.error_reason letter.failed_event)
  dead_lines-snoc (x ∷ xs) letter =
      ap (λ l. letter_lines x.error_reason x.failed_event ++ l) (dead_lines-snoc xs letter)
      ∙ sym (
          append_assoc (letter_lines x.error_reason x.failed_event) (dead_lines xs)
            (letter_lines letter.error_reason letter.failed_event))

  -- The lines of a delivery, by what the serialization gives.
  abbrev pub lines_by : ChangeEvent → Result SimdError Text → List Line
  lines_by t r =
      assigned labels.event_words t.id (resolve_partition key_text hash partition_router t)
        ∷ (kafka_printed kafka_sink
            (map_err (λ e. delivery (display to_string simd_text e)) (map_err simd r))).0
      ++ console (or_text (codes "Serialization error") (map_err simd r)) ∷ []

  -- The lines of a delivery are about deliveries, and none is a dead letter.
  pub deliveries-delivery_lines :
      (t : ChangeEvent)
      → (deliveries (delivery_lines world labels t) ≡ delivery_lines world labels t)
        × (letters (delivery_lines world labels t) ≡ [])
  unfolding deliveries letters filter_map delivery_lines send_kafka send_stdout serialize_event
  deliveries-delivery_lines t = of (to_string t)
    where
      of :
          (r : Result SimdError Text)
          → (deliveries (lines_by t r) ≡ lines_by t r) × (letters (lines_by t r) ≡ [])
      of (ok payload) = (refl, refl)
      of (err e) = (refl, refl)

  pub schema_letter-kind :
      (event : ChangeEvent) (e : Fault database serde)
      → (deliveries (schema_letter world labels event e) ≡ [])
        × (letters (schema_letter world labels event e) ≡ schema_letter world labels event e)
  unfolding deliveries letters filter_map schema_letter route_to_dlq
  schema_letter-kind event e = (refl, refl)

  pub transform_letter-kind :
      (event : ChangeEvent) (e : TransformError)
      → (deliveries (transform_letter world labels event e) ≡ [])
        × (letters (transform_letter world labels event e) ≡ transform_letter world labels event e)
  unfolding deliveries letters filter_map transform_letter route_to_dlq
  transform_letter-kind event e = (refl, refl)

  pub commit_lines-kind :
      (event : ChangeEvent) (ms : List ChangeEvent)
      → (deliveries (commit_lines world labels event ms) ≡ [])
        × (letters (commit_lines world labels event ms) ≡ [])
  unfolding deliveries letters filter_map
  commit_lines-kind event ms = elim (Bool-cases (event.operation == commit)) [
    | inl is ↦ rw is (refl, refl)
    | inr is_not ↦ rw is_not (refl, refl)
  ]

  pub watermark_lines-kind :
      (engine : WatermarkSnapshotter) (event : ChangeEvent)
      → (deliveries (watermark_lines world labels engine event) ≡ [])
        × (letters (watermark_lines world labels engine event) ≡ [])
  unfolding deliveries letters filter_map watermark_lines
  watermark_lines-kind engine event =
      elim (Bool-cases (is_watermark_row event && is_marker_operation event.operation)) [
        | inl marks ↦ elim (Bool-cases engine.in_watermark_window) [
          | inl inside ↦ rw (marks, inside) (refl, refl)
          | inr outside ↦ rw (marks, outside) (refl, refl)
        ]
        | inr passes ↦ rw passes (refl, refl)
      ]
