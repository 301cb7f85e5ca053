-- ===== src/Watermark/Defs.antt =====
-- `WatermarkSnapshotter`. The text of a key is what `serde_json` prints of it, a parameter here.
use caminus.Prelude.{
  Bool, true, false, ◌||◌, Option, none, some, List, [], ◌∷◌, ◌==◌, if◌then◌else◌,
}
use caminus.Text.Defs.{Text, codes, text_eq}
use caminus.Dict.Defs.{Dict, values, contains_key, insert, remove, update}
use caminus.Json.Value.{Value}
use caminus.Event.{
  Operation, create, update as op_update, delete, commit, ChangeEvent, operation_eq,
}

pub record WatermarkSnapshotter : Type 0 where
  pub active_chunk : Dict Text ChangeEvent
  pub in_watermark_window : Bool
  pub active_tx : Option Text

abbrev pub new : WatermarkSnapshotter
new = record { active_chunk = []; in_watermark_window = false; active_tx = none }

abbrev pub watermark_table : Text
watermark_table = codes "caminus_watermarks"

-- A row of the metadata table.
unfoldable pub is_watermark_row : ChangeEvent → Bool
is_watermark_row event = event.source_table_or_collection == watermark_table

unfoldable pub is_marker_operation : Operation → Bool
is_marker_operation op = op == create || op == commit

-- The low marker opens the window, the next one closes it.
unfoldable pub toggle_window : WatermarkSnapshotter → ChangeEvent → WatermarkSnapshotter
toggle_window w event =
    if w.in_watermark_window
    then record w { in_watermark_window = false; active_tx = none }
    else record w { in_watermark_window = true; active_tx = event.transaction_id }

-- The write of an update or a create into the row of the chunk.
abbrev pub overwrite : ChangeEvent → ChangeEvent → ChangeEvent
overwrite event row = record row { after = event.after; timestamp = event.timestamp }

-- What a replicated event does to the row of its key, which the chunk has.
unfoldable pub reconcile_row :
    Operation → Text → ChangeEvent → Dict Text ChangeEvent → Dict Text ChangeEvent
reconcile_row delete key event chunk = remove key chunk
reconcile_row op_update key event chunk = update key (overwrite event) chunk
reconcile_row create key event chunk = update key (overwrite event) chunk
reconcile_row _ key event chunk = chunk

module _ (key_text : Value → Text) where
  unfoldable pub load_into : Dict Text ChangeEvent → List ChangeEvent → Dict Text ChangeEvent
  load_into chunk [] = chunk
  load_into chunk (event ∷ events) = load_into (insert (key_text event.key) event chunk) events

  unfoldable pub load_chunk : WatermarkSnapshotter → List ChangeEvent → WatermarkSnapshotter
  unfolding load_into
  load_chunk w chunk_events = record w { active_chunk = load_into [] chunk_events }

  unfoldable pub reconcile : WatermarkSnapshotter → ChangeEvent → WatermarkSnapshotter
  unfolding reconcile_row
  reconcile w event =
      let key = key_text event.key in
      if contains_key key w.active_chunk
      then record w { active_chunk = reconcile_row event.operation key event w.active_chunk }
      else w

  unfoldable pub process_replication_event :
      WatermarkSnapshotter → ChangeEvent → WatermarkSnapshotter × Option ChangeEvent
  unfolding is_watermark_row is_marker_operation toggle_window reconcile
  process_replication_event w event =
      if is_watermark_row event
      then (if is_marker_operation event.operation then toggle_window w event else w, none)
      else (if w.in_watermark_window then reconcile w event else w, some event)

  -- A run of replicated events, and those that pass on downstream.
  unfoldable pub run :
      WatermarkSnapshotter → List ChangeEvent → WatermarkSnapshotter × List ChangeEvent
  run w [] = (w, [])
  run w (event ∷ events) =
      let (w', out) = process_replication_event w event in
      let (w'', outs) = run w' events in
      (w'', elim out [ none ↦ outs | some passed ↦ passed ∷ outs ])

unfoldable pub flush_chunk : WatermarkSnapshotter → WatermarkSnapshotter × List ChangeEvent
flush_chunk w = (record w { active_chunk = [] }, values w.active_chunk)
