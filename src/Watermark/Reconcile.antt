-- ===== src/Watermark/Reconcile.antt =====
-- The rows of the chunk, key by key, against the events of the window.
use mathlib.Core.Option
use caminus.Prelude.{
  ◌≡◌, refl, ◌∙◌, ap, Bool, not, ◌&&◌, Option, none, List, [], ◌∷◌, ◌==◌, if◌then◌else◌, arith,
}
use caminus.Text.Defs.{Text, text_eq, text_beq_iff}
use caminus.Dict.Defs.{Dict, get, contains_key}
use caminus.Dict.Laws.{get-remove, get-update}
use caminus.Json.Value.{Value}
use caminus.Event.{Operation, create, update as op_update, delete, ChangeEvent}
use caminus.Watermark.Defs.{
  WatermarkSnapshotter, is_watermark_row, overwrite, reconcile_row, reconcile,
  process_replication_event, run,
}
use caminus.Watermark.Markers.{is_marker, window-process}

abbrev pub Row : Type 0
Row = Option ChangeEvent

-- What an event does to the row of its own key.
unfoldable pub row_step : Operation → ChangeEvent → Row → Row
row_step delete event row = none
row_step op_update event row = Option.map (overwrite event) row
row_step create event row = Option.map (overwrite event) row
row_step _ event row = row

map-none : (f : ChangeEvent → ChangeEvent) (row : Row) → row ≡ none → Option.map f row ≡ none
map-none f row h = rw h

get-reconcile_row :
    (op : Operation) (k j : Text) (event : ChangeEvent) (chunk : Dict Text ChangeEvent)
    → get j (reconcile_row op k event chunk)
      ≡ (if k == j then row_step op event (get j chunk) else get j chunk)
unfolding reconcile_row row_step
get-reconcile_row delete k j event chunk = get-remove k j chunk
get-reconcile_row op_update k j event chunk = get-update k j (overwrite event) chunk
get-reconcile_row create k j event chunk = get-update k j (overwrite event) chunk
get-reconcile_row _ k j event chunk = ground arith

row_step-none : (op : Operation) (event : ChangeEvent) → row_step op event none ≡ none
unfolding row_step
row_step-none delete event = refl
row_step-none _ event = refl

module _ (key_text : Value → Text) where
  abbrev pub touches : Text → ChangeEvent → Bool
  touches k event = key_text event.key == k

  -- The row of the key `k` after the events of an open window.
  unfoldable pub rows_after : Text → Row → List ChangeEvent → Row
  rows_after k row [] = row
  rows_after k row (event ∷ events) =
      rows_after k (if touches k event then row_step event.operation event row else row) events

  pub get-reconcile :
      (w : WatermarkSnapshotter) (event : ChangeEvent) (k : Text)
      → get k (reconcile key_text w event).active_chunk ≡ (
          if touches k event
          then row_step event.operation event (get k w.active_chunk)
          else get k w.active_chunk)
  unfolding reconcile contains_key
  get-reconcile w event k = ground (
    arith,
    get-reconcile_row event.operation (key_text event.key) k event w.active_chunk,
    row_step-none event.operation event,
    text_beq_iff (key_text event.key) k,
  )

  -- The chunk and the window side by side, for one key.
  unfoldable pub row_after : Text → Bool → Row → List ChangeEvent → Row
  row_after k open' row [] = row
  row_after k open' row (event ∷ events) =
      row_after k (if is_marker event then not open' else open')
        (if is_watermark_row event
          then row
          else if open' && touches k event
          then row_step event.operation event row
          else row)
        events

  get-process :
      (w : WatermarkSnapshotter) (event : ChangeEvent) (k : Text)
      → get k (process_replication_event key_text w event).0.active_chunk ≡ (
          if is_watermark_row event
          then get k w.active_chunk
          else if w.in_watermark_window && touches k event
          then row_step event.operation event (get k w.active_chunk)
          else get k w.active_chunk)
  unfolding process_replication_event
  get-process w event k = ground (arith, get-reconcile w event k)

  -- Key by key, the chunk is what the events make of it: only events inside an open window count,
  -- only those with the key, and never the rows of the metadata table.
  pub get-run :
      (w : WatermarkSnapshotter) (events : List ChangeEvent) (k : Text)
      → get k (run key_text w events).0.active_chunk
        ≡ row_after k w.in_watermark_window (get k w.active_chunk) events
  unfolding run row_after
  get-run w [] k = refl
  get-run w (event ∷ events) k =
      let w' : WatermarkSnapshotter = (process_replication_event key_text w event).0 in
      get-run w' events k
      ∙ ap (λ b. row_after k b (get k w'.active_chunk) events) (window-process key_text w event)
      ∙ ap
          (λ r.
            row_after k
              (if is_marker event then not w.in_watermark_window else w.in_watermark_window) r
              events)
          (get-process w event k)
