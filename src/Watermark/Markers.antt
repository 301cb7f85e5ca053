-- ===== src/Watermark/Markers.antt =====
-- The window as a state machine, and what passes downstream.
use caminus.Prelude.{
  ◌≡◌, refl, ◌∙◌, ap, Bool, not, none, some, List, [], ◌∷◌, if◌then◌else◌, arith, ◌&&◌,
}
use caminus.Text.Defs.{Text}
use caminus.Json.Value.{Value}
use caminus.Event.{ChangeEvent}
use caminus.Watermark.Defs.{
  WatermarkSnapshotter, is_watermark_row, is_marker_operation, process_replication_event, run,
}

abbrev pub is_marker : ChangeEvent → Bool
is_marker event = is_watermark_row event && is_marker_operation event.operation

-- The events that are no rows of the metadata table.
unfoldable pub data_events : List ChangeEvent → List ChangeEvent
data_events [] = []
data_events (event ∷ events) =
    let rest = data_events events in if is_watermark_row event then rest else event ∷ rest

-- The window after the events: each marker opens or closes it.
unfoldable pub window_after : Bool → List ChangeEvent → Bool
window_after open' [] = open'
window_after open' (event ∷ events) =
    window_after (if is_marker event then not open' else open') events

module _ (key_text : Value → Text) where
  pub window-process :
      (w : WatermarkSnapshotter) (event : ChangeEvent)
      → (process_replication_event key_text w event).0.in_watermark_window
        ≡ (if is_marker event then not w.in_watermark_window else w.in_watermark_window)
  unfolding process_replication_event
  window-process w event = ground arith

  pub passed-process :
      (w : WatermarkSnapshotter) (event : ChangeEvent)
      → (process_replication_event key_text w event).1
        ≡ (if is_watermark_row event then none else some event)
  unfolding process_replication_event
  passed-process w event = ground arith

  -- Whatever arrives, the rows of the metadata table are filtered out and every other event passes
  -- downstream unchanged and in order, inside the window and outside it; and the window is open
  -- exactly if the markers so far have opened it last: any create or commit row of the table turns
  -- it over, whichever transaction wrote it.
  pub run-data_events :
      (w : WatermarkSnapshotter) (events : List ChangeEvent)
      → ((run key_text w events).1 ≡ data_events events)
        × ((run key_text w events).0.in_watermark_window
            ≡ window_after w.in_watermark_window events)
  unfolding run data_events window_after
  run-data_events w [] = (refl, refl)
  run-data_events w (event ∷ events) =
      let w' : WatermarkSnapshotter = (process_replication_event key_text w event).0 in
      let ih = run-data_events w' events in
      (
        ground (arith, ih.0, passed-process w event),
        ih.1 ∙ ap (λ b. window_after b events) (window-process w event),
      )
