-- ===== src/Watermark/Cycle.antt =====
-- A whole snapshot cycle: load a chunk, open the window, replicate, close the window.
use mathlib.Core.Option
use mathlib.Core.Path.{ap₂}
use caminus.Prelude.{
  ◌≡◌, refl, ◌∙◌, ap, sym, Bool, true, false, not, ◌||◌, ◌&&◌, none, some, List, [], ◌∷◌, ◌++◌,
  if◌then◌else◌, Bool-cases, inl, inr, arith, All,
}
use caminus.Text.Defs.{Text, text_eq}
use caminus.Dict.Defs.{Dict, get, insert}
use caminus.Dict.Laws.{get-insert}
use caminus.Json.Value.{Value}
use caminus.Event.{Operation, create, update as op_update, delete, ChangeEvent}
use caminus.Watermark.Defs.{
  WatermarkSnapshotter, is_watermark_row, overwrite, load_into, load_chunk, run,
}
use caminus.Watermark.Markers.{is_marker, data_events, window_after, run-data_events}
use caminus.Watermark.Reconcile.{Row, row_step, touches, row_after, get-run}

abbrev writes : Operation → Bool
writes op_update = true
writes create = true
writes _ = false

abbrev deletes : Operation → Bool
deletes delete = true
deletes _ = false

-- The row with the values of the last write, if there is one.
abbrev written : Row → ChangeEvent → ChangeEvent
written none row = row
written (some event) row = overwrite event row

-- None of the events is a row of the metadata table.
abbrev pub AreData : List ChangeEvent → Type 0
AreData = All (λ event. is_watermark_row event ≡ false)

marker_row : (event : ChangeEvent) → is_marker event ≡ true → is_watermark_row event ≡ true
marker_row event h = ground arith

window_data :
    (b : Bool) (event : ChangeEvent)
    → is_watermark_row event ≡ false
    → (if is_marker event then not b else b) ≡ b
window_data b event h = rw h

window_marker :
    (b : Bool) (event : ChangeEvent)
    → is_marker event ≡ true
    → (if is_marker event then not b else b) ≡ not b
window_marker b event h = rw h

window_after-cycle :
    (events : List ChangeEvent) (high : ChangeEvent)
    → is_marker high ≡ true
    → AreData events
    → window_after true (events ++ high ∷ []) ≡ false
unfolding window_after
window_after-cycle [] high h d = window_marker true high h
window_after-cycle (event ∷ events) high h d =
    ap (λ b. window_after b (events ++ high ∷ [])) (window_data true event d.0)
    ∙ window_after-cycle events high h d.1

data_events-high :
    (events : List ChangeEvent) (high : ChangeEvent)
    → is_watermark_row high ≡ true
    → AreData events
    → data_events (events ++ high ∷ []) ≡ events
unfolding data_events
data_events-high [] high h d = rw h
data_events-high (event ∷ events) high h d =
    rw d.0 (ap (◌∷◌ event) (data_events-high events high h d.1))

module _ (key_text : Value → Text) where
  -- The last loaded row of a key.
  unfoldable pub last_row : Text → Row → List ChangeEvent → Row
  last_row k row [] = row
  last_row k row (event ∷ events) =
      last_row k (if touches key_text k event then some event else row) events

  pub get-load_into :
      (k : Text) (chunk : Dict Text ChangeEvent) (rows : List ChangeEvent)
      → get k (load_into key_text chunk rows) ≡ last_row k (get k chunk) rows
  unfolding load_into last_row
  get-load_into k chunk [] = refl
  get-load_into k chunk (event ∷ rows) =
      get-load_into k (insert (key_text event.key) event chunk) rows
      ∙ ap (λ r. last_row k r rows) (get-insert (key_text event.key) k event chunk)

  -- The last create or update of a key, and whether some event deletes it.
  unfoldable pub last_write : Text → List ChangeEvent → Row
  last_write k [] = none
  last_write k (event ∷ events) = elim (last_write k events) [
    | some later ↦ some later
    | none ↦ if touches key_text k event && writes event.operation then some event else none
  ]

  unfoldable pub is_deleted : Text → List ChangeEvent → Bool
  is_deleted k [] = false
  is_deleted k (event ∷ events) =
      touches key_text k event && deletes event.operation || is_deleted k events

  -- The row of a key after an open window, in closed form.
  unfoldable pub reconciled : Text → Row → List ChangeEvent → Row
  reconciled k row events =
      if is_deleted k events then none else Option.map (written (last_write k events)) row

  reconciled_step :
      (k : Text) (op : Operation) (event : ChangeEvent) (row : Row) (events : List ChangeEvent)
      → event.operation ≡ op
      → touches key_text k event ≡ true
      → reconciled k (row_step op event row) events ≡ reconciled k row (event ∷ events)
  unfolding reconciled row_step last_write is_deleted
  reconciled_step k delete event row events e t = ground (arith, e, t)
  reconciled_step k _ event none events e t = ground (arith, e, t)
  reconciled_step k _ event (some r) events e t = ground (arith, e, t)

  reconciled_other :
      (k : Text) (event : ChangeEvent) (row : Row) (events : List ChangeEvent)
      → touches key_text k event ≡ false
      → reconciled k row events ≡ reconciled k row (event ∷ events)
  unfolding reconciled last_write is_deleted
  reconciled_other k event row events t = ground (arith, t)

  reconciled_nil : (k : Text) (row : Row) → reconciled k row [] ≡ row
  unfolding reconciled last_write is_deleted
  reconciled_nil k none = refl
  reconciled_nil k (some r) = refl

  abbrev kept : Text → Row → ChangeEvent → Row
  kept k row event = if touches key_text k event then row_step event.operation event row else row

  reconciled-kept :
      (k : Text) (row : Row) (event : ChangeEvent) (events : List ChangeEvent)
      → reconciled k (kept k row event) events ≡ reconciled k row (event ∷ events)
  reconciled-kept k row event events = elim (Bool-cases (touches key_text k event)) [
    | inl mine ↦ rw mine (reconciled_step k event.operation event row events refl mine)
    | inr other ↦ rw other (reconciled_other k event row events other)
  ]

  row_after-data :
      (k : Text) (row : Row) (event : ChangeEvent) (events : List ChangeEvent)
      → is_watermark_row event ≡ false
      → row_after key_text k true row (event ∷ events)
        ≡ row_after key_text k true (kept k row event) events
  unfolding row_after
  row_after-data k row event events h =
      ap₂ (λ b r. row_after key_text k b r events) (window_data true event h) (rw h)

  row_after-marker :
      (k : Text) (b : Bool) (row : Row) (event : ChangeEvent) (events : List ChangeEvent)
      → is_marker event ≡ true
      → row_after key_text k b row (event ∷ events) ≡ row_after key_text k (not b) row events
  unfolding row_after
  row_after-marker k b row event events h =
      ap₂ (λ b r. row_after key_text k b r events) (window_marker b event h)
        (rw (marker_row event h))

  row_after-high :
      (k : Text) (row : Row) (events : List ChangeEvent) (high : ChangeEvent)
      → is_marker high ≡ true
      → AreData events
      → row_after key_text k true row (events ++ high ∷ []) ≡ reconciled k row events
  row_after-high k row [] high h d =
      row_after-marker k true row high [] h ∙ unfold row_after in sym (reconciled_nil k row)
  row_after-high k row (event ∷ events) high h d =
      row_after-data k row event (events ++ high ∷ []) d.0
      ∙ row_after-high k (kept k row event) events high h d.1
      ∙ reconciled-kept k row event events

  -- A chunk is loaded while the window is closed, a low marker opens it, data events follow, and a
  -- high marker closes it. Then the window is closed, every data event has passed downstream in
  -- order, and the row of each key is the last one loaded with it, gone if an event deleted the key,
  -- and else with the values and the time of the last create or update of the key, if there was one.
  -- No key is in the chunk that was not loaded.
  pub cycle :
      (w : WatermarkSnapshotter) (rows events : List ChangeEvent) (low high : ChangeEvent)
      → w.in_watermark_window ≡ false
      → is_marker low ≡ true
      → is_marker high ≡ true
      → AreData events
      → (let after' = run key_text (load_chunk key_text w rows) (low ∷ (events ++ high ∷ [])) in
          (after'.0.in_watermark_window ≡ false)
          × (after'.1 ≡ events)
          × ((k : Text) → get k after'.0.active_chunk ≡ reconciled k (last_row k none rows) events))
  unfolding load_chunk window_after data_events get
  cycle w rows events low high closed l h d =
      let w' : WatermarkSnapshotter = load_chunk key_text w rows in
      let replicated : List ChangeEvent = low ∷ (events ++ high ∷ []) in
      let (passed, window) = run-data_events key_text w' replicated in
      (
        window
            ∙ ap (λ b. window_after (if is_marker low then not b else b) (events ++ high ∷ []))
                closed
            ∙ ap (λ b. window_after b (events ++ high ∷ [])) (window_marker false low l)
            ∙ window_after-cycle events high h d,
        passed ∙ rw (marker_row low l) (data_events-high events high (marker_row high h) d),
        λ k.
            get-run key_text w' replicated k
            ∙ ap (λ b. row_after key_text k b (get k w'.active_chunk) replicated) closed
            ∙ row_after-marker k false (get k w'.active_chunk) low (events ++ high ∷ []) l
            ∙ row_after-high k (get k w'.active_chunk) events high h d
            ∙ ap (λ row. reconciled k row events) (get-load_into k [] rows),
      )
