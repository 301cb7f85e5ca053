-- ===== src/Watermark/Tests.antt =====
-- A snapshot cycle, and the theorems about it at concrete events.
use caminus.Prelude.{◌≡◌, refl, false, Option, none, some, List, [], ◌∷◌, ◌++◌}
use caminus.Text.Defs.{Text, codes, text_eq, text_beq}
use caminus.Dict.Defs.{get, insert, remove, update, contains_key}
use caminus.Json.Value.{Value, null, string}
use caminus.Event.{
  Operation, create, update as op_update, delete, snapshot, ChangeEvent, operation_beq,
}
use caminus.Watermark.Defs.{
  new, watermark_table, load_chunk, process_replication_event, run, flush_chunk,
}
use caminus.Watermark.Markers.{data_events, window_after, run-data_events}
use caminus.Watermark.Cycle.{last_row, reconciled, cycle}

-- Keys are texts here, printed as they are.
key_text : Value → Text
key_text (string s) = s
key_text _ = []

program : Unit {0}
unfolding run load_chunk process_replication_event flush_chunk get insert remove update contains_key
    text_beq operation_beq key_text
program = tt

abbrev event : Text → Operation → Text → Option Value → ChangeEvent
event table op key after = record {
  id = key;
  source_database = codes "db";
  source_table_or_collection = table;
  operation = op;
  timestamp = 0;
  key = string key;
  before = none;
  after = after;
  transaction_id = none;
  offset = [];
}

abbrev marker : ChangeEvent
marker = event watermark_table create (codes "wm") none

abbrev row : Text → ChangeEvent
row key = event (codes "users") snapshot key (some (string (codes "John")))

abbrev rows : List ChangeEvent
rows = row (codes "1") ∷ row (codes "2") ∷ row (codes "3") ∷ []

abbrev events : List ChangeEvent
events =
    event (codes "users") op_update (codes "1") (some (string (codes "Jane")))
    ∷ event (codes "users") delete (codes "2") none
    ∷ event (codes "users") create (codes "4") (some null)
    ∷ []

abbrev jane : ChangeEvent
jane = record (row (codes "1")) { after = some (string (codes "Jane")) }

flushed :
    (flush_chunk
      (run key_text (load_chunk key_text new rows) (marker ∷ (events ++ marker ∷ []))).0).1
    ≡ jane ∷ row (codes "3") ∷ []
unfolding program
flushed = refl

run-data_events_example :
    ((run key_text new (marker ∷ events)).1 ≡ data_events (marker ∷ events))
    × ((run key_text new (marker ∷ events)).0.in_watermark_window
        ≡ window_after false (marker ∷ events))
run-data_events_example = run-data_events key_text new (marker ∷ events)

cycle_example :
    (let after' = run key_text (load_chunk key_text new rows) (marker ∷ (events ++ marker ∷ [])) in
      (after'.0.in_watermark_window ≡ false)
      × (after'.1 ≡ events)
      × ((k : Text)
          → get k after'.0.active_chunk
            ≡ reconciled key_text k (last_row key_text k none rows) events))
unfolding program
cycle_example =
    cycle key_text new rows events marker marker refl refl refl (refl, (refl, (refl, tt)))
