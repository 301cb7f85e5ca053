-- ===== src/Pipeline/Tests.antt =====
-- A small run of each task, and the theorems about them.
use caminus.Prelude.{◌≡◌, refl, Bool, true, false, none, some, List, [], ◌∷◌, ◌++◌}
use caminus.Prelude.Fallible.{Result, ok, err}
use caminus.Text.Defs.{Text, codes, text_beq, text_eq}
use caminus.Text.Utf8.{is_utf8, from_utf8}
use caminus.Dict.Defs.{get, insert, remove, contains_key}
use caminus.Json.Value.{Value, null}
use caminus.Event.{ChangeEvent, Operation, create, commit, rollback, operation_beq}
use caminus.Storage.Store.{save_offset, get_schema}
use caminus.Storage.Instances.{memory, plain_json, print, parse}
use caminus.Schema.Defs.{validate_event}
use caminus.Dedup.Defs.{check_and_track, evict, contains, remove as remove_id, new as new_filter}
use caminus.Buffer.Defs.{held, process_in, process, run as buffer_run, new as new_buffer}
use caminus.Watermark.Defs.{
  is_watermark_row, process_replication_event, run as watermark_run, new as new_engine,
}
use caminus.Pipeline.Defs.{
  Pipeline, deliver, buffered, watermarked, validated, handle_postgres, handle_cassandra, run,
}
use caminus.Pipeline.Stages.{fresh, accepted, transformed, led}
use caminus.Prelude.{map}
use caminus.Schema.Defs.{
  check_value, check_field, check_payload, validate_against, schema_fields, is_integer,
}
use caminus.Json.Value.{
  object, field, end, string, number, get_field, as_object, as_str, entries, is_string,
}
use caminus.Json.Number.{pos_int, is_integral}
use caminus.Storage.Instances.{Memory}
use caminus.Pipeline.Rejected.{refused, rejected}
use caminus.Pipeline.Failed.{failed, failing, postgres-dead_letters}
use caminus.Pipeline.Runs.{postgres-sent}

program : Unit {0}
unfolding text_beq is_utf8 from_utf8 get insert remove contains_key operation_beq save_offset
    get_schema print parse validate_event check_and_track evict contains remove_id held process_in
    process is_watermark_row process_replication_event deliver buffered watermarked validated
    handle_postgres handle_cassandra run
program = tt

abbrev event : Text → Operation → Text → ChangeEvent
event id op tx = record {
  id = id;
  source_database = codes "db";
  source_table_or_collection = codes "users";
  operation = op;
  timestamp = 0;
  key = null;
  before = none;
  after = none;
  transaction_id = some tx;
  offset = id;
}

abbrev first : ChangeEvent
first = event (codes "1") create (codes "a")

abbrev second : ChangeEvent
second = event (codes "2") create (codes "b")

abbrev items : List (Bool × Result (Unit {0}) ChangeEvent)
items =
    (true, ok first)
    ∷ (true, ok second)
    ∷ (true, ok first)
    ∷ (true, ok (event (codes "3") rollback (codes "b")))
    ∷ (false, err tt)
    ∷ (true, ok (event (codes "4") commit (codes "a")))
    ∷ (true, err tt)
    ∷ []

abbrev key_text : Value → Text
key_text key = codes "key"

abbrev passthrough : ChangeEvent → Result (Unit {0}) ChangeEvent
passthrough e = ok e

abbrev started : Pipeline memory plain_json key_text passthrough (codes "pg")
started = record {
  tx_buffer = new_buffer;
  watermark_engine = new_engine;
  dedup_filter = new_filter 1000;
  store = [];
  sent = [];
  dead_letters = [];
}

abbrev postgres_run : Pipeline memory plain_json key_text passthrough (codes "pg")
postgres_run =
    run memory plain_json key_text passthrough (codes "pg")
      (handle_postgres memory plain_json key_text passthrough (codes "pg")) started items

-- The transaction that is committed is sent once; the one that is rolled back is not.
committed : postgres_run.sent ≡ first ∷ []
unfolding program
committed = refl

postgres-sent_example :
    postgres_run.sent
    ≡ []
      ++ transformed passthrough
          (buffer_run new_buffer
            (watermark_run key_text new_engine (
              accepted memory plain_json
                (codes "pg")
                []
                (fresh (new_filter 1000) (led items)))).1).1
postgres-sent_example =
    postgres-sent memory plain_json key_text passthrough (codes "pg") started items

-- A schema by which the id is an integer, and an event whose id is a text.
abbrev with_schema : Memory
with_schema = (codes "schema:pg", 6 ∷ 2 ∷ (codes "fields" ++ (codes "id" ++ codes "integer"))) ∷ []

abbrev ill_typed : ChangeEvent
ill_typed = record first { after = some (object (field (codes "id") (string (codes "x")) end)) }

abbrev well_typed : ChangeEvent
well_typed = record first {
  id = codes "5";
  after = some (object (field (codes "id") (number (pos_int 1)) end));
}

-- A transformation that fails for new rows.
abbrev unless_created : Bool → ChangeEvent → Result (Unit {0}) ChangeEvent
unless_created true e = err tt
unless_created false e = ok e

abbrev no_creates : ChangeEvent → Result (Unit {0}) ChangeEvent
no_creates e = unless_created (operation_beq e.operation create) e

abbrev judged : Pipeline memory plain_json key_text no_creates (codes "pg")
judged = record {
  tx_buffer = new_buffer;
  watermark_engine = new_engine;
  dedup_filter = new_filter 1000;
  store = with_schema;
  sent = [];
  dead_letters = [];
}

abbrev judged_items : List (Bool × Result (Unit {0}) ChangeEvent)
judged_items =
    (true, ok ill_typed)
    ∷ (true, ok ill_typed)
    ∷ (true, ok second)
    ∷ (true, ok well_typed)
    ∷ (true, ok (event (codes "6") commit (codes "a")))
    ∷ []

abbrev judged_run : Pipeline memory plain_json key_text no_creates (codes "pg")
judged_run =
    run memory plain_json key_text no_creates (codes "pg")
      (handle_postgres memory plain_json key_text no_creates (codes "pg")) judged judged_items

-- The ill-typed event and the one without a row are refused once each, and the well-typed one fails.
three_letters :
    (map (λ letter. letter.0) (refused judged_run.dead_letters) ≡ ill_typed ∷ second ∷ [])
    × (map (λ letter. letter.0) (failed judged_run.dead_letters) ≡ well_typed ∷ [])
unfolding program rejected check_value check_field check_payload validate_against schema_fields
    get_field as_object as_str entries is_string is_integer is_integral
three_letters = (refl, refl)

postgres-dead_letters_example :
    (refused judged_run.dead_letters
      ≡ []
        ++ rejected memory plain_json
            (codes "pg")
            with_schema
            (fresh (new_filter 1000) (led judged_items)))
    × (failed judged_run.dead_letters
        ≡ []
          ++ failing no_creates
              (buffer_run new_buffer
                (watermark_run key_text new_engine (
                  accepted memory plain_json
                    (codes "pg")
                    with_schema
                    (fresh (new_filter 1000) (led judged_items)))).1).1)
postgres-dead_letters_example =
    postgres-dead_letters memory plain_json key_text no_creates (codes "pg") judged judged_items
