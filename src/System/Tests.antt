-- ===== src/System/Tests.antt =====
-- The two tasks through a few events, in turns.
use caminus.Prelude.{◌≡◌, refl, true, false, Option, none, some, List, [], ◌∷◌}
use caminus.Prelude.Fallible.{ok, err}
use caminus.Text.Defs.{Text, codes, text_beq, text_eq}
use caminus.Text.Utf8.{is_utf8, from_utf8}
use caminus.Dict.Defs.{get, insert, remove, contains_key}
use caminus.Json.Value.{Value, null}
use caminus.Event.{ChangeEvent, Operation, create, commit, operation_beq}
use caminus.Storage.Store.{save_offset, get_offset, get_schema}
use caminus.Storage.Instances.{memory, plain_json, print, parse}
use caminus.Schema.Defs.{validate_event}
use caminus.Dedup.Defs.{check_and_track, evict, contains, remove as remove_id, new as new_filter}
use caminus.Buffer.Defs.{held, process_in, process, new as new_buffer}
use caminus.Watermark.Defs.{is_watermark_row, process_replication_event, new as new_engine}
use caminus.Pipeline.Defs.{
  Pipeline, deliver, buffered, watermarked, validated, handle_postgres, handle_cassandra,
}
use caminus.System.Defs.{
  Move, postgres_item, cassandra_item, postgres_items, cassandra_items, System, run, IsAlone,
  alone_postgres, alone_cassandra,
}
use caminus.System.Independence.{run-IsAlone}
use caminus.Worker.Instances.{passthrough, passthrough-valid, saves}

program : Unit {0}
unfolding text_beq is_utf8 from_utf8 get insert remove contains_key operation_beq save_offset
    get_offset get_schema print parse validate_event check_and_track evict contains remove_id held
    process_in process is_watermark_row process_replication_event deliver buffered watermarked
    validated handle_postgres handle_cassandra run
program = tt

abbrev event : Text → Operation → Option Text → ChangeEvent
event id op tx = record {
  id = id;
  source_database = codes "db";
  source_table_or_collection = codes "users";
  operation = op;
  timestamp = 0;
  key = null;
  before = none;
  after = none;
  transaction_id = tx;
  offset = id;
}

abbrev row : ChangeEvent
row = event (codes "1") create (some (codes "a"))

abbrev reading : ChangeEvent
reading = event (codes "7") create none

abbrev moves : List (Move (Unit {0}))
moves =
    postgres_item true (ok row)
    ∷ cassandra_item true (ok reading)
    ∷ cassandra_item true (err tt)
    ∷ postgres_item true (ok (event (codes "2") commit (some (codes "a"))))
    ∷ cassandra_item true (ok (event (codes "8") create none))
    ∷ []

abbrev key_text : Value → Text
key_text key = codes "key"

abbrev pg : Text
pg = codes "postgres_users"

abbrev sensors : Text
sensors = codes "cassandra_sensors"

abbrev fresh_task : (source_id : Text) → Pipeline memory plain_json key_text passthrough source_id
fresh_task source_id = record {
  tx_buffer = new_buffer;
  watermark_engine = new_engine;
  dedup_filter = new_filter 1000;
  store = [];
  sent = [];
  dead_letters = [];
}

abbrev both : System memory plain_json key_text passthrough pg sensors
both = record {
  store = [];
  postgres = fresh_task pg;
  cassandra = fresh_task sensors;
  postgres_runs = true;
  cassandra_runs = true;
}

abbrev ended : System memory plain_json key_text passthrough pg sensors
ended = run memory plain_json key_text passthrough pg sensors both moves

-- The row is sent at its commit, and the second reading comes after the end of its loop.
sent : (ended.postgres.sent ≡ row ∷ []) × (ended.cassandra.sent ≡ reading ∷ [])
unfolding program
sent = (refl, refl)

apart : (text_beq pg sensors ≡ false) × (text_beq sensors pg ≡ false)
unfolding text_beq
apart = (refl, refl)

run-IsAlone_example :
    IsAlone memory plain_json key_text passthrough pg ended.store ended.postgres (
      alone_postgres memory plain_json key_text passthrough pg true
        (fresh_task pg)
        (postgres_items moves))
    × IsAlone memory plain_json key_text passthrough sensors ended.store ended.cassandra (
        alone_cassandra memory plain_json key_text passthrough sensors true
          (fresh_task sensors)
          (cassandra_items moves))
run-IsAlone_example =
    run-IsAlone memory plain_json key_text passthrough passthrough-valid pg sensors (apart.0)
      (apart.1) (saves pg) (saves sensors) moves both
