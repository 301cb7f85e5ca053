-- ===== src/Source/Cassandra.antt =====
-- The stream of `CassandraSource` (src/source/cassandra.rs). The clock's reading, its text and the
-- reading of the sensor, of floating point, are arguments.
use caminus.Prelude.{ℕ, ◌+◌, ◌%◌, ◌^◌, none, some, ◌++◌}
use caminus.Text.Defs.{Text, codes}
use caminus.Text.Decimal.{to_string}
use caminus.Json.Number.{Number}
use caminus.Json.Value.{number, string, object, field, end}
use caminus.Event.{ChangeEvent, create}

abbrev pub sensor_at : ℕ → Text
sensor_at next_pos = codes "sensor-" ++ to_string (next_pos % 10)

module _ (reading : ℕ → Number) (rfc3339 : ℕ → Text) where
  unfoldable pub event_at : ℕ → ℕ → ChangeEvent
  event_at now next_pos = record {
    id = codes "cas-evt-" ++ to_string next_pos;
    source_database = codes "caminus_keyspace";
    source_table_or_collection = codes "sensor_readings";
    operation = create;
    timestamp = now;
    key = object (
        field (codes "sensor_id") (string (sensor_at next_pos))
          (field (codes "timestamp") (string (rfc3339 now)) end));
    before = none;
    after = some (
        object (
          field (codes "reading_value") (number (reading next_pos)) (
            field (codes "sensor_id") (string (sensor_at next_pos))
              (field (codes "status") (string (codes "OK")) end))));
    transaction_id = none;
    offset = to_string next_pos;
  }

  unfoldable pub next_event : ℕ → ℕ → ChangeEvent × ℕ
  next_event now pos = let next_pos = (pos + 1) % 2 ^ 64 in (event_at now next_pos, next_pos)
