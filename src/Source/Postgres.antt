-- ===== src/Source/Postgres.antt =====
-- The stream of `PostgresSource` (src/source/postgres.rs), which simulates replicated transactions of
-- three mutations and a commit. The clock's reading is an argument; additions are those of `u64`.
use caminus.Prelude.{ℕ, ◌+◌, ◌-◌, ◌/◌, ◌%◌, ◌^◌, Option, none, some, ◌++◌, nat_eq, if◌then◌else◌}
use caminus.Text.Defs.{Text, codes}
use caminus.Text.Decimal.{to_string, parse_u64}
use caminus.Json.Number.{pos_int}
use caminus.Json.Value.{Value, number, string, object, field, end}
use caminus.Event.{ChangeEvent, Operation, create, update, commit}

abbrev pub or_zero : Option ℕ → ℕ
or_zero none = 0
or_zero (some n) = n

-- `start_offset.and_then(|o| o.parse::<u64>().ok()).unwrap_or(0)`
abbrev pub parsed : Option Text → Option ℕ
parsed none = none
parsed (some o) = parse_u64 o

unfoldable pub start_seq : Option Text → ℕ
start_seq start_offset = or_zero (parsed start_offset)

unfoldable pub operation_at : ℕ → Operation
operation_at next_seq =
    if nat_eq (next_seq % 4) 0 then commit else if nat_eq (next_seq % 4) 1 then create else update

-- `json!` orders the keys of an object.
unfoldable pub row_at : ℕ → Value
row_at next_seq = object (
    field (codes "email") (string (codes "user" ++ to_string next_seq ++ codes "@caminus.io")) (
      field (codes "id") (number (pos_int next_seq))
        (field (codes "name") (string (codes "User " ++ to_string next_seq)) end)))

unfoldable pub transaction_at : ℕ → Text
transaction_at next_seq = codes "tx-" ++ to_string ((next_seq + 2 ^ 64 - 1) % 2 ^ 64 / 4 + 1000)

unfoldable pub event_at : ℕ → ℕ → ChangeEvent
event_at now next_seq = record {
  id = codes "pg-evt-" ++ to_string next_seq;
  source_database = codes "caminus_db";
  source_table_or_collection = codes "users";
  operation = operation_at next_seq;
  timestamp = now;
  key = object (field (codes "id") (number (pos_int next_seq)) end);
  before = none;
  after = if nat_eq (next_seq % 4) 0 then none else some (row_at next_seq);
  transaction_id = some (transaction_at next_seq);
  offset = to_string next_seq;
}

-- A step of `unfold`: the event and the next state.
unfoldable pub next_event : ℕ → ℕ → ChangeEvent × ℕ
next_event now seq = let next_seq = (seq + 1) % 2 ^ 64 in (event_at now next_seq, next_seq)
