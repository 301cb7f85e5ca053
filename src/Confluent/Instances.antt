-- ===== src/Confluent/Instances.antt =====
-- A serializer that prints the id of an event that has nothing else, and refuses all others.
use caminus.Prelude.{ℕ, ◌≡◌, ap, Option, none, List, [], Result, ok, err, zero}
use caminus.Text.Defs.{Text}
use caminus.Json.Value.{Value, null}
use caminus.Event.{ChangeEvent, Operation, create}
use caminus.Transform.Wasm.{EventSerde}

abbrev pub plain_event : Text → ChangeEvent
plain_event id = record {
  id = id;
  source_database = [];
  source_table_or_collection = [];
  operation = create;
  timestamp = 0;
  key = null;
  before = none;
  after = none;
  transaction_id = none;
  offset = [];
}

abbrev fields_of :
    Text
    → Text
    → Text
    → Operation
    → ℕ
    → Value
    → Option Value
    → Option Value
    → Option Text
    → Text
    → ChangeEvent
fields_of id db table op time key before after tx offset = record {
  id = id;
  source_database = db;
  source_table_or_collection = table;
  operation = op;
  timestamp = time;
  key = key;
  before = before;
  after = after;
  transaction_id = tx;
  offset = offset;
}

print_fields :
    Text
    → Text
    → Text
    → Operation
    → ℕ
    → Value
    → Option Value
    → Option Value
    → Option Text
    → Text
    → Result (Unit {0}) (List ℕ)
print_fields id [] [] create zero null none none none [] = ok id
print_fields _ _ _ _ _ _ _ _ _ _ = err tt

unfoldable pub print : ChangeEvent → Result (Unit {0}) (List ℕ)
unfolding print_fields
print e =
    print_fields e.id e.source_database e.source_table_or_collection e.operation e.timestamp e.key
      e.before e.after e.transaction_id e.offset

parse-print_fields :
    (id db table : Text) (op : Operation) (time : ℕ) (key : Value) (before after : Option Value)
    (tx : Option Text) (offset : Text) (bytes : List ℕ)
    → print_fields id db table op time key before after tx offset ≡ ok bytes
    → plain_event bytes ≡ fields_of id db table op time key before after tx offset
unfolding print_fields
parse-print_fields id [] [] create zero null none none none [] bytes h = cc h
parse-print_fields _ _ _ _ _ _ _ _ _ _ bytes h = absurd (cc h)

pub parse-print : (e : ChangeEvent) (bytes : List ℕ) → print e ≡ ok bytes → plain_event bytes ≡ e
unfolding print
parse-print e bytes h =
    parse-print_fields e.id e.source_database e.source_table_or_collection e.operation e.timestamp
      e.key e.before e.after e.transaction_id e.offset bytes h

abbrev pub ids_only : EventSerde
ids_only = record {
  Failure = Unit {0};
  to_vec = print;
  from_slice = λ bytes. ok (plain_event bytes);
  from_slice-to_vec = λ e bytes plain h. ap ok (parse-print e bytes h);
}
