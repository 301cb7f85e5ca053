-- ===== src/Confluent/Tests.antt =====
-- Registrations and buffers, and the theorems about them.
use caminus.Prelude.{◌^◌, ◌≤◌, ◌<◌, ◌≡◌, ◌↔◌, refl, [], ◌∷◌, arith}
use caminus.Prelude.Fallible.{ok, err}
use caminus.Text.Defs.{Text, codes, text_beq}
use caminus.Dict.Defs.{get, insert}
use caminus.Storage.Database.{is_plain_within}
use caminus.Confluent.Defs.{
  ConfluentRegistryClient, new, assign, register_schema, encode_wire_format, decode_wire_format,
  too_short, invalid_magic,
}
use caminus.Confluent.Wire.{decode_iff}
use caminus.Confluent.Ids.{new-IsValid}
use caminus.Confluent.Calls.{
  Calls, no_calls, Steps, here, next, not_found, assigned, AreConsistent, Steps-AreConsistent,
}
use caminus.Confluent.Instances.{plain_event, ids_only, print}
use caminus.Confluent.Avro.{encode_event, decode_event, decode_event-encode_event}

program : Unit {0}
unfolding is_plain_within register_schema encode_wire_format decode_wire_format get insert text_beq
    encode_event decode_event print
program = tt

abbrev client : ConfluentRegistryClient
client = new (codes "http://localhost:8081")

first_id : (register_schema (codes "users-value") client).0 ≡ 100
unfolding program
first_id = refl

refused_magic : decode_wire_format (1 ∷ 0 ∷ 0 ∷ 0 ∷ 100 ∷ []) ≡ err (invalid_magic 1)
unfolding program
refused_magic = refl

refused_short : decode_wire_format (0 ∷ 0 ∷ 0 ∷ 0 ∷ []) ≡ err too_short
unfolding program
refused_short = refl

decode_iff_example :
    (decode_wire_format (0 ∷ 0 ∷ 0 ∷ 1 ∷ 2 ∷ 7 ∷ []) ≡ ok (258, 7 ∷ []))
    ↔ ((258 < 2 ^ 32) × (0 ∷ 0 ∷ 0 ∷ 1 ∷ 2 ∷ 7 ∷ [] ≡ encode_wire_format 258 (7 ∷ [])))
decode_iff_example =
    decode_iff (0 ∷ 0 ∷ 0 ∷ 1 ∷ 2 ∷ 7 ∷ []) 258 (7 ∷ [])
      (omega arith, (omega arith, (omega arith, (omega arith, (omega arith, (omega arith, tt))))))

-- Two calls for a subject that both look it up before either assigns an id.
abbrev users : Text
users = codes "users-value"

abbrev url : Text
url = codes "http://localhost:8081"

abbrev both_missed : Calls
both_missed = record { client = client; waiting = users ∷ users ∷ []; returned = [] }

abbrev raced : Calls
raced = record {
  client = (assign users (assign users client).1).1;
  waiting = [];
  returned = (users, 101) ∷ (users, 100) ∷ [];
}

race : Steps (no_calls url) 4 raced
unfolding program
race =
    next
      (next (next (next here (not_found users refl refl)) (not_found users refl refl))
        (assigned [] (users ∷ []) users refl refl))
      (assigned [] [] users refl refl)

Steps-AreConsistent_example : AreConsistent raced × (raced.client.next_schema_id ≤ 104)
Steps-AreConsistent_example = Steps-AreConsistent url 4 raced (omega arith) race

decode_event-encode_event_example :
    decode_event ids_only (0 ∷ 0 ∷ 0 ∷ 0 ∷ 100 ∷ 7 ∷ 8 ∷ [])
    ≡ ok ((register_schema (codes "-value") client).0, plain_event (7 ∷ 8 ∷ []))
unfolding program
decode_event-encode_event_example =
    decode_event-encode_event ids_only (plain_event (7 ∷ 8 ∷ [])) client
      (0 ∷ 0 ∷ 0 ∷ 0 ∷ 100 ∷ 7 ∷ 8 ∷ []) (omega arith) (new-IsValid (codes "http://localhost:8081"))
      refl refl
