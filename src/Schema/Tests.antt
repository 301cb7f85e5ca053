-- ===== src/Schema/Tests.antt =====
-- Schemas and events of the program's own tests, and the theorems at them.
use caminus.Prelude.Fallible.{ok, err, map_err}
use caminus.Prelude.{◌≡◌, refl, false, Option, none, some, [], ◌∷◌, ◌↔◌, ◌⊎◌}
use caminus.Text.Defs.{Text, codes, text_eq, text_beq}
use caminus.Dict.Defs.{Dict, get, insert, contains_key}
use caminus.Json.Number.{pos_int, is_integral}
use caminus.Json.Value.{
  Value, null, number, string, object, end, field, value_eq, as_object, get_field, as_str,
  is_string, is_boolean, is_number,
}
use caminus.Event.{Operation, create, ChangeEvent, operation_beq}
use caminus.Storage.Database.{is_plain}
use caminus.Storage.Store.{get_schema, save_schema, get_offset}
use caminus.Storage.Instances.{memory, plain_json, print, parse}
use caminus.Schema.Defs.{
  backward, forward, full, field_added, validation, missing_field, schema_fields, check_types,
  check_contained, check_mode, check_fields, check_compatibility, is_integer, check_value,
  check_field, check_payload, is_validated, validate_against, register_schema, validate_event,
}
use caminus.Schema.Modes.{IsCompatible, check_compatibility_iff}
use caminus.Schema.Validation.{HasPayload, validate_iff}
use caminus.Schema.Register.{register_success}

program : Unit {0}
unfolding schema_fields get_field as_object get contains_key insert check_types check_contained
    check_mode check_fields check_compatibility value_eq text_beq as_str is_string is_boolean
    is_number is_integer is_integral check_value check_field check_payload validate_against
    operation_beq get_schema save_schema get_offset print parse register_schema validate_event
    is_plain
program = tt

abbrev typed : Text → Text → Dict Text Value → Dict Text Value
typed n t m = (n, string t) ∷ m

abbrev old_schema : Value
old_schema = object (
    field (codes "fields")
      (object (
        field (codes "id") (string (codes "integer"))
          (field (codes "name") (string (codes "string")) end)))
      end)

abbrev added_schema : Value
added_schema = object (
    field (codes "fields")
      (object (
        field (codes "email") (string (codes "string")) (
          field (codes "id") (string (codes "integer"))
            (field (codes "name") (string (codes "string")) end))))
      end)

abbrev old_fields : Dict Text Value
old_fields = (codes "id", string (codes "integer")) ∷ (codes "name", string (codes "string")) ∷ []

abbrev added_fields : Dict Text Value
added_fields = (codes "email", string (codes "string")) ∷ old_fields

may_add : check_compatibility old_schema added_schema backward ≡ ok tt
unfolding program
may_add = refl

may_not_add :
    check_compatibility old_schema added_schema forward ≡ err (field_added (codes "email"))
unfolding program
may_not_add = refl

check_compatibility_iff_example :
    (check_compatibility old_schema added_schema full ≡ ok tt)
    ↔ IsCompatible full old_fields added_fields
unfolding program
check_compatibility_iff_example =
    check_compatibility_iff full old_schema added_schema old_fields added_fields refl refl
      (refl, (refl, tt)) (refl, (refl, (refl, tt)))

abbrev event : Operation → Option Value → ChangeEvent
event op after = record {
  id = codes "evt-1";
  source_database = codes "db";
  source_table_or_collection = codes "users";
  operation = op;
  timestamp = 0;
  key = null;
  before = none;
  after = after;
  transaction_id = none;
  offset = codes "1";
}

abbrev john : Value
john =
    object
      (field (codes "id") (number (pos_int 1)) (field (codes "name") (string (codes "John")) end))

accepted : validate_against old_schema (event create (some john)) ≡ ok tt
unfolding program
accepted = refl

refused :
    validate_against added_schema (event create (some john)) ≡ err (missing_field (codes "email"))
unfolding program
refused = refl

validate_iff_example :
    (validate_against old_schema (event create (some john)) ≡ ok tt)
    ↔ ((is_validated create ≡ false) ⊎ HasPayload old_fields (some john))
unfolding program
validate_iff_example = validate_iff old_schema old_fields (event create (some john)) refl

abbrev one_field : Text → Value
one_field n = object (field (codes "fields") (object (field n (string (codes "integer")) end)) end)

abbrev stored : memory.State
stored = (codes "schema:pg", 6 ∷ 2 ∷ codes "fieldsidinteger") ∷ []

register_success_example :
    ((get_schema memory plain_json [] (codes "pg") ≡ ok none)
      ⊎ ((old : Value) × (get_schema memory plain_json [] (codes "pg") ≡ ok (some old))
          × (check_compatibility old (one_field (codes "id")) backward ≡ ok tt)))
    × ((event' : ChangeEvent)
        → validate_event memory plain_json stored (codes "pg") event'
          ≡ map_err validation (validate_against (one_field (codes "id")) event'))
    × ((other : Text)
        → text_beq (codes "pg") other ≡ false
        → get_schema memory plain_json stored other ≡ get_schema memory plain_json [] other)
    × ((other : Text)
        → get_offset memory plain_json stored other ≡ get_offset memory plain_json [] other)
unfolding program
register_success_example =
    register_success memory plain_json [] stored (codes "pg") (one_field (codes "id")) backward refl
      refl
