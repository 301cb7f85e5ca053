-- ===== src/Schema/Defs.antt =====
-- `SchemaRegistry`. An error carries what its message shows, in place of the message's text.
use caminus.Prelude.Fallible.{Result, ok, err, ◌>>=◌, ◌>>◌, map_err, ok_or}
use caminus.Prelude.{Bool, false, not, ◌||◌, Option, none, some, List, [], ◌∷◌, ◌==◌, if◌then◌else◌}
use caminus.Text.Defs.{Text, codes, text_eq}
use caminus.Dict.Defs.{Dict, keys, get, contains_key}
use caminus.Json.Number.{is_integral}
use caminus.Json.Value.{
  Value, number, value_eq, as_object, get_field, as_str, is_string, is_boolean, is_number,
}
use caminus.Event.{Operation, create, update, ChangeEvent, operation_eq}
use caminus.Storage.Database.{Database, Serde}
use caminus.Storage.Store.{Error, get_schema, save_schema}

pub data SchemaCompatibility : Type 0 where
  none_mode backward forward full : SchemaCompatibility

pub data Incompatibility : Type 0 where
  old_without_fields new_without_fields : Incompatibility
  type_changed : Text → Value → Value → Incompatibility
  field_deleted field_added : Text → Incompatibility

pub data Validation : Type 0 where
  schema_without_fields payload_not_object payload_missing : Validation
  type_not_string missing_field : Text → Validation
  expected : Text → Text → Value → Validation
  unsupported_type : Text → Validation

pub data SchemaError (S : Type 0) : Type 0 where
  storage : S → SchemaError S
  incompatibility : Incompatibility → SchemaError S
  validation : Validation → SchemaError S

-- `schema.get("fields").and_then(|f| f.as_object())`
unfoldable pub schema_fields : Value → Option (Dict Text Value)
schema_fields schema = elim (get_field (codes "fields") schema) [
  | none ↦ none
  | some f ↦ as_object f
]

-- The loop over the old fields that compares the types of the common ones.
unfoldable pub check_types : Dict Text Value → Dict Text Value → Result Incompatibility (Unit {0})
check_types [] new = ok tt
check_types ((field_name, old_type) ∷ old) new =
    let rest = check_types old new in
    elim (get field_name new) [
      | none ↦ rest
      | some new_type ↦
          if not (value_eq old_type new_type)
          then err (type_changed field_name old_type new_type)
          else rest
    ]

-- The loop that refuses the first name that the other fields lack.
unfoldable pub check_contained :
    (Text → Incompatibility) → List Text → Dict Text Value → Result Incompatibility (Unit {0})
check_contained refusal [] fields = ok tt
check_contained refusal (field_name ∷ names) fields =
    let rest = check_contained refusal names fields in
    if not (contains_key field_name fields) then err (refusal field_name) else rest

unfoldable pub check_mode :
    SchemaCompatibility → Dict Text Value → Dict Text Value → Result Incompatibility (Unit {0})
check_mode backward old new = check_contained field_deleted (keys old) new
check_mode forward old new = check_contained field_added (keys new) old
check_mode full old new = do
  check_contained field_deleted (keys old) new
  check_contained field_added (keys new) old
check_mode none_mode old new = ok tt

unfoldable pub check_fields :
    SchemaCompatibility → Value → Value → Result Incompatibility (Unit {0})
check_fields mode old_schema new_schema = do
  old_fields ← ok_or old_without_fields (schema_fields old_schema)
  new_fields ← ok_or new_without_fields (schema_fields new_schema)
  check_types old_fields new_fields
  check_mode mode old_fields new_fields

unfoldable pub check_compatibility :
    Value → Value → SchemaCompatibility → Result Incompatibility (Unit {0})
check_compatibility old_schema new_schema none_mode = ok tt
check_compatibility old_schema new_schema mode = check_fields mode old_schema new_schema

-- `!val.is_number() || val.as_f64().unwrap().fract() != 0.0`, negated
unfoldable pub is_integer : Value → Bool
is_integer (number n) = is_integral n
is_integer _ = false

-- The `match` on the expected type.
unfoldable pub check_value : Text → Text → Value → Result Validation (Unit {0})
check_value field_name expected_type val =
    if expected_type == codes "integer"
    then if is_integer val then ok tt else err (expected field_name expected_type val)
    else if expected_type == codes "string"
    then if is_string val then ok tt else err (expected field_name expected_type val)
    else if expected_type == codes "boolean"
    then if is_boolean val then ok tt else err (expected field_name expected_type val)
    else if expected_type == codes "float"
    then if is_number val then ok tt else err (expected field_name expected_type val)
    else err (unsupported_type expected_type)

unfoldable pub check_field : Text → Value → Dict Text Value → Result Validation (Unit {0})
check_field field_name type_val payload = do
  expected_type ← ok_or (type_not_string field_name) (as_str type_val)
  val ← ok_or (missing_field field_name) (get field_name payload)
  check_value field_name expected_type val

unfoldable pub check_payload : Dict Text Value → Dict Text Value → Result Validation (Unit {0})
check_payload [] payload = ok tt
check_payload ((field_name, type_val) ∷ fields) payload =
    check_field field_name type_val payload >> check_payload fields payload

abbrev pub is_validated : Operation → Bool
is_validated op = op == create || op == update

abbrev pub check_after : Dict Text Value → Option Value → Result Validation (Unit {0})
check_after fields none = err payload_missing
check_after fields (some payload) = do
  payload_obj ← ok_or payload_not_object (as_object payload)
  check_payload fields payload_obj

unfoldable pub validate_against : Value → ChangeEvent → Result Validation (Unit {0})
validate_against schema event = do
  fields ← ok_or schema_without_fields (schema_fields schema)
  if is_validated event.operation then check_after fields event.after else ok tt

module _ (d : Database) (j : Serde) where
  abbrev pub Fault : Type 0
  Fault = SchemaError (Error d j)

  abbrev pub check_existing : Option Value → Value → SchemaCompatibility → Result Fault (Unit {0})
  check_existing none new_schema mode = ok tt
  check_existing (some old_schema) new_schema mode =
      map_err incompatibility (check_compatibility old_schema new_schema mode)

  unfoldable pub register_schema :
      d.State → Text → Value → SchemaCompatibility → Result Fault d.State
  register_schema s source_id new_schema mode = do
    existing ← map_err storage (get_schema d j s source_id)
    check_existing existing new_schema mode
    map_err storage (save_schema d j s source_id new_schema)

  abbrev pub validate_registered : Option Value → ChangeEvent → Result Fault (Unit {0})
  validate_registered none event = ok tt
  validate_registered (some schema) event = map_err validation (validate_against schema event)

  unfoldable pub validate_event : d.State → Text → ChangeEvent → Result Fault (Unit {0})
  validate_event s source_id event = do
    registered ← map_err storage (get_schema d j s source_id)
    validate_registered registered event
