-- ===== src/Security/Tests.antt =====
-- Masked values and rotated keys, and the theorems about them.
use caminus.Prelude.{ℕ, ◌+◌, ◌≤◌, ◌≡◌, refl, none, some, [], ◌∷◌, arith}
use mathlib.Core.Option
use caminus.Text.Defs.{Text, codes, text_beq, text_eq}
use caminus.Dict.Defs.{get, insert, update, keys}
use caminus.Json.Value.{
  Value, string, object, Fields, end, field, entries, from_entries, get_field, as_object,
}
use caminus.Security.Kms.{KmsProvider, new, get_key_by_version, get_active_key, rotate_key}
use caminus.Security.Rotation.{IsValid, new-IsValid, rotate_key-IsValid}
use caminus.Security.Engine.{
  redact, hash, PayloadSecurityEngine, add_rule, apply_rule, apply_rules, transform_value,
}
use caminus.Security.Fields.{masked, get-transform_value}

program : Unit {0}
unfolding text_beq get insert update entries from_entries get_field as_object new get_active_key
    rotate_key add_rule apply_rule apply_rules transform_value
program = tt

abbrev printed : Value → Text
printed v = codes "value"

abbrev engine : PayloadSecurityEngine
engine = record {
  field_rules = (codes "ssn", redact) ∷ (codes "email", hash) ∷ [];
  kms_provider = none;
}

abbrev user : Fields
user =
    field (codes "name") (string (codes "Alice")) (field (codes "ssn") (string (codes "000")) end)

redacted :
    transform_value printed engine (object user)
    ≡ object (
        field
          (codes "name")
          (string (codes "Alice"))
          (field (codes "ssn") (string (codes "[REDACTED]")) end))
unfolding program
redacted = refl

get-transform_value_example :
    (Option.map keys (as_object (transform_value printed engine (object user)))
      ≡ some (keys (entries user)))
    × (get_field (codes "ssn") (transform_value printed engine (object user))
        ≡ Option.map
            (masked printed none (get (codes "ssn") engine.field_rules))
            (get_field (codes "ssn") (object user)))
unfolding program
get-transform_value_example =
    get-transform_value printed engine user (codes "ssn") (refl, (refl, tt))

abbrev provider : KmsProvider
provider = new (codes "k1")

rotate_key-IsValid_example :
    IsValid (rotate_key (codes "k2") provider).1
    × (get_active_key (rotate_key (codes "k2") provider).1
        ≡ (provider.current_version + 1, codes "k2"))
    × ((v : ℕ)
        → v ≤ provider.current_version
        → get_key_by_version v (rotate_key (codes "k2") provider).1 ≡ get_key_by_version v provider)
unfolding program
rotate_key-IsValid_example =
    rotate_key-IsValid (codes "k2") provider (omega arith) (new-IsValid (codes "k1"))
