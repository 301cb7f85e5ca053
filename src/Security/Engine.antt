-- ===== src/Security/Engine.antt =====
-- `PayloadSecurityEngine` (src/security/mod.rs). How `serde_json` prints a value is a parameter. The
-- rules are walked in some order, as a `HashMap` is.
use caminus.Prelude.{ℕ, ◌+◌, ◌*◌, ◌%◌, ◌^◌, Option, none, some, List, [], ◌∷◌, ◌++◌}
use mathlib.Core.Option
use caminus.Text.Defs.{Text, codes, text_eq}
use caminus.Text.Decimal.{to_string}
use caminus.Text.Hex.{hex_bytes, hex16}
use caminus.Dict.Defs.{Dict, insert, update}
use caminus.Json.Value.{Value, string, object, entries, from_entries}
use caminus.Event.{ChangeEvent}
use caminus.Security.Kms.{KmsProvider, get_active_key}

pub data MaskingRule : Type 0 where
  redact hash encrypt : MaskingRule

pub record PayloadSecurityEngine : Type 0 where
  pub field_rules : Dict Text MaskingRule
  pub kms_provider : Option KmsProvider

abbrev pub new : PayloadSecurityEngine
new = record { field_rules = []; kms_provider = none }

abbrev pub with_kms : KmsProvider → PayloadSecurityEngine → PayloadSecurityEngine
with_kms kms s = record s { kms_provider = some kms }

unfoldable pub add_rule : Text → MaskingRule → PayloadSecurityEngine → PayloadSecurityEngine
add_rule field_name rule s = record s { field_rules = insert field_name rule s.field_rules }

-- `(hash << 5) + hash + b`, where the shift drops the high bits and the additions wrap
unfoldable pub hash_bytes : ℕ → Text → ℕ
hash_bytes h [] = h
hash_bytes h (b ∷ bs) = hash_bytes (((h * 32 % 2 ^ 64 + h) % 2 ^ 64 + b) % 2 ^ 64) bs

unfoldable pub hash_value : Value → Value
hash_value (string s) = string (hex16 (hash_bytes 5381 s))
hash_value v = v

unfoldable pub encrypted : ℕ → List ℕ → Text → Text
encrypted version key raw_str =
    codes "ENC:v" ++ (to_string version ++ (b':' ∷ (hex_bytes key ++ (b':' ∷ hex_bytes raw_str))))

unfoldable pub without_kms : Value → Value
without_kms (string s) = string (codes "[ENCRYPTED_WITHOUT_KMS]")
without_kms v = v

module _ (print : Value → Text) where
  unfoldable pub encrypt_value : Option KmsProvider → Value → Value
  encrypt_value (some kms) val =
      let active = get_active_key kms in string (encrypted active.0 active.1 (print val))
  encrypt_value none val = without_kms val

  unfoldable pub apply_rule : Option KmsProvider → MaskingRule → Value → Value
  apply_rule kms redact val = string (codes "[REDACTED]")
  apply_rule kms hash val = hash_value val
  apply_rule kms encrypt val = encrypt_value kms val

  unfoldable pub apply_rules :
      Option KmsProvider → Dict Text MaskingRule → Dict Text Value → Dict Text Value
  apply_rules kms [] map = map
  apply_rules kms ((key, rule) ∷ rules) map =
      apply_rules kms rules (update key (apply_rule kms rule) map)

  unfoldable pub transform_value : PayloadSecurityEngine → Value → Value
  transform_value s (object fs) =
      object (from_entries (apply_rules s.kms_provider s.field_rules (entries fs)))
  transform_value s value = value

  unfoldable pub apply_security : PayloadSecurityEngine → ChangeEvent → ChangeEvent
  apply_security s event = record event {
    after = Option.map (transform_value s) event.after;
    before = Option.map (transform_value s) event.before;
  }
