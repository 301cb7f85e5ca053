-- ===== src/Storage/Store.antt =====
-- `StateStore`: offsets and schemas in one key space, told apart by a prefix.
use caminus.Prelude.{ℕ, Option, none, some, List, ◌++◌, Result, ok, ◌>>=◌, map_err, ok_or}
use caminus.Text.Defs.{Text, codes}
use caminus.Text.Utf8.{from_utf8}
use caminus.Json.Value.{Value}
use caminus.Storage.Database.{Database, Serde}

pub data StorageError (D S : Type 0) : Type 0 where
  db : D → StorageError D S
  serialization : S → StorageError D S
  utf8 : StorageError D S

abbrev pub offset_key : Text → Text
offset_key source_id = codes "offset:" ++ source_id

abbrev pub schema_key : Text → Text
schema_key source_id = codes "schema:" ++ source_id

module _ (d : Database) (j : Serde) where
  abbrev pub Error : Type 0
  Error = StorageError d.Failure j.Failure

  unfoldable pub save_offset : d.State → Text → Text → Result Error d.State
  save_offset s source_id offset = map_err db (d.put s (offset_key source_id) offset)

  abbrev pub read_text : Option (List ℕ) → Result Error (Option Text)
  read_text none = ok none
  read_text (some val) = do text ← ok_or utf8 (from_utf8 val); ok (some text)

  unfoldable pub get_offset : d.State → Text → Result Error (Option Text)
  get_offset s source_id = do found ← map_err db (d.get s (offset_key source_id)); read_text found

  unfoldable pub save_schema : d.State → Text → Value → Result Error d.State
  save_schema s source_id schema = do
    serialized ← map_err serialization (j.to_vec schema)
    map_err db (d.put s (schema_key source_id) serialized)

  abbrev pub read_schema : Option (List ℕ) → Result Error (Option Value)
  read_schema none = ok none
  read_schema (some val) = do schema ← map_err serialization (j.from_slice val); ok (some schema)

  unfoldable pub get_schema : d.State → Text → Result Error (Option Value)
  get_schema s source_id = do found ← map_err db (d.get s (schema_key source_id)); read_schema found
