-- ===== src/Cli/Defs.antt =====
-- `CliHandler`. How `serde_json` prints a schema and how an error is shown are parameters.
use caminus.Prelude.{Option, none, some, List, [], ◌∷◌, ◌++◌, Result, ok, err, if◌then◌else◌}
use caminus.Text.Defs.{Text, codes, text_beq}
use caminus.Json.Value.{Value}
use caminus.Storage.Database.{Database, Serde}
use caminus.Storage.Store.{Error, get_offset, get_schema}

pub data CliCommand : Type 0 where
  status : CliCommand
  inspect_offset : Text → CliCommand
  schema_list : Text → CliCommand
  unknown : Text → CliCommand

-- `vec.get(2).cloned().unwrap_or_else(…)`, of what follows the subcommand.
abbrev source_of : List Text → Text
source_of [] = codes "postgres_users"
source_of (source_id ∷ rest) = source_id

abbrev by_name : Text → List Text → CliCommand
by_name subcommand rest =
    if text_beq subcommand (codes "status")
    then status
    else if text_beq subcommand (codes "inspect-offset")
    then inspect_offset (source_of rest)
    else if text_beq subcommand (codes "schema-list")
    then schema_list (source_of rest)
    else unknown subcommand

-- The name of the program comes first.
unfoldable pub parse_args : List Text → CliCommand
parse_args [] = status
parse_args (program ∷ []) = status
parse_args (program ∷ subcommand ∷ rest) = by_name subcommand rest

module _ (d : Database) (j : Serde) (display : Value → Text) (debug : Error d j → Text) where
  abbrev pub offset_text : Text → Option Text → Text
  offset_text source_id (some offset) =
      codes "Source '" ++ (source_id ++ (codes "' offset checkpoint: " ++ offset))
  offset_text source_id none = codes "Source '" ++ (source_id ++ codes "' offset checkpoint: NONE")

  abbrev pub schema_text : Text → Option Value → Text
  schema_text source_id (some schema) =
      codes "Registered schema for '" ++ (source_id ++ (codes "': " ++ display schema))
  schema_text source_id none = codes "No registered schema found for '" ++ (source_id ++ codes "'")

  abbrev shown : {A : Type 0} → (A → Text) → Result (Error d j) A → Result Text Text
  shown text (ok a) = ok (text a)
  shown text (err e) = err (codes "Storage error: " ++ debug e)

  unfoldable pub execute : CliCommand → d.State → Result Text Text
  execute status s =
      ok (codes "Caminus CDC Engine Status: HEALTHY | Active Consensus: Node 1 (LEADER)")
  execute (inspect_offset source_id) s = shown (offset_text source_id) (get_offset d j s source_id)
  execute (schema_list source_id) s = shown (schema_text source_id) (get_schema d j s source_id)
  execute (unknown cmd) s = err (codes "Unknown CLI subcommand: " ++ cmd)
