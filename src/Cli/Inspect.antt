-- ===== src/Cli/Inspect.antt =====
-- What the commands answer after an offset is saved.
use caminus.Prelude.{◌≡◌, refl, Bool, true, false, some, List, ◌∷◌, ok}
use caminus.Text.Defs.{Text, codes, text_beq}
use caminus.Text.Utf8.{is_utf8}
use caminus.Json.Value.{Value}
use caminus.Storage.Database.{Database, Serde}
use caminus.Storage.Store.{Error, get_offset, get_schema, save_offset}
use caminus.Storage.Laws.{get-save_offset}
use caminus.Cli.Defs.{
  CliCommand, status, inspect_offset, schema_list, unknown, parse_args, offset_text, execute,
}

-- Whether a command asks for the offset of a source.
abbrev pub asks_offset : Text → CliCommand → Bool
asks_offset source_id (inspect_offset other) = text_beq source_id other
asks_offset source_id _ = false

module _ (d : Database) (j : Serde) (display : Value → Text) (debug : Error d j → Text) where
  execute-other_offset :
      (s s' : d.State) (source_id : Text)
      → ((other : Text)
          → text_beq source_id other ≡ false
          → get_offset d j s' other ≡ get_offset d j s other)
      → ((other : Text) → get_schema d j s' other ≡ get_schema d j s other)
      → (command : CliCommand) → asks_offset source_id command ≡ false
      → execute d j display debug command s' ≡ execute d j display debug command s
  unfolding execute
  execute-other_offset s s' source_id offsets schemas status asks = refl
  execute-other_offset s s' source_id offsets schemas (inspect_offset other) asks =
      rw (offsets other asks) refl
  execute-other_offset s s' source_id offsets schemas (schema_list other) asks =
      rw (schemas other) refl
  execute-other_offset s s' source_id offsets schemas (unknown cmd) asks = refl

  -- After an offset is saved for a source, the subcommand `inspect-offset` shows it for that source,
  -- whatever arguments follow, and every command that asks for another thing answers as before.
  pub execute-save_offset :
      (s s' : d.State) (program source_id offset : Text) (rest : List Text)
      → is_utf8 offset ≡ true
      → save_offset d j s source_id offset ≡ ok s'
      → (execute d j display debug
            (parse_args (program ∷ codes "inspect-offset" ∷ source_id ∷ rest))
            s'
          ≡ ok (offset_text d j display debug source_id (some offset)))
        × ((command : CliCommand)
            → asks_offset source_id command ≡ false
            → execute d j display debug command s' ≡ execute d j display debug command s)
  unfolding parse_args execute text_beq
  execute-save_offset s s' program source_id offset rest valid saved =
      let (mine, others, schemas) = get-save_offset d j s s' source_id offset valid saved in
      (rw mine refl, execute-other_offset s s' source_id others schemas)
