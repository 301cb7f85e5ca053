-- ===== src/Cli/Tests.antt =====
-- A saved offset, inspected.
use caminus.Prelude.{◌≡◌, refl, some, [], ◌∷◌, ok}
use caminus.Text.Defs.{Text, codes, text_eq}
use caminus.Text.Utf8.{is_utf8, from_utf8}
use caminus.Dict.Defs.{insert}
use caminus.Json.Value.{Value}
use caminus.Storage.Store.{Error, save_offset}
use caminus.Storage.Instances.{Memory, memory, plain_json}
use caminus.Cli.Defs.{parse_args, offset_text, execute}
use caminus.Cli.Inspect.{execute-save_offset}

abbrev no_text : Value → Text
no_text v = []

abbrev no_error : Error memory plain_json → Text
no_error e = []

abbrev saved : Memory
saved = (codes "offset:users", codes "777") ∷ []

inspected :
    execute memory plain_json no_text no_error
      (parse_args (codes "caminus" ∷ codes "inspect-offset" ∷ codes "users" ∷ []))
      saved
    ≡ ok (offset_text memory plain_json no_text no_error (codes "users") (some (codes "777")))
unfolding save_offset is_utf8 from_utf8 insert
inspected =
    (execute-save_offset memory plain_json no_text no_error [] saved (codes "caminus")
      (codes "users") (codes "777") [] refl refl).0
