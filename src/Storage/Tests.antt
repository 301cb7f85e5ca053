-- ===== src/Storage/Tests.antt =====
-- The store in memory, and the theorems about it at concrete writes.
use caminus.Prelude.Fallible.{ok}
use caminus.Prelude.{◌≡◌, refl, none, [], ◌∷◌}
use caminus.Text.Defs.{codes, text_beq}
use caminus.Text.Utf8.{is_utf8, from_utf8}
use caminus.Dict.Defs.{get, insert}
use caminus.Json.Value.{Value, string, object, end, field}
use caminus.Storage.Database.{is_plain}
use caminus.Storage.Store.{save_offset, get_offset, save_schema, get_schema}
use caminus.Storage.Instances.{memory, plain_json, print, parse}

program : Unit {0}
unfolding save_offset get_offset save_schema get_schema get insert print parse is_utf8 from_utf8
    text_beq is_plain
program = tt

abbrev saved : memory.State
saved = (codes "offset:pg_users", codes "offset-99") ∷ []

missing : get_offset memory plain_json saved (codes "unknown") ≡ ok none
unfolding program
missing = refl

abbrev schema : Value
schema =
    object (field (codes "fields") (object (field (codes "id") (string (codes "integer")) end)) end)

abbrev with_schema : memory.State
with_schema = (codes "schema:pg", 6 ∷ 2 ∷ codes "fieldsidinteger") ∷ []
