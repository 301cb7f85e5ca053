-- ===== src/Schema/Modes.antt =====
-- What each mode of compatibility accepts.
use caminus.Prelude.{◌≡◌, ◌↔◌, refl, some, ok}
use caminus.Text.Defs.{Text, text_eq}
use caminus.Dict.Defs.{Dict}
use caminus.Dict.Laws.{IsMap}
use caminus.Json.Value.{Value}
use caminus.Schema.Defs.{
  SchemaCompatibility, none_mode, backward, forward, full, schema_fields, check_compatibility,
}
use caminus.Schema.Compatibility.{IsKept, IsKnown, backward_iff, forward_iff, full_iff}

-- Backward, no field may go, and forward, none may come; the common ones keep their types.
abbrev pub IsCompatible : SchemaCompatibility → Dict Text Value → Dict Text Value → Type 0
IsCompatible none_mode old new = Unit {0}
IsCompatible backward old new = IsKept old new
IsCompatible forward old new = IsKnown old new
IsCompatible full old new = IsKept old new × IsKnown old new

-- Between two schemas that have their fields, as maps: a change is accepted with no mode always,
-- backward exactly if every field of the old schema is in the new one with the same type, forward
-- exactly if every field of the new schema is in the old one with the same type, and fully exactly if
-- both hold.
pub check_compatibility_iff :
    (mode : SchemaCompatibility) (old_schema new_schema : Value) (old new : Dict Text Value)
    → schema_fields old_schema ≡ some old
    → schema_fields new_schema ≡ some new
    → IsMap old
    → IsMap new
    → (check_compatibility old_schema new_schema mode ≡ ok tt) ↔ IsCompatible mode old new
unfolding check_compatibility
check_compatibility_iff none_mode old_schema new_schema old new of_old of_new d d' =
    (λ _. tt, λ _. refl)
check_compatibility_iff backward old_schema new_schema old new of_old of_new d d' =
    backward_iff old_schema new_schema old new of_old of_new d
check_compatibility_iff forward old_schema new_schema old new of_old of_new d d' =
    forward_iff old_schema new_schema old new of_old of_new d d'
check_compatibility_iff full old_schema new_schema old new of_old of_new d d' =
    let back = backward_iff old_schema new_schema old new of_old of_new d in
    let fore = forward_iff old_schema new_schema old new of_old of_new d d' in
    let both = full_iff old_schema new_schema old new of_old of_new in
    (λ h. (back.0 (both.0 h).0, fore.0 (both.0 h).1), λ h. both.1 (back.1 h.0, fore.1 h.1))
