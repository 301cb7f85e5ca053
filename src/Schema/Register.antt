-- ===== src/Schema/Register.antt =====
-- Registration over the store.
use caminus.Prelude.Fallible.{Result, ok, err, bind-eq-ok, then-eq-ok, map_err}
use caminus.Prelude.{◌≡◌, true, false, Option, none, some, ◌⊎◌, inl, inr}
use caminus.Text.Defs.{Text, text_eq, text_beq}
use caminus.Json.Value.{Value}
use caminus.Event.{ChangeEvent}
use caminus.Storage.Database.{Database, Serde, is_plain}
use caminus.Storage.Store.{get_schema, save_schema, get_offset}
use caminus.Storage.Laws.{get-save_schema}
use caminus.Schema.Defs.{
  SchemaCompatibility, storage, incompatibility, validation, check_compatibility, check_existing,
  register_schema, validate_against, validate_event,
}

map_err-Fine {ℓ} :
    {E F A : Type ℓ} (f : E → F) (r : Result E A) {a : A} → map_err f r ≡ ok a → r ≡ ok a
map_err-Fine f (ok b) h = cc
map_err-Fine f (err e) h = cc

module _ (d : Database) (j : Serde) where
  -- What the registration of a plain schema that succeeds has checked and done: the schema that was
  -- registered before, if there was one, is compatible with it in the given mode; from then on the
  -- new schema is the registered one, against which events of the source are validated; and the
  -- schemas of the other sources and all offsets are what they were.
  pub register_success :
      (s s' : d.State) (source_id : Text) (schema : Value) (mode : SchemaCompatibility)
      → is_plain schema ≡ true
      → register_schema d j s source_id schema mode ≡ ok s'
      → ((get_schema d j s source_id ≡ ok none)
          ⊎ ((old : Value) × (get_schema d j s source_id ≡ ok (some old))
              × (check_compatibility old schema mode ≡ ok tt)))
        × ((event : ChangeEvent)
            → validate_event d j s' source_id event
              ≡ map_err validation (validate_against schema event))
        × ((other : Text)
            → text_beq source_id other ≡ false
            → get_schema d j s' other ≡ get_schema d j s other)
        × ((other : Text) → get_offset d j s' other ≡ get_offset d j s other)
  unfolding register_schema validate_event
  register_success s s' source_id schema mode plain h =
      let (existing, read', rest) = bind-eq-ok (map_err storage (get_schema d j s source_id)) _ h in
      let read : get_schema d j s source_id ≡ ok existing = map_err-Fine storage _ read' in
      let (checked, saved') = then-eq-ok (check_existing d j existing schema mode) _ rest in
      let saved : save_schema d j s source_id schema ≡ ok s' = map_err-Fine storage _ saved' in
      let (mine, others, offsets) = get-save_schema d j s s' source_id schema plain saved in
      (previous existing read checked, λ event. rw mine, others, offsets)
    where
      previous :
          (o : Option Value)
          → get_schema d j s source_id ≡ ok o
          → check_existing d j o schema mode ≡ ok tt
          → (get_schema d j s source_id ≡ ok none)
            ⊎ ((old : Value) × (get_schema d j s source_id ≡ ok (some old))
                × (check_compatibility old schema mode ≡ ok tt))
      previous none read checked = inl read
      previous (some old) read checked = inr (old, read, map_err-Fine incompatibility _ checked)
