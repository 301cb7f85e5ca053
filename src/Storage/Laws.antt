-- ===== src/Storage/Laws.antt =====
-- What is read back after each write.
use caminus.Prelude.{◌≡◌, refl, true, false, some, ok, bind-eq-ok, map_err, map_err-ok, beq_refl}
use caminus.Text.Defs.{Text, text_eq, text_beq}
use caminus.Text.Utf8.{from_utf8-valid, is_utf8}
use caminus.Json.Value.{Value}
use caminus.Storage.Database.{Database, Serde, is_plain}
use caminus.Storage.Store.{
  db, serialization, offset_key, schema_key, save_offset, get_offset, save_schema, get_schema,
}

-- The keys of two sources differ where the sources do, and never meet across the prefixes.
offset_key-eq : (a b : Text) → text_beq (offset_key a) (offset_key b) ≡ text_beq a b
unfolding text_beq
offset_key-eq a b = refl

schema_key-eq : (a b : Text) → text_beq (schema_key a) (schema_key b) ≡ text_beq a b
unfolding text_beq
schema_key-eq a b = refl

offset_key-schema_key : (a b : Text) → text_beq (offset_key a) (schema_key b) ≡ false
unfolding text_beq
offset_key-schema_key a b = refl

schema_key-offset_key : (a b : Text) → text_beq (schema_key a) (offset_key b) ≡ false
unfolding text_beq
schema_key-offset_key a b = refl

module _ (d : Database) (j : Serde) where
  pub get_schema-save_offset :
      (s s' : d.State) (source_id offset other : Text)
      → save_offset d j s source_id offset ≡ ok s'
      → get_schema d j s' other ≡ get_schema d j s other
  unfolding save_offset get_schema
  get_schema-save_offset s s' source_id offset other h = rw (
    d.get-put s s' _ (schema_key other) offset (map_err-ok db _ h),
    offset_key-schema_key source_id other,
  )

  -- After an offset is saved for a source, that offset is read for it, and for every other source
  -- what was read before; the schema of every source is what it was.
  pub get-save_offset :
      (s s' : d.State) (source_id offset : Text)
      → is_utf8 offset ≡ true
      → save_offset d j s source_id offset ≡ ok s'
      → (get_offset d j s' source_id ≡ ok (some offset))
        × ((other : Text)
            → text_beq source_id other ≡ false
            → get_offset d j s' other ≡ get_offset d j s other)
        × ((other : Text) → get_schema d j s' other ≡ get_schema d j s other)
  unfolding save_offset get_offset get_schema
  get-save_offset s s' source_id offset valid h =
      let written : d.put s (offset_key source_id) offset ≡ ok s' = map_err-ok db _ h in
      (
        rw (
          d.get-put s s' _ (offset_key source_id) offset written,
          beq_refl (offset_key source_id),
          from_utf8-valid offset valid,
        ),
        λ other ne.
            rw (
              d.get-put s s' _ (offset_key other) offset written,
              offset_key-eq source_id other,
              ne,
            ),
        λ other. get_schema-save_offset s s' source_id offset other h,
      )

  -- After a plain schema is saved for a source, that schema is read for it, and for every other
  -- source what was read before; the offset of every source is what it was.
  pub get-save_schema :
      (s s' : d.State) (source_id : Text) (schema : Value)
      → is_plain schema ≡ true
      → save_schema d j s source_id schema ≡ ok s'
      → (get_schema d j s' source_id ≡ ok (some schema))
        × ((other : Text)
            → text_beq source_id other ≡ false
            → get_schema d j s' other ≡ get_schema d j s other)
        × ((other : Text) → get_offset d j s' other ≡ get_offset d j s other)
  unfolding save_schema get_offset get_schema
  get-save_schema s s' source_id schema plain h =
      let (bytes, printed', stored) = bind-eq-ok (map_err serialization (j.to_vec schema)) _ h in
      let printed : j.to_vec schema ≡ ok bytes =
        map_err-ok serialization (j.to_vec schema) printed' in
      let written : d.put s (schema_key source_id) bytes ≡ ok s' = map_err-ok db _ stored in
      (
        rw (
          d.get-put s s' _ (schema_key source_id) bytes written,
          beq_refl (schema_key source_id),
          j.from_slice-to_vec schema bytes plain printed,
        ),
        λ other ne.
            rw (
              d.get-put s s' _ (schema_key other) bytes written,
              schema_key-eq source_id other,
              ne,
            ),
        λ other. rw (
          d.get-put s s' _ (offset_key other) bytes written,
          schema_key-offset_key source_id other,
        ),
      )
