-- ===== src/Pipeline/Checkpoint.antt =====
-- The checkpoint that a task leaves in the store.
use caminus.Prelude.{
  ◌≡◌, refl, sym, ap, ◌∙◌, Bool, true, Option, some, List, [], ◌∷◌, ◌++◌, Result, ok, err,
}
use caminus.Text.Defs.{Text}
use caminus.Text.Utf8.{is_utf8}
use caminus.Json.Value.{Value}
use caminus.Event.{ChangeEvent}
use caminus.Storage.Database.{Database, Serde}
use caminus.Storage.Store.{save_offset, get_offset, get_schema}
use caminus.Storage.Laws.{get-save_offset, get_schema-save_offset}
use caminus.Pipeline.Defs.{
  Pipeline, state_after, deliver_as, handle_postgres, handle_cassandra, run,
}
use caminus.Pipeline.Keeps.{run-Holds, run_cassandra-Holds}

-- The offset of the last event, or the given one if there is none.
abbrev pub last_offset : Option Text → List ChangeEvent → Option Text
last_offset before [] = before
last_offset before (event ∷ events) = last_offset (some event.offset) events

last_offset-append :
    (before : Option Text) (events : List ChangeEvent) (event : ChangeEvent)
    → last_offset before (events ++ event ∷ []) ≡ some event.offset
last_offset-append before [] event = refl
last_offset-append before (e ∷ events) event = last_offset-append (some e.offset) events event

module _ (d : Database) (j : Serde) (key_text : Value → Text) {T : Type 0}
    (transform : ChangeEvent → Result T ChangeEvent) (source_id : Text) where
  abbrev S : Type 0
  S = Pipeline d j key_text transform source_id

  -- The schema of the source is the given one, and the checkpoint of the source is the offset of the
  -- event that was sent last, or the given one before there is any.
  pub record IsCheckpointed (before : Option Text) (schema : Option Value) (store : d.State)
      (sent : List ChangeEvent) : Type 0 where
    pub checkpoint : get_offset d j store source_id ≡ ok (last_offset before sent)
    pub schema_kept : get_schema d j store source_id ≡ ok schema

  module _ (before : Option Text) (schema : Option Value)
      (saves : (s : d.State) (offset : Text)
        → (s' : d.State) × (save_offset d j s source_id offset ≡ ok s'))
      (valid : (e t : ChangeEvent) → transform e ≡ ok t → is_utf8 t.offset ≡ true) where
    abbrev Checked : S → Type 0
    Checked p = IsCheckpointed before schema p.store p.sent

    deliver_as-Checked :
        (p : S) (m : ChangeEvent) (r : Result T ChangeEvent)
        → transform m ≡ r
        → Checked p
        → Checked (deliver_as d j key_text transform source_id p m r)
    deliver_as-Checked p m (ok t) e c =
        let (s', saved) = saves p.store t.offset in
        let now : state_after d j key_text transform source_id p.store
              (save_offset d j p.store source_id t.offset)
            ≡ s' =
          ap (state_after d j key_text transform source_id p.store) saved in
        record {
          checkpoint =
              ap (λ s. get_offset d j s source_id) now
              ∙ (get-save_offset d j p.store s' source_id t.offset (valid m t e) saved).0
              ∙ ap ok (sym (last_offset-append before p.sent t));
          schema_kept =
              ap (λ s. get_schema d j s source_id) now
              ∙ get_schema-save_offset d j p.store s' source_id t.offset source_id saved
              ∙ c.schema_kept;
        }
    deliver_as-Checked p m (err f) e c = c

    -- If every write of an offset succeeds and transformed events have offsets that are texts, then
    -- after a run over any items the checkpoint of the source is the offset of the event that was sent
    -- last, and the schema is what it was.
    pub run-IsCheckpointed :
        {E : Type 0} (p : S) (items : List (Bool × Result E ChangeEvent))
        → IsCheckpointed before schema p.store p.sent
        → (let q =
              run d j key_text transform source_id
                (handle_postgres d j key_text transform source_id)
                p
                items in
            IsCheckpointed before schema q.store q.sent)
    run-IsCheckpointed p items c =
        run-Holds d j key_text transform source_id (IsCheckpointed before schema)
          (λ q m h. deliver_as-Checked q m (transform m) refl h) p items c

    -- The same of the Cassandra task.
    pub run_cassandra-IsCheckpointed :
        {E : Type 0} (p : S) (items : List (Bool × Result E ChangeEvent))
        → IsCheckpointed before schema p.store p.sent
        → (let q =
              run d j key_text transform source_id
                (handle_cassandra d j key_text transform source_id)
                p
                items in
            IsCheckpointed before schema q.store q.sent)
    run_cassandra-IsCheckpointed p items c =
        run_cassandra-Holds d j key_text transform source_id (IsCheckpointed before schema)
          (λ q m h. deliver_as-Checked q m (transform m) refl h) p items c
