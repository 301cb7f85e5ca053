-- ===== src/System/Stores.antt =====
-- What a task does depends on the store by its own schema alone, and changes nothing in it but its own
-- checkpoint.
use caminus.Prelude.{
  ◌≡◌, refl, sym, ap, ◌∙◌, true, false, Bool, Option, none, some, List, [], ◌∷◌, Result, ok, err,
  map_err, ◌>>=◌,
}
use caminus.Text.Defs.{Text}
use caminus.Text.Utf8.{is_utf8}
use caminus.Json.Value.{Value}
use caminus.Event.{ChangeEvent}
use caminus.Storage.Database.{Database, Serde}
use caminus.Storage.Store.{save_offset, get_offset, get_schema}
use caminus.Storage.Laws.{get-save_offset}
use caminus.Schema.Defs.{Fault, storage, validate_event, validate_registered}
use caminus.Dedup.Defs.{check_and_track}
use caminus.Buffer.Defs.{process}
use caminus.Watermark.Defs.{process_replication_event}
use caminus.Pipeline.Defs.{
  Pipeline, state_after, deliver_as, deliver, buffered, pass, watermarked, judge, validated,
  unless_duplicate, handle_postgres, handle_cassandra,
}

module _ (d : Database) (j : Serde) where
  -- The two stores have the same checkpoint and the same schema for the source.
  pub record SameFor (source_id : Text) (s s' : d.State) : Type 0 where
    pub offset : get_offset d j s' source_id ≡ get_offset d j s source_id
    pub schema : get_schema d j s' source_id ≡ get_schema d j s source_id

  pub SameFor-refl : (source_id : Text) (s : d.State) → SameFor source_id s s
  SameFor-refl source_id s = record { offset = refl; schema = refl }

  pub SameFor-trans :
      (source_id : Text) (s s' s'' : d.State)
      → SameFor source_id s s'
      → SameFor source_id s' s''
      → SameFor source_id s s''
  SameFor-trans source_id s s' s'' a b = record {
    offset = b.offset ∙ a.offset;
    schema = b.schema ∙ a.schema;
  }

module _ (d : Database) (j : Serde) (key_text : Value → Text) {T : Type 0}
    (transform : ChangeEvent → Result T ChangeEvent) (source_id : Text) where
  abbrev Task : Type 0
  Task = Pipeline d j key_text transform source_id

  abbrev pub with_store : d.State → Task → Task
  with_store s p = record p { store = s }

  -- On another store that is the same for the source, the same is done but for the rest of the store.
  abbrev pub Follows : Task → Task → Type 0
  Follows q p = (s : d.State) × (q ≡ with_store s p) × SameFor d j source_id p.store s

module _ (d : Database) (j : Serde) (key_text : Value → Text) {T : Type 0}
    (transform : ChangeEvent → Result T ChangeEvent)
    (valid : (e t : ChangeEvent) → transform e ≡ ok t → is_utf8 t.offset ≡ true) (source_id : Text)
    (saves : (s : d.State) (offset : Text)
      → (s' : d.State) × (save_offset d j s source_id offset ≡ ok s')) where
  abbrev P : Type 0
  P = Pipeline d j key_text transform source_id

  after_save :
      (s s' : d.State) (offset : Text)
      → is_utf8 offset ≡ true
      → SameFor d j source_id s s'
      → SameFor d j source_id
          (state_after d j key_text transform source_id s (save_offset d j s source_id offset))
          (state_after d j key_text transform source_id s' (save_offset d j s' source_id offset))
  after_save s s' offset text same =
      let (t, saved) = saves s offset in
      let (t', saved') = saves s' offset in
      let (now, _, kept) = get-save_offset d j s t source_id offset text saved in
      let (now', _, kept') = get-save_offset d j s' t' source_id offset text saved' in
      let is : SameFor d j source_id t t' = record {
        offset = now' ∙ sym now;
        schema = kept' source_id ∙ same.schema ∙ sym (kept source_id);
      } in
      rw (saved, saved') is

  deliver_as-Follows :
      (p : P) (s : d.State) (m : ChangeEvent) (r : Result T ChangeEvent)
      → transform m ≡ r
      → SameFor d j source_id p.store s
      → Follows d j key_text transform source_id
          (deliver_as d j key_text transform source_id
            (with_store d j key_text transform source_id s p)
            m
            r)
          (deliver_as d j key_text transform source_id p m r)
  deliver_as-Follows p s m (ok t) e same =
      (_, refl, after_save p.store s t.offset (valid m t e) same)
  deliver_as-Follows p s m (err f) e same = (s, refl, same)

  deliver-Follows :
      (ms : List ChangeEvent) (p : P) (s : d.State)
      → SameFor d j source_id p.store s
      → Follows d j key_text transform source_id
          (deliver d j key_text transform source_id
            (with_store d j key_text transform source_id s p)
            ms)
          (deliver d j key_text transform source_id p ms)
  unfolding deliver
  deliver-Follows [] p s same = (s, refl, same)
  deliver-Follows (m ∷ ms) p s same =
      let (s1, e1, same1) = deliver_as-Follows p s m (transform m) refl same in
      let (s2, e2, same2) =
        deliver-Follows ms (deliver_as d j key_text transform source_id p m (transform m)) s1
          same1 in
      (s2, ap (λ q. deliver d j key_text transform source_id q ms) e1 ∙ e2, same2)

  buffered-Follows :
      (p : P) (s : d.State) (event : ChangeEvent)
      → SameFor d j source_id p.store s
      → Follows d j key_text transform source_id
          (buffered d j key_text transform source_id
            (with_store d j key_text transform source_id s p)
            event)
          (buffered d j key_text transform source_id p event)
  unfolding buffered
  buffered-Follows p s event same =
      let b = process p.tx_buffer event in deliver-Follows b.1 (record p { tx_buffer = b.0 }) s same

  pass-Follows :
      (p : P) (s : d.State) (out : Option ChangeEvent)
      → SameFor d j source_id p.store s
      → Follows d j key_text transform source_id
          (pass d j key_text transform source_id
            (with_store d j key_text transform source_id s p)
            out)
          (pass d j key_text transform source_id p out)
  pass-Follows p s none same = (s, refl, same)
  pass-Follows p s (some event) same = buffered-Follows p s event same

  judge-Follows :
      (p : P) (s : d.State) (event : ChangeEvent) (r : Result (Fault d j) (Unit {0}))
      → SameFor d j source_id p.store s
      → Follows d j key_text transform source_id
          (judge d j key_text transform source_id
            (with_store d j key_text transform source_id s p)
            event
            r)
          (judge d j key_text transform source_id p event r)
  unfolding watermarked
  judge-Follows p s event (ok u) same =
      let w = process_replication_event key_text p.watermark_engine event in
      pass-Follows (record p { watermark_engine = w.0 }) s w.1 same
  judge-Follows p s event (err e) same = (s, refl, same)

  validated-Follows :
      (p : P) (s : d.State) (event : ChangeEvent)
      → SameFor d j source_id p.store s
      → Follows d j key_text transform source_id
          (validated d j key_text transform source_id
            (with_store d j key_text transform source_id s p)
            event)
          (validated d j key_text transform source_id p event)
  unfolding validated validate_event
  validated-Follows p s event same =
      let q : P = with_store d j key_text transform source_id s p in
      let (s', e, same') =
        judge-Follows p s event (validate_event d j p.store source_id event) same in
      (
        s',
        ap
              (λ r.
                judge d j key_text transform source_id q event
                  (map_err storage r >>= λ registered. validate_registered d j registered event))
              same.schema
            ∙ e,
        same',
      )

  unless_duplicate-Follows :
      (next : P → ChangeEvent → P)
      → ((p : P) (s : d.State) (event : ChangeEvent)
          → SameFor d j source_id p.store s
          → Follows d j key_text transform source_id
              (next (with_store d j key_text transform source_id s p) event)
              (next p event))
      → (p : P) (s : d.State) (event : ChangeEvent) (duplicate : Bool)
      → SameFor d j source_id p.store s
      → Follows d j key_text transform source_id
          (unless_duplicate d j key_text transform source_id next
            (with_store d j key_text transform source_id s p)
            event
            duplicate)
          (unless_duplicate d j key_text transform source_id next p event duplicate)
  unless_duplicate-Follows next follows p s event true same = (s, refl, same)
  unless_duplicate-Follows next follows p s event false same = follows p s event same

  pub handle_postgres-Follows :
      (p : P) (s : d.State) (event : ChangeEvent)
      → SameFor d j source_id p.store s
      → Follows d j key_text transform source_id
          (handle_postgres d j key_text transform source_id
            (with_store d j key_text transform source_id s p)
            event)
          (handle_postgres d j key_text transform source_id p event)
  unfolding handle_postgres
  handle_postgres-Follows p s event same =
      let checked = check_and_track p.dedup_filter event.id in
      unless_duplicate-Follows (validated d j key_text transform source_id) validated-Follows
        (record p { dedup_filter = checked.0 }) s event checked.1 same

  pub handle_cassandra-Follows :
      (p : P) (s : d.State) (event : ChangeEvent)
      → SameFor d j source_id p.store s
      → Follows d j key_text transform source_id
          (handle_cassandra d j key_text transform source_id
            (with_store d j key_text transform source_id s p)
            event)
          (handle_cassandra d j key_text transform source_id p event)
  unfolding handle_cassandra
  handle_cassandra-Follows p s event same =
      let checked = check_and_track p.dedup_filter event.id in
      unless_duplicate-Follows (buffered d j key_text transform source_id) buffered-Follows
        (record p { dedup_filter = checked.0 }) s event checked.1 same
