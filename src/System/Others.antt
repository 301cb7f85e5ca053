-- ===== src/System/Others.antt =====
-- A task changes nothing in the store for the other one.
use caminus.Prelude.{◌≡◌, refl, true, false, Result, ok, err}
use caminus.Text.Defs.{Text, text_beq}
use caminus.Text.Utf8.{is_utf8}
use caminus.Json.Value.{Value}
use caminus.Event.{ChangeEvent}
use caminus.Storage.Database.{Database, Serde}
use caminus.Storage.Store.{save_offset}
use caminus.Storage.Laws.{get-save_offset}
use caminus.Pipeline.Defs.{Pipeline, state_after, deliver_as, handle_postgres, handle_cassandra}
use caminus.Pipeline.Keeps.{handle_postgres-Holds, handle_cassandra-Holds}
use caminus.System.Stores.{SameFor, SameFor-trans}

module _ (d : Database) (j : Serde) (key_text : Value → Text) {T : Type 0}
    (transform : ChangeEvent → Result T ChangeEvent)
    (valid : (e t : ChangeEvent) → transform e ≡ ok t → is_utf8 t.offset ≡ true)
    (source_id other : Text) (apart : text_beq source_id other ≡ false)
    (saves : (s : d.State) (offset : Text)
      → (s' : d.State) × (save_offset d j s source_id offset ≡ ok s'))
    (start : d.State) where
  abbrev P : Type 0
  P = Pipeline d j key_text transform source_id

  abbrev IsSame : P → Type 0
  IsSame p = SameFor d j other start p.store

  saved-Same :
      (s : d.State) (offset : Text)
      → is_utf8 offset ≡ true
      → SameFor d j other s
          (state_after d j key_text transform source_id s (save_offset d j s source_id offset))
  saved-Same s offset text =
      let (s', saved) = saves s offset in
      let (_, offsets, schemas) = get-save_offset d j s s' source_id offset text saved in
      let is : SameFor d j other s s' = record {
        offset = offsets other apart;
        schema = schemas other;
      } in
      rw saved is

  deliver_as-Same :
      (p : P) (m : ChangeEvent) (r : Result T ChangeEvent)
      → transform m ≡ r
      → IsSame p
      → IsSame (deliver_as d j key_text transform source_id p m r)
  deliver_as-Same p m (ok t) e same =
      SameFor-trans d j other start p.store _ same (saved-Same p.store t.offset (valid m t e))
  deliver_as-Same p m (err f) e same = same

  pub handle_postgres-SameFor :
      (p : P) (event : ChangeEvent)
      → SameFor d j other start p.store
      → SameFor d j other start (handle_postgres d j key_text transform source_id p event).store
  handle_postgres-SameFor =
      handle_postgres-Holds d j key_text transform source_id
        (λ store sent. SameFor d j other start store)
        (λ p m same. deliver_as-Same p m (transform m) refl same)

  pub handle_cassandra-SameFor :
      (p : P) (event : ChangeEvent)
      → SameFor d j other start p.store
      → SameFor d j other start (handle_cassandra d j key_text transform source_id p event).store
  handle_cassandra-SameFor =
      handle_cassandra-Holds d j key_text transform source_id
        (λ store sent. SameFor d j other start store)
        (λ p m same. deliver_as-Same p m (transform m) refl same)
