-- ===== src/System/Apart.antt =====
-- The tasks beside each other, and each alone: an event of either keeps them alike.
use caminus.Prelude.{◌≡◌, sym, ap, ◌∙◌, subst, true, false, Result, ok}
use caminus.Text.Defs.{Text, text_beq}
use caminus.Text.Utf8.{is_utf8}
use caminus.Json.Value.{Value}
use caminus.Event.{ChangeEvent}
use caminus.Storage.Database.{Database, Serde}
use caminus.Storage.Store.{save_offset}
use caminus.Pipeline.Defs.{Pipeline, handle_postgres, handle_cassandra}
use caminus.System.Defs.{System, moved_postgres, moved_cassandra}
use caminus.System.Stores.{
  SameFor, SameFor-refl, SameFor-trans, with_store, handle_postgres-Follows,
  handle_cassandra-Follows,
}
use caminus.System.Others.{handle_postgres-SameFor, handle_cassandra-SameFor}

module _ (d : Database) (j : Serde) (key_text : Value → Text) {T : Type 0}
    (transform : ChangeEvent → Result T ChangeEvent) where
  module _ (valid : (e t : ChangeEvent) → transform e ≡ ok t → is_utf8 t.offset ≡ true) (a b : Text)
      (apart : text_beq a b ≡ false) (apart' : text_beq b a ≡ false)
      (saves_a : (s : d.State) (offset : Text)
        → (s' : d.State) × (save_offset d j s a offset ≡ ok s'))
      (saves_b : (s : d.State) (offset : Text)
        → (s' : d.State) × (save_offset d j s b offset ≡ ok s')) where
    abbrev pub S : Type 0
    S = System d j key_text transform a b

    abbrev pub A : Type 0
    A = Pipeline d j key_text transform a

    abbrev pub B : Type 0
    B = Pipeline d j key_text transform b

    -- The tasks are those given, but for the rest of the store.
    pub record Apart (s : S) (p : A) (c : B) : Type 0 where
      pub postgres_is : (x : d.State) × (s.postgres ≡ with_store d j key_text transform a x p)
      pub cassandra_is : (x : d.State) × (s.cassandra ≡ with_store d j key_text transform b x c)
      pub postgres_store : SameFor d j a p.store s.store
      pub cassandra_store : SameFor d j b c.store s.store

    pub moved_postgres-Apart :
        (s : S) (p : A) (c : B) (event : ChangeEvent)
        → Apart s p c
        → Apart
            (moved_postgres d j key_text transform a b s (
              handle_postgres d j key_text transform a
                (record s.postgres { store = s.store })
                event))
            (handle_postgres d j key_text transform a p event)
            c
    moved_postgres-Apart s p c event h =
        let (x, e) = h.postgres_is in
        let (s', e', same) =
          handle_postgres-Follows d j key_text transform valid a saves_a p s.store event
            h.postgres_store in
        let now =
          ap
            (λ (q : A).
              handle_postgres d j key_text transform a (record q { store = s.store }) event)
            e
          ∙ e' in
        record {
          postgres_is = (s', now);
          cassandra_is = h.cassandra_is;
          postgres_store =
              subst (SameFor d j a (handle_postgres d j key_text transform a p event).store)
                (sym (ap (λ (q : A). q.store) now)) same;
          cassandra_store = SameFor-trans d j b c.store s.store _ h.cassandra_store (
              handle_postgres-SameFor d j key_text transform valid a b apart saves_a s.store
                (record s.postgres { store = s.store }) event (SameFor-refl d j b s.store));
        }

    pub moved_cassandra-Apart :
        (s : S) (p : A) (c : B) (event : ChangeEvent)
        → Apart s p c
        → Apart
            (moved_cassandra d j key_text transform a b s (
              handle_cassandra d j key_text transform b
                (record s.cassandra { store = s.store })
                event))
            p
            (handle_cassandra d j key_text transform b c event)
    moved_cassandra-Apart s p c event h =
        let (x, e) = h.cassandra_is in
        let (s', e', same) =
          handle_cassandra-Follows d j key_text transform valid b saves_b c s.store event
            h.cassandra_store in
        let now =
          ap
            (λ (q : B).
              handle_cassandra d j key_text transform b (record q { store = s.store }) event)
            e
          ∙ e' in
        record {
          postgres_is = h.postgres_is;
          cassandra_is = (s', now);
          postgres_store = SameFor-trans d j a p.store s.store _ h.postgres_store (
              handle_cassandra-SameFor d j key_text transform valid b a apart' saves_b s.store
                (record s.cassandra { store = s.store }) event (SameFor-refl d j a s.store));
          cassandra_store =
              subst (SameFor d j b (handle_cassandra d j key_text transform b c event).store)
                (sym (ap (λ (q : B). q.store) now)) same;
        }
