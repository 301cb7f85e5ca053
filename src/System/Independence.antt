-- ===== src/System/Independence.antt =====
-- Each task does what it does alone.
use caminus.Prelude.{◌≡◌, refl, ap, subst, Bool, true, false, List, [], ◌∷◌, Result, ok, err}
use caminus.Text.Defs.{Text, text_beq}
use caminus.Text.Utf8.{is_utf8}
use caminus.Json.Value.{Value}
use caminus.Event.{ChangeEvent}
use caminus.Storage.Database.{Database, Serde}
use caminus.Storage.Store.{save_offset}
use caminus.Pipeline.Defs.{Pipeline, handle_postgres, handle_cassandra}
use caminus.Pipeline.Defs as Task
use caminus.System.Defs.{
  Move, postgres_item, cassandra_item, postgres_items, cassandra_items, IsAlone, alone_postgres,
  alone_cassandra, System, moved_postgres, moved_cassandra, step_postgres, step_cassandra, run,
}
use caminus.System.Stores.{SameFor-refl}
use caminus.System.Apart.{Apart, moved_postgres-Apart, moved_cassandra-Apart}

module _ (d : Database) (j : Serde) (key_text : Value → Text) {T : Type 0}
    (transform : ChangeEvent → Result T ChangeEvent) where
  module _ (valid : (e t : ChangeEvent) → transform e ≡ ok t → is_utf8 t.offset ≡ true) (a b : Text)
      (apart : text_beq a b ≡ false) (apart' : text_beq b a ≡ false)
      (saves_a : (s : d.State) (offset : Text)
        → (s' : d.State) × (save_offset d j s a offset ≡ ok s'))
      (saves_b : (s : d.State) (offset : Text)
        → (s' : d.State) × (save_offset d j s b offset ≡ ok s')) where
    abbrev S : Type 0
    S = System d j key_text transform a b

    abbrev A : Type 0
    A = Pipeline d j key_text transform a

    abbrev B : Type 0
    B = Pipeline d j key_text transform b

    abbrev Together : S → A → B → Type 0
    Together = Apart d j key_text transform valid a b apart apart' saves_a saves_b

    abbrev Stays : {E : Type 0} → List (Move E) → S → A → B → Type 0
    Stays moves s p c =
        Together (run d j key_text transform a b s moves)
          (alone_postgres d j key_text transform a s.postgres_runs p (postgres_items moves))
          (alone_cassandra d j key_text transform b s.cassandra_runs c (cassandra_items moves))

    postgres_step :
        {E : Type 0} (moves : List (Move E)) (s : S) (p : A) (c : B) (runs is_leader : Bool)
        (r : Result E ChangeEvent)
        → s.postgres_runs ≡ runs
        → Together s p c
        → ((s' : S) (p' : A) (c' : B) → Together s' p' c' → Stays moves s' p' c')
        → Together
            (run d j key_text transform a b
              (step_postgres d j key_text transform a b s runs is_leader r)
              moves)
            (alone_postgres d j key_text transform a runs p ((is_leader, r) ∷ postgres_items moves))
            (alone_cassandra d j key_text transform b s.cassandra_runs c (cassandra_items moves))
    unfolding Task.run
    postgres_step moves s p c false is_leader r e h later =
        subst
          (λ runs.
            Together (run d j key_text transform a b s moves)
              (alone_postgres d j key_text transform a runs p (postgres_items moves))
              (alone_cassandra d j key_text transform b s.cassandra_runs c (cassandra_items moves)))
          e (later s p c h)
    postgres_step moves s p c true false r e h later =
        subst
          (λ runs.
            Together (run d j key_text transform a b s moves)
              (alone_postgres d j key_text transform a runs p (postgres_items moves))
              (alone_cassandra d j key_text transform b s.cassandra_runs c (cassandra_items moves)))
          e (later s p c h)
    postgres_step moves s p c true true (ok event) e h later =
        let s' : S = moved_postgres d j key_text transform a b s (
          handle_postgres d j key_text transform a (record s.postgres { store = s.store }) event) in
        let p' : A = handle_postgres d j key_text transform a p event in
        subst
          (λ runs.
            Together (run d j key_text transform a b s' moves)
              (alone_postgres d j key_text transform a runs p' (postgres_items moves))
              (alone_cassandra d j key_text transform b s.cassandra_runs c (cassandra_items moves)))
          e
          (later s' p' c (
            moved_postgres-Apart d j key_text transform valid a b apart apart' saves_a saves_b s p c
              event h))
    postgres_step moves s p c true true (err f) e h later =
        later (record s { postgres_runs = false }) p c
          record {
            postgres_is = h.postgres_is;
            cassandra_is = h.cassandra_is;
            postgres_store = h.postgres_store;
            cassandra_store = h.cassandra_store;
          }

    cassandra_step :
        {E : Type 0} (moves : List (Move E)) (s : S) (p : A) (c : B) (runs is_leader : Bool)
        (r : Result E ChangeEvent)
        → s.cassandra_runs ≡ runs
        → Together s p c
        → ((s' : S) (p' : A) (c' : B) → Together s' p' c' → Stays moves s' p' c')
        → Together
            (run d j key_text transform a b
              (step_cassandra d j key_text transform a b s runs is_leader r)
              moves)
            (alone_postgres d j key_text transform a s.postgres_runs p (postgres_items moves))
            (alone_cassandra d j key_text transform b runs c
              ((is_leader, r) ∷ cassandra_items moves))
    unfolding Task.run
    cassandra_step moves s p c false is_leader r e h later =
        subst
          (λ runs.
            Together (run d j key_text transform a b s moves)
              (alone_postgres d j key_text transform a s.postgres_runs p (postgres_items moves))
              (alone_cassandra d j key_text transform b runs c (cassandra_items moves)))
          e (later s p c h)
    cassandra_step moves s p c true false r e h later =
        subst
          (λ runs.
            Together (run d j key_text transform a b s moves)
              (alone_postgres d j key_text transform a s.postgres_runs p (postgres_items moves))
              (alone_cassandra d j key_text transform b runs c (cassandra_items moves)))
          e (later s p c h)
    cassandra_step moves s p c true true (ok event) e h later =
        let s' : S = moved_cassandra d j key_text transform a b s (
          handle_cassandra d j key_text transform b (record s.cassandra { store = s.store })
            event) in
        let c' : B = handle_cassandra d j key_text transform b c event in
        subst
          (λ runs.
            Together (run d j key_text transform a b s' moves)
              (alone_postgres d j key_text transform a s.postgres_runs p (postgres_items moves))
              (alone_cassandra d j key_text transform b runs c' (cassandra_items moves)))
          e
          (later s' p c' (
            moved_cassandra-Apart d j key_text transform valid a b apart apart' saves_a saves_b s p
              c event h))
    cassandra_step moves s p c true true (err f) e h later =
        later (record s { cassandra_runs = false }) p c
          record {
            cassandra_is = h.cassandra_is;
            postgres_is = h.postgres_is;
            cassandra_store = h.cassandra_store;
            postgres_store = h.postgres_store;
          }

    run-Stays :
        {E : Type 0} (moves : List (Move E)) (s : S) (p : A) (c : B)
        → Together s p c
        → Stays moves s p c
    unfolding run postgres_items cassandra_items Task.run
    run-Stays {E} [] s p c h = ended s.postgres_runs s.cassandra_runs
      where
        ended :
            (r r' : Bool)
            → Together s
                (alone_postgres d j key_text transform a {E = E} r p [])
                (alone_cassandra d j key_text transform b {E = E} r' c [])
        ended true true = h
        ended true false = h
        ended false true = h
        ended false false = h
    run-Stays {E} (postgres_item is_leader r ∷ moves) s p c h =
        postgres_step moves s p c s.postgres_runs is_leader r refl h (run-Stays moves)
    run-Stays {E} (cassandra_item is_leader r ∷ moves) s p c h =
        cassandra_step moves s p c s.cassandra_runs is_leader r refl h (run-Stays moves)

    -- If every write of an offset of the two sources, whose names differ, succeeds and transformed events
    -- have offsets that are texts: the two tasks on the store that they share, whose events are handled
    -- in any order, one at a time, and whose loops end with their own errors, each have sent what the
    -- task sends alone from the same store over its own items, have the same dead letters, and leave the
    -- same checkpoint in the store.
    pub run-IsAlone :
        {E : Type 0} (moves : List (Move E)) (s : S)
        → (let s' = run d j key_text transform a b s moves in
            IsAlone d j key_text transform a s'.store s'.postgres (
              alone_postgres d j key_text transform a s.postgres_runs
                (record s.postgres { store = s.store })
                (postgres_items moves))
            × IsAlone d j key_text transform b s'.store s'.cassandra (
                alone_cassandra d j key_text transform b s.cassandra_runs
                  (record s.cassandra { store = s.store })
                  (cassandra_items moves)))
    run-IsAlone moves s =
        let h =
          run-Stays moves s (record s.postgres { store = s.store })
            (record s.cassandra { store = s.store })
            (record {
              postgres_is = (s.postgres.store, refl);
              cassandra_is = (s.cassandra.store, refl);
              postgres_store = SameFor-refl d j a s.store;
              cassandra_store = SameFor-refl d j b s.store;
            }) in
        let (x, is) = h.postgres_is in
        let (y, is') = h.cassandra_is in
        (
          record {
            sent = ap (λ (q : A). q.sent) is;
            dead_letters = ap (λ (q : A). q.dead_letters) is;
            checkpoint = h.postgres_store.offset;
          },
          record {
            sent = ap (λ (q : B). q.sent) is';
            dead_letters = ap (λ (q : B). q.dead_letters) is';
            checkpoint = h.cassandra_store.offset;
          },
        )
