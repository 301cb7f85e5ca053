-- ===== src/System/Defs.antt =====
-- The tasks side by side: each event is handled in one step, and the steps of the two come in any
-- order.
use caminus.Prelude.{◌≡◌, Bool, true, false, List, [], ◌∷◌, Result, ok, err}
use caminus.Text.Defs.{Text}
use caminus.Json.Value.{Value}
use caminus.Event.{ChangeEvent}
use caminus.Storage.Database.{Database, Serde}
use caminus.Storage.Store.{get_offset}
use caminus.Pipeline.Defs.{Pipeline, handle_postgres, handle_cassandra}
use caminus.Pipeline.Defs as Task

-- What comes next, and for which task, with what `is_leader` says.
pub data Move (E : Type 0) : Type 0 where
  postgres_item : Bool → Result E ChangeEvent → Move E
  cassandra_item : Bool → Result E ChangeEvent → Move E

-- What comes for each task, in order.
unfoldable pub postgres_items : {E : Type 0} → List (Move E) → List (Bool × Result E ChangeEvent)
postgres_items [] = []
postgres_items (postgres_item is_leader r ∷ moves) = (is_leader, r) ∷ postgres_items moves
postgres_items (cassandra_item is_leader r ∷ moves) = postgres_items moves

unfoldable pub cassandra_items : {E : Type 0} → List (Move E) → List (Bool × Result E ChangeEvent)
cassandra_items [] = []
cassandra_items (postgres_item is_leader r ∷ moves) = cassandra_items moves
cassandra_items (cassandra_item is_leader r ∷ moves) = (is_leader, r) ∷ cassandra_items moves

module _ (d : Database) (j : Serde) (key_text : Value → Text) {T : Type 0}
    (transform : ChangeEvent → Result T ChangeEvent) (postgres_id cassandra_id : Text) where
  -- The store is the one here, and not those of the tasks.
  pub record System : Type 0 where
    pub store : d.State
    pub postgres : Pipeline d j key_text transform postgres_id
    pub cassandra : Pipeline d j key_text transform cassandra_id
    pub postgres_runs : Bool
    pub cassandra_runs : Bool

  abbrev pub moved_postgres : System → Pipeline d j key_text transform postgres_id → System
  moved_postgres s p = record s { store = p.store; postgres = p }

  abbrev pub moved_cassandra : System → Pipeline d j key_text transform cassandra_id → System
  moved_cassandra s p = record s { store = p.store; cassandra = p }

  -- An error ends the loop of its task.
  abbrev pub step_postgres : {E : Type 0} → System → Bool → Bool → Result E ChangeEvent → System
  step_postgres s false is_leader event_result = s
  step_postgres s true false event_result = s
  step_postgres s true true (ok event) = moved_postgres s (
      handle_postgres d j key_text transform postgres_id (record s.postgres { store = s.store })
        event)
  step_postgres s true true (err e) = record s { postgres_runs = false }

  abbrev pub step_cassandra : {E : Type 0} → System → Bool → Bool → Result E ChangeEvent → System
  step_cassandra s false is_leader event_result = s
  step_cassandra s true false event_result = s
  step_cassandra s true true (ok event) = moved_cassandra s (
      handle_cassandra d j key_text transform cassandra_id (record s.cassandra { store = s.store })
        event)
  step_cassandra s true true (err e) = record s { cassandra_runs = false }

  abbrev pub step : {E : Type 0} → System → Move E → System
  step s (postgres_item is_leader r) = step_postgres s s.postgres_runs is_leader r
  step s (cassandra_item is_leader r) = step_cassandra s s.cassandra_runs is_leader r

  unfoldable pub run : {E : Type 0} → System → List (Move E) → System
  run s [] = s
  run s (move ∷ moves) = run (step s move) moves

module _ (d : Database) (j : Serde) (key_text : Value → Text) {T : Type 0}
    (transform : ChangeEvent → Result T ChangeEvent) where
  -- What shows of a task: what it has sent, its dead letters, and its checkpoint in the store.
  pub record IsAlone (source_id : Text) (store : d.State)
      (q p : Pipeline d j key_text transform source_id) : Type 0 where
    pub sent : q.sent ≡ p.sent
    pub dead_letters : q.dead_letters ≡ p.dead_letters
    pub checkpoint : get_offset d j store source_id ≡ get_offset d j p.store source_id

  -- A task by itself, if its loop has not ended.
  abbrev pub alone_postgres :
      (source_id : Text) {E : Type 0}
      → Bool
      → Pipeline d j key_text transform source_id
      → List (Bool × Result E ChangeEvent)
      → Pipeline d j key_text transform source_id
  alone_postgres source_id true p items =
      Task.run d j key_text transform source_id (handle_postgres d j key_text transform source_id) p
        items
  alone_postgres source_id false p items = p

  abbrev pub alone_cassandra :
      (source_id : Text) {E : Type 0}
      → Bool
      → Pipeline d j key_text transform source_id
      → List (Bool × Result E ChangeEvent)
      → Pipeline d j key_text transform source_id
  alone_cassandra source_id true p items =
      Task.run d j key_text transform source_id (handle_cassandra d j key_text transform source_id)
        p items
  alone_cassandra source_id false p items = p
