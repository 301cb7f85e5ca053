-- ===== src/Simulation/Defs.antt =====
-- What `main` registers and connects (src/main.rs), and the sessions between two stops.
use caminus.Prelude.{ℕ, zero, suc, Bool, true, Option, none, some, List, [], ◌∷◌, Result, ok, err}
use caminus.Text.Defs.{Text, codes}
use caminus.Json.Value.{Value, string, object, field, end}
use caminus.Event.{ChangeEvent}
use caminus.Storage.Database.{Database, Serde}
use caminus.Storage.Store.{get_offset}
use caminus.Schema.Defs.{Fault, backward, register_schema}
use caminus.Dedup.Defs.{new as new_filter}
use caminus.Buffer.Defs.{new as new_buffer}
use caminus.Watermark.Defs.{new as new_engine}
use caminus.Consensus.Failover.{resume_checkpoint_offset}
use caminus.Source.Postgres.{start_seq, next_event}
use caminus.Pipeline.Defs.{Pipeline, handle_postgres, run}

abbrev pub user_schema : Value
user_schema = object (
    field (codes "fields")
      (object (
        field (codes "id") (string (codes "integer"))
          (field (codes "name") (string (codes "string")) end)))
      end)

abbrev pub source_name : Text
source_name = codes "postgres_users"

-- So many events of a stream, by its step, from a state of it. The clock is read once for each.
unfoldable pub stream : (ℕ → ℕ → ChangeEvent × ℕ) → (ℕ → ℕ) → ℕ → ℕ → List ChangeEvent
stream next clock seq zero = []
stream next clock seq (suc n) =
    let yielded = next (clock seq) seq in yielded.0 ∷ stream next clock yielded.1 n

abbrev pub while_leader : List ChangeEvent → List (Bool × Result (Unit {0}) ChangeEvent)
while_leader [] = []
while_leader (event ∷ events) = (true, ok event) ∷ while_leader events

-- `or_else(|| get_offset(…).unwrap_or(None))`
abbrev pub or_stored : {E : Type 0} → Option Text → Result E (Option Text) → Option Text
or_stored (some offset) stored = some offset
or_stored none (ok stored) = stored
or_stored none (err e) = none

module _ (d : Database) (j : Serde) where
  -- A registration that fails is reported and ignored.
  abbrev pub store_after : d.State → Result (Fault d j) d.State → d.State
  store_after s (ok s') = s'
  store_after s (err e) = s

  unfoldable pub register_users : d.State → d.State
  register_users s = store_after s (register_schema d j s source_name user_schema backward)

  unfoldable pub resumed_at : Text → d.State → ℕ
  resumed_at source_id s =
      start_seq (or_stored (resume_checkpoint_offset d j s source_id) (get_offset d j s source_id))

module _ (d : Database) (j : Serde) (key_text : Value → Text) {T : Type 0}
    (transform : ChangeEvent → Result T ChangeEvent) where
  abbrev pub Task : Type 0
  Task = Pipeline d j key_text transform source_name

  -- The start of the program: of what it was before, only the store remains, and what was sent.
  abbrev pub start : Task → Task
  start p = record p {
    tx_buffer = new_buffer;
    watermark_engine = new_engine;
    dedup_filter = new_filter 1000;
    store = register_users d j p.store;
  }

  -- From the start of the program until it is stopped, between two events and after so many, of a node
  -- that is leader throughout. A crash while an event is handled is not among the sessions.
  unfoldable pub session : Task → (ℕ → ℕ) × ℕ → Task
  session p (clock, n) =
      run d j key_text transform source_name (handle_postgres d j key_text transform source_name)
        (start p)
        (while_leader (stream next_event clock (resumed_at d j source_name (start p).store) n))

  unfoldable pub sessions : Task → List ((ℕ → ℕ) × ℕ) → Task
  sessions p [] = p
  sessions p (s ∷ ss) = sessions (session p s) ss
