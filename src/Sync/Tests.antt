-- ===== src/Sync/Tests.antt =====
-- Events of two clusters, and the theorems about them.
use caminus.Prelude.{◌≤◌, ◌≡◌, ◌⊎◌, refl, false, none, some}
use caminus.Text.Defs.{codes, starts_with}
use caminus.Json.Value.{null}
use caminus.Event.{ChangeEvent, update}
use caminus.Sync.Defs.{SyncCoordinator, new, should_forward, resolve_conflict}
use caminus.Sync.Conflicts.{resolve_conflict_latest}

program : Unit {0}
unfolding starts_with should_forward resolve_conflict
program = tt

abbrev coordinator : SyncCoordinator
coordinator = new (codes "us-east-1")

abbrev old_event : ChangeEvent
old_event = record {
  id = codes "evt-old";
  source_database = codes "db";
  source_table_or_collection = codes "users";
  operation = update;
  timestamp = 5;
  key = null;
  before = none;
  after = none;
  transaction_id = some (codes "remote-us-east-10-tx");
  offset = codes "off-1";
}

abbrev new_event : ChangeEvent
new_event = record old_event { id = codes "evt-new"; timestamp = 9; transaction_id = none }

-- The event of another cluster, `us-east-10`, is held back.
held_back : should_forward coordinator old_event ≡ false
unfolding program
held_back = refl

resolve_conflict_latest_example :
    ((resolve_conflict coordinator old_event new_event ≡ old_event)
      ⊎ (resolve_conflict coordinator old_event new_event ≡ new_event))
    × (old_event.timestamp ≤ (resolve_conflict coordinator old_event new_event).timestamp)
    × (new_event.timestamp ≤ (resolve_conflict coordinator old_event new_event).timestamp)
    × ((resolve_conflict coordinator old_event new_event
          ≡ resolve_conflict coordinator new_event old_event)
        ⊎ ((old_event.timestamp ≡ new_event.timestamp)
            × (resolve_conflict coordinator old_event new_event ≡ old_event)
            × (resolve_conflict coordinator new_event old_event ≡ new_event)))
resolve_conflict_latest_example = resolve_conflict_latest coordinator old_event new_event
