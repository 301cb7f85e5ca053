-- ===== src/Pipeline/Stages.antt =====
-- The stages one after the other, each over the whole list of events.
use caminus.Prelude.{Bool, true, false, List, [], ◌∷◌, Result, ok, err}
use caminus.Text.Defs.{Text}
use caminus.Event.{ChangeEvent}
use caminus.Storage.Database.{Database, Serde}
use caminus.Schema.Defs.{validate_event}
use caminus.Dedup.Defs.{DeduplicationFilter, check_and_track}

abbrev pub keep_new : Bool → ChangeEvent → List ChangeEvent → List ChangeEvent
keep_new true event events = events
keep_new false event events = event ∷ events

-- The events that are no duplicates.
unfoldable pub fresh : DeduplicationFilter → List ChangeEvent → List ChangeEvent
fresh f [] = []
fresh f (event ∷ events) =
    let checked = check_and_track f event.id in keep_new checked.1 event (fresh checked.0 events)

abbrev pub keep_ok : {E A : Type 0} → Result E A → ChangeEvent → List ChangeEvent → List ChangeEvent
keep_ok (ok a) event events = event ∷ events
keep_ok (err e) event events = events

-- The events that the schema accepts.
unfoldable pub accepted :
    (d : Database) (j : Serde) → Text → d.State → List ChangeEvent → List ChangeEvent
accepted d j source_id s [] = []
accepted d j source_id s (event ∷ events) =
    keep_ok (validate_event d j s source_id event) event (accepted d j source_id s events)

abbrev pub keep_transformed :
    {T : Type 0} → Result T ChangeEvent → List ChangeEvent → List ChangeEvent
keep_transformed (ok transformed) events = transformed ∷ events
keep_transformed (err e) events = events

-- The mutations as they are transformed, without those whose transformation fails.
unfoldable pub transformed :
    {T : Type 0} → (ChangeEvent → Result T ChangeEvent) → List ChangeEvent → List ChangeEvent
transformed transform [] = []
transformed transform (event ∷ events) =
    keep_transformed (transform event) (transformed transform events)

-- The events that come while the node is leader, up to the first error that does.
unfoldable pub led : {E : Type 0} → List (Bool × Result E ChangeEvent) → List ChangeEvent
led [] = []
led ((false, event_result) ∷ items) = led items
led ((true, ok event) ∷ items) = event ∷ led items
led ((true, err e) ∷ items) = []
