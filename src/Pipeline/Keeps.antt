-- ===== src/Pipeline/Keeps.antt =====
-- What every delivery keeps, every run keeps.
use caminus.Prelude.{Bool, true, false, Option, none, some, List, [], ◌∷◌, Result, ok, err}
use caminus.Text.Defs.{Text}
use caminus.Json.Value.{Value}
use caminus.Event.{ChangeEvent}
use caminus.Storage.Database.{Database, Serde}
use caminus.Schema.Defs.{Fault, validate_event}
use caminus.Dedup.Defs.{check_and_track}
use caminus.Buffer.Defs.{process}
use caminus.Watermark.Defs.{process_replication_event}
use caminus.Pipeline.Defs.{
  Pipeline, deliver_as, deliver, buffered, pass, watermarked, judge, validated, unless_duplicate,
  handle_postgres, handle_cassandra, run,
}

module _ (d : Database) (j : Serde) (key_text : Value → Text) {T : Type 0}
    (transform : ChangeEvent → Result T ChangeEvent) (source_id : Text)
    (I : d.State → List ChangeEvent → Type 0) where
  abbrev S : Type 0
  S = Pipeline d j key_text transform source_id

  -- A statement about the store and what has been sent.
  abbrev pub Holds : S → Type 0
  Holds p = I p.store p.sent

  module _
      (keep : (p : S) (m : ChangeEvent)
        → Holds p
        → Holds (deliver_as d j key_text transform source_id p m (transform m))) where
    deliver-Holds :
        (p : S) (ms : List ChangeEvent)
        → Holds p
        → Holds (deliver d j key_text transform source_id p ms)
    unfolding deliver
    deliver-Holds p [] h = h
    deliver-Holds p (m ∷ ms) h =
        deliver-Holds (deliver_as d j key_text transform source_id p m (transform m)) ms
          (keep p m h)

    buffered-Holds :
        (p : S) (event : ChangeEvent)
        → Holds p
        → Holds (buffered d j key_text transform source_id p event)
    unfolding buffered
    buffered-Holds p event h =
        let b = process p.tx_buffer event in deliver-Holds (record p { tx_buffer = b.0 }) b.1 h

    pass-Holds :
        (p : S) (out : Option ChangeEvent)
        → Holds p
        → Holds (pass d j key_text transform source_id p out)
    pass-Holds p none h = h
    pass-Holds p (some event) h = buffered-Holds p event h

    judge-Holds :
        (p : S) (event : ChangeEvent) (r : Result (Fault d j) (Unit {0}))
        → Holds p
        → Holds (judge d j key_text transform source_id p event r)
    unfolding watermarked
    judge-Holds p event (ok u) h =
        let w = process_replication_event key_text p.watermark_engine event in
        pass-Holds (record p { watermark_engine = w.0 }) w.1 h
    judge-Holds p event (err e) h = h

    validated_unless-Holds :
        (p : S) (event : ChangeEvent) (duplicate : Bool)
        → Holds p
        → Holds (
            unless_duplicate d j key_text transform source_id
              (validated d j key_text transform source_id)
              p
              event
              duplicate)
    unfolding validated
    validated_unless-Holds p event true h = h
    validated_unless-Holds p event false h =
        judge-Holds p event (validate_event d j p.store source_id event) h

    pub handle_postgres-Holds :
        (p : S) (event : ChangeEvent)
        → Holds p
        → Holds (handle_postgres d j key_text transform source_id p event)
    unfolding handle_postgres
    handle_postgres-Holds p event h =
        let checked = check_and_track p.dedup_filter event.id in
        validated_unless-Holds (record p { dedup_filter = checked.0 }) event checked.1 h

    buffered_unless-Holds :
        (p : S) (event : ChangeEvent) (duplicate : Bool)
        → Holds p
        → Holds (
            unless_duplicate d j key_text transform source_id
              (buffered d j key_text transform source_id)
              p
              event
              duplicate)
    buffered_unless-Holds p event true h = h
    buffered_unless-Holds p event false h = buffered-Holds p event h

    pub handle_cassandra-Holds :
        (p : S) (event : ChangeEvent)
        → Holds p
        → Holds (handle_cassandra d j key_text transform source_id p event)
    unfolding handle_cassandra
    handle_cassandra-Holds p event h =
        let checked = check_and_track p.dedup_filter event.id in
        buffered_unless-Holds (record p { dedup_filter = checked.0 }) event checked.1 h

    run_by-Holds :
        (handle : S → ChangeEvent → S)
        → ((p : S) (event : ChangeEvent) → Holds p → Holds (handle p event))
        → {E : Type 0} (p : S) (items : List (Bool × Result E ChangeEvent)) → Holds p
        → Holds (run d j key_text transform source_id handle p items)
    unfolding run
    run_by-Holds handle kept p [] h = h
    run_by-Holds handle kept p ((false, item) ∷ items) h = run_by-Holds handle kept p items h
    run_by-Holds handle kept p ((true, ok event) ∷ items) h =
        run_by-Holds handle kept (handle p event) items (kept p event h)
    run_by-Holds handle kept p ((true, err e) ∷ items) h = h

    -- What each delivery keeps, a run of the Postgres task keeps, and one of the Cassandra task.
    pub run-Holds :
        {E : Type 0} (p : S) (items : List (Bool × Result E ChangeEvent))
        → Holds p
        → Holds (
            run d j key_text transform source_id
              (handle_postgres d j key_text transform source_id)
              p
              items)
    run-Holds p items h =
        run_by-Holds (handle_postgres d j key_text transform source_id) handle_postgres-Holds p
          items h

    pub run_cassandra-Holds :
        {E : Type 0} (p : S) (items : List (Bool × Result E ChangeEvent))
        → Holds p
        → Holds (
            run d j key_text transform source_id
              (handle_cassandra d j key_text transform source_id)
              p
              items)
    run_cassandra-Holds p items h =
        run_by-Holds (handle_cassandra d j key_text transform source_id) handle_cassandra-Holds p
          items h
