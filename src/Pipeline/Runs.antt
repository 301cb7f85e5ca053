-- ===== src/Pipeline/Runs.antt =====
-- What the runs of the two tasks send.
use caminus.Prelude.{
  ◌≡◌, refl, sym, ap, ◌∙◌, Bool, true, false, Option, none, some, List, [], ◌∷◌, ◌++◌, append-nil,
  Result, ok, err,
}
use caminus.Text.Defs.{Text}
use caminus.Json.Value.{Value}
use caminus.Event.{ChangeEvent}
use caminus.Storage.Database.{Database, Serde}
use caminus.Schema.Defs.{Fault, validate_event}
use caminus.Dedup.Defs.{check_and_track}
use caminus.Buffer.Defs.{run as buffer_run}
use caminus.Watermark.Defs.{process_replication_event, run as watermark_run}
use caminus.Pipeline.Defs.{
  buffered, pass, watermarked, judge, validated, unless_duplicate, handle_postgres,
  handle_cassandra, run,
}
use caminus.Pipeline.Stages.{keep_new, fresh, accepted, transformed, led}
use caminus.Pipeline.Delivery.{transformed-append, deliver-sent}
use caminus.Pipeline.Composition.{
  Observed, observed, Task, after_buffer, after_schema, after_schema-validated, buffered-Kept,
  after_buffer-buffered,
}

module _ (d : Database) (j : Serde) (key_text : Value → Text) {T : Type 0}
    (transform : ChangeEvent → Result T ChangeEvent) (source_id : Text) where
  abbrev S : Type 0
  S = Task d j key_text transform source_id

  filter-pass :
      (p : S) (out : Option ChangeEvent)
      → (pass d j key_text transform source_id p out).dedup_filter ≡ p.dedup_filter
  filter-pass p none = refl
  filter-pass p (some event) = (buffered-Kept d j key_text transform source_id p event).filter

  filter-judge :
      (p : S) (event : ChangeEvent) (r : Result (Fault d j) (Unit {0}))
      → (judge d j key_text transform source_id p event r).dedup_filter ≡ p.dedup_filter
  unfolding watermarked
  filter-judge p event (ok u) =
      let w = process_replication_event key_text p.watermark_engine event in
      filter-pass (record p { watermark_engine = w.0 }) w.1
  filter-judge p event (err e) = refl

  pub filter-validated :
      (p : S) (event : ChangeEvent)
      → (validated d j key_text transform source_id p event).dedup_filter ≡ p.dedup_filter
  unfolding validated
  filter-validated p event = filter-judge p event (validate_event d j p.store source_id event)

  module _ (o : Observed d j key_text transform source_id) where
    admit_postgres :
        (p : S) (event : ChangeEvent) (duplicate : Bool) (events : List ChangeEvent)
        → (let q =
              unless_duplicate d j key_text transform source_id
                (validated d j key_text transform source_id)
                p
                event
                duplicate in
            after_schema d j key_text transform source_id o q (fresh q.dedup_filter events))
          ≡ after_schema d j key_text transform source_id o p
              (keep_new duplicate event (fresh p.dedup_filter events))
    admit_postgres p event true events = refl
    admit_postgres p event false events =
        ap
          (λ f.
            after_schema d j key_text transform source_id o
              (validated d j key_text transform source_id p event) (fresh f events))
          (filter-validated p event)
        ∙ after_schema-validated d j key_text transform source_id o p event
            (fresh p.dedup_filter events)

    admit_cassandra :
        (p : S) (event : ChangeEvent) (duplicate : Bool) (events : List ChangeEvent)
        → (let q =
              unless_duplicate d j key_text transform source_id
                (buffered d j key_text transform source_id)
                p
                event
                duplicate in
            after_buffer d j key_text transform source_id o q (fresh q.dedup_filter events))
          ≡ after_buffer d j key_text transform source_id o p
              (keep_new duplicate event (fresh p.dedup_filter events))
    admit_cassandra p event true events = refl
    admit_cassandra p event false events =
        ap
          (λ f.
            after_buffer d j key_text transform source_id o
              (buffered d j key_text transform source_id p event) (fresh f events))
          (buffered-Kept d j key_text transform source_id p event).filter
        ∙ after_buffer-buffered d j key_text transform source_id o p event
            (fresh p.dedup_filter events)

    nothing_more :
        (p : S)
        → observed d j key_text transform source_id o p ++ o.added []
          ≡ observed d j key_text transform source_id o p
    nothing_more p =
        ap (λ l. observed d j key_text transform source_id o p ++ l) o.added-nil
        ∙ append-nil (observed d j key_text transform source_id o p)

    -- What is observed of the Postgres task after its loop, stage by stage.
    pub postgres-observed :
        {E : Type 0} (p : S) (items : List (Bool × Result E ChangeEvent))
        → observed d j key_text transform source_id o (
            run d j key_text transform source_id
              (handle_postgres d j key_text transform source_id)
              p
              items)
          ≡ after_schema d j key_text transform source_id o p (fresh p.dedup_filter (led items))
    unfolding run led fresh accepted watermark_run buffer_run handle_postgres
    postgres-observed p [] = sym (nothing_more p)
    postgres-observed p ((false, item) ∷ items) = postgres-observed p items
    postgres-observed p ((true, ok event) ∷ items) =
        let checked = check_and_track p.dedup_filter event.id in
        let q : S = record p { dedup_filter = checked.0 } in
        postgres-observed (handle_postgres d j key_text transform source_id p event) items
        ∙ admit_postgres q event checked.1 (led items)
    postgres-observed p ((true, err e) ∷ items) = sym (nothing_more p)

    -- The same of the Cassandra task.
    pub cassandra-observed :
        {E : Type 0} (p : S) (items : List (Bool × Result E ChangeEvent))
        → observed d j key_text transform source_id o (
            run d j key_text transform source_id
              (handle_cassandra d j key_text transform source_id)
              p
              items)
          ≡ after_buffer d j key_text transform source_id o p (fresh p.dedup_filter (led items))
    unfolding run led fresh buffer_run handle_cassandra
    cassandra-observed p [] = sym (nothing_more p)
    cassandra-observed p ((false, item) ∷ items) = cassandra-observed p items
    cassandra-observed p ((true, ok event) ∷ items) =
        let checked = check_and_track p.dedup_filter event.id in
        let q : S = record p { dedup_filter = checked.0 } in
        cassandra-observed (handle_cassandra d j key_text transform source_id p event) items
        ∙ admit_cassandra q event checked.1 (led items)
    cassandra-observed p ((true, err e) ∷ items) = sym (nothing_more p)

  transformed-nil : transformed transform [] ≡ []
  unfolding transformed
  transformed-nil = refl

  abbrev sent_events : Observed d j key_text transform source_id
  sent_events = record {
    Item = ChangeEvent;
    observe = λ sent letters. sent;
    added = transformed transform;
    added-nil = transformed-nil;
    added-append = transformed-append d j key_text transform source_id;
    delivered = deliver-sent d j key_text transform source_id;
    judged = λ p event e. refl;
  }

  -- What the Postgres task has sent to the sinks after its loop over any items: to what it had sent
  -- before come the transformed mutations that the transaction buffer lets go of the events that the
  -- watermark engine passes of those that the schema accepts of those that are no duplicates of those
  -- that came while the node was leader, before the first error that came then. All stages start from
  -- the state of the task, and the schema is that of the store at the start.
  pub postgres-sent :
      {E : Type 0} (p : S) (items : List (Bool × Result E ChangeEvent))
      → (run d j key_text transform source_id
          (handle_postgres d j key_text transform source_id)
          p
          items).sent
        ≡ p.sent
          ++ transformed transform
              (buffer_run p.tx_buffer
                (watermark_run key_text p.watermark_engine
                  (accepted d j source_id p.store (fresh p.dedup_filter (led items)))).1).1
  unfolding run
  postgres-sent p items = postgres-observed sent_events p items

  -- What the Cassandra task has sent after its loop over any items: to what it had sent before come
  -- the transformed mutations that the transaction buffer lets go of the events that are no duplicates
  -- of those that came while the node was leader, before the first error that came then.
  pub cassandra-sent :
      {E : Type 0} (p : S) (items : List (Bool × Result E ChangeEvent))
      → (run d j key_text transform source_id
          (handle_cassandra d j key_text transform source_id)
          p
          items).sent
        ≡ p.sent
          ++ transformed transform (buffer_run p.tx_buffer (fresh p.dedup_filter (led items))).1
  unfolding run
  cassandra-sent p items = cassandra-observed sent_events p items
