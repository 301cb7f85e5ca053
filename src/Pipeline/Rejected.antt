-- ===== src/Pipeline/Rejected.antt =====
-- The events that the Postgres task takes to the dead letter queue since the schema refuses them.
use caminus.Prelude.{
  ◌≡◌, refl, sym, ap, ◌∙◌, Bool, true, false, Option, none, some, List, [], ◌∷◌, ◌++◌, append-nil,
  append_assoc, Result, ok, err, map_err, ◌>>=◌,
}
use mathlib.Core.Path.{ap₂}
use caminus.Text.Defs.{Text}
use caminus.Json.Value.{Value}
use caminus.Event.{ChangeEvent}
use caminus.Storage.Database.{Database, Serde}
use caminus.Storage.Store.{get_schema}
use caminus.Schema.Defs.{Fault, storage, validate_event, validate_registered}
use caminus.Dedup.Defs.{check_and_track}
use caminus.Buffer.Defs.{process}
use caminus.Watermark.Defs.{process_replication_event}
use caminus.Pipeline.Defs.{
  Pipeline, Reason, schema_validation, wasm_transform, DlqRecord, deliver_as, deliver, buffered,
  pass, watermarked, judge, validated, unless_duplicate, handle_postgres, run,
}
use caminus.Pipeline.Stages.{keep_new, fresh, led}
use caminus.Pipeline.Composition.{schema-judge}
use caminus.Pipeline.Runs.{filter-validated}

-- The events in the queue that were refused by the schema, with the faults.
abbrev pub refused_by :
    {F T : Type 0} → Reason F T → ChangeEvent → List (ChangeEvent × F) → List (ChangeEvent × F)
refused_by (schema_validation fault) event rest = (event, fault) ∷ rest
refused_by (wasm_transform e) event rest = rest

abbrev pub refused : {F T : Type 0} → List (DlqRecord F T) → List (ChangeEvent × F)
refused [] = []
refused (letter ∷ letters) = refused_by letter.error_reason letter.failed_event (refused letters)

refused_by-append :
    {F T : Type 0} (reason : Reason F T) (event : ChangeEvent) (xs ys : List (ChangeEvent × F))
    → refused_by reason event (xs ++ ys) ≡ refused_by reason event xs ++ ys
refused_by-append (schema_validation fault) event xs ys = refl
refused_by-append (wasm_transform e) event xs ys = refl

refused-append :
    {F T : Type 0} (xs ys : List (DlqRecord F T)) → refused (xs ++ ys) ≡ refused xs ++ refused ys
refused-append [] ys = refl
refused-append (x ∷ xs) ys =
    ap (refused_by x.error_reason x.failed_event) (refused-append xs ys)
    ∙ refused_by-append x.error_reason x.failed_event (refused xs) (refused ys)

abbrev pub keep_err :
    {F : Type 0}
    → Result F (Unit {0})
    → ChangeEvent
    → List (ChangeEvent × F)
    → List (ChangeEvent × F)
keep_err (ok u) event rest = rest
keep_err (err fault) event rest = (event, fault) ∷ rest

keep_err-append :
    {F : Type 0} (r : Result F (Unit {0})) (event : ChangeEvent) (xs : List (ChangeEvent × F))
    → keep_err r event [] ++ xs ≡ keep_err r event xs
keep_err-append (ok u) event xs = refl
keep_err-append (err fault) event xs = refl

-- The events that the schema refuses, with the faults.
unfoldable pub rejected :
    (d : Database) (j : Serde) → Text → d.State → List ChangeEvent → List (ChangeEvent × Fault d j)
rejected d j source_id s [] = []
rejected d j source_id s (event ∷ events) =
    keep_err (validate_event d j s source_id event) event (rejected d j source_id s events)

module _ (d : Database) (j : Serde) (key_text : Value → Text) {T : Type 0}
    (transform : ChangeEvent → Result T ChangeEvent) (source_id : Text) where
  abbrev S : Type 0
  S = Pipeline d j key_text transform source_id

  deliver_as-refused :
      (p : S) (m : ChangeEvent) (r : Result T ChangeEvent)
      → refused (deliver_as d j key_text transform source_id p m r).dead_letters
        ≡ refused p.dead_letters
  deliver_as-refused p m (ok t) = refl
  deliver_as-refused p m (err e) =
      refused-append p.dead_letters
        (record { failed_event = m; error_reason = wasm_transform e } ∷ [])
      ∙ append-nil (refused p.dead_letters)

  deliver-refused :
      (p : S) (ms : List ChangeEvent)
      → refused (deliver d j key_text transform source_id p ms).dead_letters
        ≡ refused p.dead_letters
  unfolding deliver
  deliver-refused p [] = refl
  deliver-refused p (m ∷ ms) =
      deliver-refused (deliver_as d j key_text transform source_id p m (transform m)) ms
      ∙ deliver_as-refused p m (transform m)

  buffered-refused :
      (p : S) (event : ChangeEvent)
      → refused (buffered d j key_text transform source_id p event).dead_letters
        ≡ refused p.dead_letters
  unfolding buffered
  buffered-refused p event =
      deliver-refused (record p { tx_buffer = (process p.tx_buffer event).0 })
        (process p.tx_buffer event).1

  pass-refused :
      (p : S) (out : Option ChangeEvent)
      → refused (pass d j key_text transform source_id p out).dead_letters ≡ refused p.dead_letters
  pass-refused p none = refl
  pass-refused p (some event) = buffered-refused p event

  judge-refused :
      (p : S) (event : ChangeEvent) (r : Result (Fault d j) (Unit {0}))
      → refused (judge d j key_text transform source_id p event r).dead_letters
        ≡ refused p.dead_letters ++ keep_err r event []
  unfolding watermarked
  judge-refused p event (ok u) =
      let w = process_replication_event key_text p.watermark_engine event in
      pass-refused (record p { watermark_engine = w.0 }) w.1
      ∙ sym (append-nil (refused p.dead_letters))
  judge-refused p event (err fault) =
      refused-append p.dead_letters
        (record { failed_event = event; error_reason = schema_validation fault } ∷ [])

  rejected-stable :
      (s s' : d.State) (events : List ChangeEvent)
      → get_schema d j s' source_id ≡ get_schema d j s source_id
      → rejected d j source_id s' events ≡ rejected d j source_id s events
  unfolding rejected validate_event
  rejected-stable s s' [] e = refl
  rejected-stable s s' (event ∷ events) e =
      ap₂
        (λ r l.
          keep_err (map_err storage r >>= λ registered. validate_registered d j registered event)
            event l)
        e (rejected-stable s s' events e)

  -- What the queue holds of the schema once further events have been judged.
  abbrev after_rejected : S → List ChangeEvent → List (ChangeEvent × Fault d j)
  after_rejected p events = refused p.dead_letters ++ rejected d j source_id p.store events

  after_rejected-validated :
      (p : S) (event : ChangeEvent) (events : List ChangeEvent)
      → after_rejected (validated d j key_text transform source_id p event) events
        ≡ after_rejected p (event ∷ events)
  unfolding validated rejected
  after_rejected-validated p event events =
      let r = validate_event d j p.store source_id event in
      let q : S = judge d j key_text transform source_id p event r in
      let rest = rejected d j source_id p.store events in
      ap₂ (λ a b. a ++ b) (judge-refused p event r)
        (rejected-stable p.store q.store events
          (schema-judge d j key_text transform source_id p event r))
      ∙ append_assoc (refused p.dead_letters) (keep_err r event []) rest
      ∙ ap (λ l. refused p.dead_letters ++ l) (keep_err-append r event rest)

  admit :
      (p : S) (event : ChangeEvent) (duplicate : Bool) (events : List ChangeEvent)
      → (let q =
            unless_duplicate d j key_text transform source_id
              (validated d j key_text transform source_id)
              p
              event
              duplicate in
          after_rejected q (fresh q.dedup_filter events))
        ≡ after_rejected p (keep_new duplicate event (fresh p.dedup_filter events))
  admit p event true events = refl
  admit p event false events =
      ap (λ f. after_rejected (validated d j key_text transform source_id p event) (fresh f events))
        (filter-validated d j key_text transform source_id p event)
      ∙ after_rejected-validated p event (fresh p.dedup_filter events)

  -- Which events the Postgres task has taken to the dead letter queue, with a fault of the schema,
  -- after its loop over any items: to those that were there before come, in their order, those that
  -- the schema refuses of those that are no duplicates of those that came while the node was leader,
  -- before the first error that came then; each with the fault that was found. The filter starts from
  -- the state of the task, and the schema is that of the store at the start.
  pub postgres-refused :
      {E : Type 0} (p : S) (items : List (Bool × Result E ChangeEvent))
      → refused
          (run d j key_text transform source_id
            (handle_postgres d j key_text transform source_id)
            p
            items).dead_letters
        ≡ refused p.dead_letters
          ++ rejected d j source_id p.store (fresh p.dedup_filter (led items))
  unfolding run led fresh rejected handle_postgres
  postgres-refused p [] = sym (append-nil (refused p.dead_letters))
  postgres-refused p ((false, item) ∷ items) = postgres-refused p items
  postgres-refused p ((true, ok event) ∷ items) =
      let checked = check_and_track p.dedup_filter event.id in
      let q : S = record p { dedup_filter = checked.0 } in
      postgres-refused (handle_postgres d j key_text transform source_id p event) items
      ∙ admit q event checked.1 (led items)
  postgres-refused p ((true, err e) ∷ items) = sym (append-nil (refused p.dead_letters))
