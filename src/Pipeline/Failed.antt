-- ===== src/Pipeline/Failed.antt =====
-- The dead letters of each task: refused by the schema, or failed in the transformation.
use caminus.Prelude.{
  ◌≡◌, refl, sym, ap, ◌∙◌, Bool, List, [], ◌∷◌, ◌++◌, append-nil, append_assoc, Result, ok, err,
}
use caminus.Text.Defs.{Text}
use caminus.Json.Value.{Value}
use caminus.Event.{ChangeEvent}
use caminus.Storage.Database.{Database, Serde}
use caminus.Schema.Defs.{Fault}
use caminus.Buffer.Defs.{run as buffer_run}
use caminus.Watermark.Defs.{run as watermark_run}
use caminus.Pipeline.Defs.{
  Pipeline, Reason, schema_validation, wasm_transform, DlqRecord, deliver_as, deliver,
  handle_postgres, run,
}
use caminus.Pipeline.Stages.{fresh, accepted, led}
use caminus.Pipeline.Composition.{Observed}
use caminus.Pipeline.Runs.{postgres-observed}
use caminus.Pipeline.Rejected.{refused, rejected, postgres-refused}

-- The mutations in the queue whose transformation failed, with the errors.
abbrev pub failed_by :
    {F T : Type 0} → Reason F T → ChangeEvent → List (ChangeEvent × T) → List (ChangeEvent × T)
failed_by (schema_validation fault) event rest = rest
failed_by (wasm_transform e) event rest = (event, e) ∷ rest

abbrev pub failed : {F T : Type 0} → List (DlqRecord F T) → List (ChangeEvent × T)
failed [] = []
failed (letter ∷ letters) = failed_by letter.error_reason letter.failed_event (failed letters)

failed_by-append :
    {F T : Type 0} (reason : Reason F T) (event : ChangeEvent) (xs ys : List (ChangeEvent × T))
    → failed_by reason event (xs ++ ys) ≡ failed_by reason event xs ++ ys
failed_by-append (schema_validation fault) event xs ys = refl
failed_by-append (wasm_transform e) event xs ys = refl

failed-append :
    {F T : Type 0} (xs ys : List (DlqRecord F T)) → failed (xs ++ ys) ≡ failed xs ++ failed ys
failed-append [] ys = refl
failed-append (x ∷ xs) ys =
    ap (failed_by x.error_reason x.failed_event) (failed-append xs ys)
    ∙ failed_by-append x.error_reason x.failed_event (failed xs) (failed ys)

abbrev pub keep_failed :
    {T : Type 0}
    → Result T ChangeEvent
    → ChangeEvent
    → List (ChangeEvent × T)
    → List (ChangeEvent × T)
keep_failed (ok transformed) event rest = rest
keep_failed (err e) event rest = (event, e) ∷ rest

-- The mutations whose transformation fails, with the errors.
unfoldable pub failing :
    {T : Type 0} → (ChangeEvent → Result T ChangeEvent) → List ChangeEvent → List (ChangeEvent × T)
failing transform [] = []
failing transform (m ∷ ms) = keep_failed (transform m) m (failing transform ms)

keep_failed-append :
    {T : Type 0} (r : Result T ChangeEvent) (m : ChangeEvent) (xs ys : List (ChangeEvent × T))
    → keep_failed r m (xs ++ ys) ≡ keep_failed r m xs ++ ys
keep_failed-append (ok t) m xs ys = refl
keep_failed-append (err e) m xs ys = refl

failing-append :
    {T : Type 0} (transform : ChangeEvent → Result T ChangeEvent) (xs ys : List ChangeEvent)
    → failing transform (xs ++ ys) ≡ failing transform xs ++ failing transform ys
unfolding failing
failing-append transform [] ys = refl
failing-append transform (x ∷ xs) ys =
    ap (keep_failed (transform x) x) (failing-append transform xs ys)
    ∙ keep_failed-append (transform x) x (failing transform xs) (failing transform ys)

failing-nil :
    {T : Type 0} (transform : ChangeEvent → Result T ChangeEvent) → failing transform [] ≡ []
unfolding failing
failing-nil transform = refl

module _ (d : Database) (j : Serde) (key_text : Value → Text) {T : Type 0}
    (transform : ChangeEvent → Result T ChangeEvent) (source_id : Text) where
  abbrev S : Type 0
  S = Pipeline d j key_text transform source_id

  deliver_as-failed :
      (p : S) (m : ChangeEvent) (r : Result T ChangeEvent) (rest : List (ChangeEvent × T))
      → failed (deliver_as d j key_text transform source_id p m r).dead_letters ++ rest
        ≡ failed p.dead_letters ++ keep_failed r m rest
  deliver_as-failed p m (ok t) rest = refl
  deliver_as-failed p m (err e) rest =
      ap (λ l. l ++ rest)
        (failed-append p.dead_letters
          (record { failed_event = m; error_reason = wasm_transform e } ∷ []))
      ∙ append_assoc (failed p.dead_letters) ((m, e) ∷ []) rest

  deliver-failed :
      (p : S) (ms : List ChangeEvent)
      → failed (deliver d j key_text transform source_id p ms).dead_letters
        ≡ failed p.dead_letters ++ failing transform ms
  unfolding deliver failing
  deliver-failed p [] = sym (append-nil (failed p.dead_letters))
  deliver-failed p (m ∷ ms) =
      deliver-failed (deliver_as d j key_text transform source_id p m (transform m)) ms
      ∙ deliver_as-failed p m (transform m) (failing transform ms)

  judged-failed :
      (p : S) (event : ChangeEvent) (fault : Fault d j)
      → failed (
          p.dead_letters
          ++ record { failed_event = event; error_reason = schema_validation fault } ∷ [])
        ≡ failed p.dead_letters
  judged-failed p event fault =
      failed-append p.dead_letters
        (record { failed_event = event; error_reason = schema_validation fault } ∷ [])
      ∙ append-nil (failed p.dead_letters)

  abbrev failed_letters : Observed d j key_text transform source_id
  failed_letters = record {
    Item = ChangeEvent × T;
    observe = λ sent letters. failed letters;
    added = failing transform;
    added-nil = failing-nil transform;
    added-append = failing-append transform;
    delivered = deliver-failed;
    judged = judged-failed;
  }

  -- What the dead letter queue of the Postgres task holds after its loop over any items. To the
  -- events refused by the schema that were there before come, in their order, those that the schema
  -- refuses of those that are no duplicates of those that came while the node was leader, before the
  -- first error that came then, each with its fault. To the mutations that failed before come those
  -- whose transformation fails of those that the transaction buffer lets go of the events that the
  -- watermark engine passes of those that the schema accepts of the same events, each with its error.
  -- All stages start from the state of the task, and the schema is that of the store at the start.
  pub postgres-dead_letters :
      {E : Type 0} (p : S) (items : List (Bool × Result E ChangeEvent))
      → (let q =
            run d j key_text transform source_id
              (handle_postgres d j key_text transform source_id)
              p
              items in
          let events = fresh p.dedup_filter (led items) in
          (refused q.dead_letters ≡ refused p.dead_letters ++ rejected d j source_id p.store events)
          × (failed q.dead_letters
              ≡ failed p.dead_letters
                ++ failing transform
                    (buffer_run p.tx_buffer
                      (watermark_run key_text p.watermark_engine
                        (accepted d j source_id p.store events)).1).1))
  unfolding run
  postgres-dead_letters p items = (
    postgres-refused d j key_text transform source_id p items,
    postgres-observed d j key_text transform source_id failed_letters p items,
  )
