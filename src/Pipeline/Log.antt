-- ===== src/Pipeline/Log.antt =====
-- What a task sent before does not matter for what it does.
use caminus.Prelude.{
  ◌≡◌, refl, ap, ◌∙◌, Bool, true, false, Option, none, some, List, [], ◌∷◌, ◌++◌, append_assoc,
  Result, ok, err,
}
use caminus.Text.Defs.{Text}
use caminus.Json.Value.{Value}
use caminus.Event.{ChangeEvent}
use caminus.Storage.Database.{Database, Serde}
use caminus.Schema.Defs.{Fault, validate_event}
use caminus.Dedup.Defs.{check_and_track}
use caminus.Buffer.Defs.{process}
use caminus.Watermark.Defs.{process_replication_event}
use caminus.Pipeline.Defs.{
  Pipeline, DlqRecord, schema_validation, wasm_transform, deliver_as, deliver, buffered, pass,
  watermarked, judge, validated, unless_duplicate, handle_postgres, run,
}

module _ (d : Database) (j : Serde) (key_text : Value → Text) {T : Type 0}
    (transform : ChangeEvent → Result T ChangeEvent) (source_id : Text) (before : List ChangeEvent)
    (letters : List (DlqRecord (Fault d j) T)) where
  abbrev P : Type 0
  P = Pipeline d j key_text transform source_id

  -- The task, after it has sent these events and set aside these letters.
  abbrev pub continued : P → P
  continued p = record p { sent = before ++ p.sent; dead_letters = letters ++ p.dead_letters }

  deliver_as-continued :
      (p : P) (m : ChangeEvent) (r : Result T ChangeEvent)
      → deliver_as d j key_text transform source_id (continued p) m r
        ≡ continued (deliver_as d j key_text transform source_id p m r)
  deliver_as-continued p m (ok t) =
      ap
        (λ l. record (continued (deliver_as d j key_text transform source_id p m (ok t))) {
          sent = l;
        })
        (append_assoc before p.sent (t ∷ []))
  deliver_as-continued p m (err e) =
      ap
        (λ l. record (continued (deliver_as d j key_text transform source_id p m (err e))) {
          dead_letters = l;
        })
        (append_assoc letters p.dead_letters
          (record { failed_event = m; error_reason = wasm_transform e } ∷ []))

  deliver-continued :
      (ms : List ChangeEvent) (p : P)
      → deliver d j key_text transform source_id (continued p) ms
        ≡ continued (deliver d j key_text transform source_id p ms)
  unfolding deliver
  deliver-continued [] p = refl
  deliver-continued (m ∷ ms) p =
      ap (λ q. deliver d j key_text transform source_id q ms)
        (deliver_as-continued p m (transform m))
      ∙ deliver-continued ms (deliver_as d j key_text transform source_id p m (transform m))

  pass-continued :
      (p : P) (out : Option ChangeEvent)
      → pass d j key_text transform source_id (continued p) out
        ≡ continued (pass d j key_text transform source_id p out)
  unfolding buffered
  pass-continued p none = refl
  pass-continued p (some event) =
      let b = process p.tx_buffer event in deliver-continued b.1 (record p { tx_buffer = b.0 })

  judge-continued :
      (p : P) (event : ChangeEvent) (r : Result (Fault d j) (Unit {0}))
      → judge d j key_text transform source_id (continued p) event r
        ≡ continued (judge d j key_text transform source_id p event r)
  unfolding watermarked
  judge-continued p event (ok u) =
      let w = process_replication_event key_text p.watermark_engine event in
      pass-continued (record p { watermark_engine = w.0 }) w.1
  judge-continued p event (err e) =
      ap
        (λ l. record (continued (judge d j key_text transform source_id p event (err e))) {
          dead_letters = l;
        })
        (append_assoc letters p.dead_letters
          (record { failed_event = event; error_reason = schema_validation e } ∷ []))

  handle-continued :
      (p : P) (event : ChangeEvent) (duplicate : Bool)
      → unless_duplicate d j key_text transform source_id
          (validated d j key_text transform source_id)
          (continued p)
          event
          duplicate
        ≡ continued (
            unless_duplicate d j key_text transform source_id
              (validated d j key_text transform source_id)
              p
              event
              duplicate)
  unfolding validated
  handle-continued p event true = refl
  handle-continued p event false =
      judge-continued p event (validate_event d j p.store source_id event)

  -- The run of the Postgres task that goes on adds to what was sent what a run that starts adds.
  pub run-continued :
      {E : Type 0} (items : List (Bool × Result E ChangeEvent)) (p : P)
      → run d j key_text transform source_id
          (handle_postgres d j key_text transform source_id)
          (continued p)
          items
        ≡ continued (
            run d j key_text transform source_id
              (handle_postgres d j key_text transform source_id)
              p
              items)
  unfolding run handle_postgres
  run-continued [] p = refl
  run-continued ((false, item) ∷ items) p = run-continued items p
  run-continued ((true, ok event) ∷ items) p =
      let checked = check_and_track p.dedup_filter event.id in
      let q : P = record p { dedup_filter = checked.0 } in
      ap
        (λ r.
          run d j key_text transform source_id (handle_postgres d j key_text transform source_id) r
            items)
        (handle-continued q event checked.1)
      ∙ run-continued items (handle_postgres d j key_text transform source_id p event)
  run-continued ((true, err e) ∷ items) p = refl
