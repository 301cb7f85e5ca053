-- ===== src/Pipeline/Composition.antt =====
-- Event by event through all stages is stage by stage over all events.
use caminus.Prelude.{
  ◌≡◌, refl, sym, ap, ◌∙◌, Option, none, some, List, [], ◌∷◌, ◌++◌, append_assoc, Result, ok, err,
  map_err, ◌>>=◌,
}
use mathlib.Core.Path.{ap₂}
use caminus.Text.Defs.{Text}
use caminus.Json.Value.{Value}
use caminus.Event.{ChangeEvent}
use caminus.Storage.Database.{Database, Serde}
use caminus.Storage.Store.{get_schema}
use caminus.Schema.Defs.{Fault, storage, validate_event, validate_registered}
use caminus.Buffer.Defs.{process, run as buffer_run}
use caminus.Watermark.Defs.{process_replication_event, run as watermark_run}
use caminus.Pipeline.Defs.{
  schema_validation, DlqRecord, deliver, buffered, pass, watermarked, judge, validated,
}
use caminus.Pipeline.Stages.{keep_ok, accepted}
use caminus.Pipeline.Delivery.{P, Kept, deliver-Kept}

abbrev keep_some : Option ChangeEvent → List ChangeEvent → List ChangeEvent
keep_some none events = events
keep_some (some event) events = event ∷ events

keep_some-elim :
    (out : Option ChangeEvent) (events : List ChangeEvent)
    → keep_some out events ≡ elim out [ none ↦ events | some passed ↦ passed ∷ events ]
keep_some-elim none events = refl
keep_some-elim (some event) events = refl

module _ (d : Database) (j : Serde) (key_text : Value → Text) {T : Type 0}
    (transform : ChangeEvent → Result T ChangeEvent) (source_id : Text) where
  abbrev pub Task : Type 0
  Task = P d j key_text transform source_id

  abbrev pub Same : Task → Task → Type 0
  Same = Kept d j key_text transform source_id

  pub buffered-Kept :
      (p : Task) (event : ChangeEvent)
      → Same
          (record p { tx_buffer = (process p.tx_buffer event).0 })
          (buffered d j key_text transform source_id p event)
  unfolding buffered
  buffered-Kept p event =
      deliver-Kept d j key_text transform source_id
        (record p { tx_buffer = (process p.tx_buffer event).0 }) (process p.tx_buffer event).1

  engine-pass :
      (p : Task) (out : Option ChangeEvent)
      → (pass d j key_text transform source_id p out).watermark_engine ≡ p.watermark_engine
  engine-pass p none = refl
  engine-pass p (some event) = (buffered-Kept p event).engine

  accepted-stable :
      (s s' : d.State) (events : List ChangeEvent)
      → get_schema d j s' source_id ≡ get_schema d j s source_id
      → accepted d j source_id s' events ≡ accepted d j source_id s events
  unfolding accepted validate_event
  accepted-stable s s' [] e = refl
  accepted-stable s s' (event ∷ events) e =
      ap₂
        (λ r l.
          keep_ok (map_err storage r >>= λ registered. validate_registered d j registered event)
            event l)
        e (accepted-stable s s' events e)

  schema-pass :
      (p : Task) (out : Option ChangeEvent)
      → get_schema d j (pass d j key_text transform source_id p out).store source_id
        ≡ get_schema d j p.store source_id
  schema-pass p none = refl
  schema-pass p (some event) = (buffered-Kept p event).schema

  pub schema-judge :
      (p : Task) (event : ChangeEvent) (r : Result (Fault d j) (Unit {0}))
      → get_schema d j (judge d j key_text transform source_id p event r).store source_id
        ≡ get_schema d j p.store source_id
  unfolding watermarked
  schema-judge p event (ok u) =
      let w = process_replication_event key_text p.watermark_engine event in
      schema-pass (record p { watermark_engine = w.0 }) w.1
  schema-judge p event (err e) = refl

-- What is followed of a task: a list that is read off what it has sent and its dead letters, to which
-- the delivery of mutations adds by the mutations alone, and a refused event nothing.
pub record Observed (d : Database) (j : Serde) (key_text : Value → Text) {T : Type 0}
    (transform : ChangeEvent → Result T ChangeEvent) (source_id : Text) : Type 1 where
  pub Item : Type 0
  pub observe : List ChangeEvent → List (DlqRecord (Fault d j) T) → List Item
  pub added : List ChangeEvent → List Item
  pub added-nil : added [] ≡ []
  pub added-append : (xs ys : List ChangeEvent) → added (xs ++ ys) ≡ added xs ++ added ys
  pub delivered :
      (p : P d j key_text transform source_id) (ms : List ChangeEvent)
      → (let q = deliver d j key_text transform source_id p ms in observe q.sent q.dead_letters)
        ≡ observe p.sent p.dead_letters ++ added ms
  pub judged :
      (p : P d j key_text transform source_id) (event : ChangeEvent) (e : Fault d j)
      → observe p.sent (
          p.dead_letters
          ++ record { failed_event = event; error_reason = schema_validation e } ∷ [])
        ≡ observe p.sent p.dead_letters

module _ (d : Database) (j : Serde) (key_text : Value → Text) {T : Type 0}
    (transform : ChangeEvent → Result T ChangeEvent) (source_id : Text)
    (o : Observed d j key_text transform source_id) where
  abbrev S : Type 0
  S = Task d j key_text transform source_id

  abbrev pub observed : S → List o.Item
  observed p = o.observe p.sent p.dead_letters

  -- What is observed once further events have come out of each stage.
  abbrev pub after_buffer : S → List ChangeEvent → List o.Item
  after_buffer p events = observed p ++ o.added (buffer_run p.tx_buffer events).1

  abbrev pub after_watermark : S → List ChangeEvent → List o.Item
  after_watermark p events = after_buffer p (watermark_run key_text p.watermark_engine events).1

  abbrev pub after_schema : S → List ChangeEvent → List o.Item
  after_schema p events = after_watermark p (accepted d j source_id p.store events)

  pub after_buffer-buffered :
      (p : S) (event : ChangeEvent) (events : List ChangeEvent)
      → after_buffer (buffered d j key_text transform source_id p event) events
        ≡ after_buffer p (event ∷ events)
  unfolding buffered buffer_run
  after_buffer-buffered p event events =
      let q : S = record p { tx_buffer = (process p.tx_buffer event).0 } in
      let ms : List ChangeEvent = (process p.tx_buffer event).1 in
      let rest : List ChangeEvent = (buffer_run q.tx_buffer events).1 in
      ap₂ (λ b s. s ++ o.added (buffer_run b events).1)
        (deliver-Kept d j key_text transform source_id q ms).buffer (o.delivered q ms)
      ∙ append_assoc (observed p) (o.added ms) (o.added rest)
      ∙ ap (λ l. observed p ++ l) (sym (o.added-append ms rest))

  after_buffer-pass :
      (p : S) (out : Option ChangeEvent) (events : List ChangeEvent)
      → after_buffer (pass d j key_text transform source_id p out) events
        ≡ after_buffer p (keep_some out events)
  after_buffer-pass p none events = refl
  after_buffer-pass p (some event) events = after_buffer-buffered p event events

  after_watermark-watermarked :
      (p : S) (event : ChangeEvent) (events : List ChangeEvent)
      → after_watermark (watermarked d j key_text transform source_id p event) events
        ≡ after_watermark p (event ∷ events)
  unfolding watermarked watermark_run
  after_watermark-watermarked p event events =
      let w = process_replication_event key_text p.watermark_engine event in
      let q : S = record p { watermark_engine = w.0 } in
      ap
        (λ e.
          after_buffer (pass d j key_text transform source_id q w.1)
            (watermark_run key_text e events).1)
        (engine-pass d j key_text transform source_id q w.1)
      ∙ after_buffer-pass q w.1 (watermark_run key_text w.0 events).1
      ∙ ap (after_buffer p) (keep_some-elim w.1 (watermark_run key_text w.0 events).1)

  after_watermark-judge :
      (p : S) (event : ChangeEvent) (r : Result (Fault d j) (Unit {0})) (events : List ChangeEvent)
      → after_watermark (judge d j key_text transform source_id p event r) events
        ≡ after_watermark p (keep_ok r event events)
  after_watermark-judge p event (ok u) events = after_watermark-watermarked p event events
  after_watermark-judge p event (err e) events =
      ap
        (λ l.
          l
          ++ o.added
              (buffer_run p.tx_buffer (watermark_run key_text p.watermark_engine events).1).1)
        (o.judged p event e)

  pub after_schema-validated :
      (p : S) (event : ChangeEvent) (events : List ChangeEvent)
      → after_schema (validated d j key_text transform source_id p event) events
        ≡ after_schema p (event ∷ events)
  unfolding validated accepted
  after_schema-validated p event events =
      let r = validate_event d j p.store source_id event in
      ap (after_watermark (judge d j key_text transform source_id p event r)) (
        accepted-stable d j key_text transform source_id p.store
          (judge d j key_text transform source_id p event r).store events
          (schema-judge d j key_text transform source_id p event r))
      ∙ after_watermark-judge p event r (accepted d j source_id p.store events)
