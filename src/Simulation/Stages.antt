-- ===== src/Simulation/Stages.antt =====
-- The events of the stream pass the schema and the watermark engine.
use caminus.Prelude.{
  ℕ, zero, suc, ◌+◌, ◌%◌, ◌^◌, ◌<◌, ◌≡◌, refl, sym, subst, ap, ◌∙◌, false, none, some, List, [],
  ◌∷◌, Result, ok, arith, nat_eq, Bool-cases, inl, inr, ◌⊎◌,
}
use caminus.Text.Defs.{Text, text_beq}
use caminus.Dict.Defs.{get}
use caminus.Json.Value.{Value, get_field, as_object, as_str, is_string, entries}
use caminus.Json.Number.{is_integral}
use caminus.Event.{ChangeEvent, operation_beq}
use caminus.Storage.Database.{Database, Serde}
use caminus.Storage.Store.{get_schema}
use caminus.Schema.Defs.{
  schema_fields, check_value, check_field, check_payload, validate_against, validate_event,
  is_integer,
}
use caminus.Watermark.Defs.{
  WatermarkSnapshotter, is_watermark_row, process_replication_event, run as watermark_run,
}
use caminus.Source.Postgres.{operation_at, row_at, event_at, next_event}
use caminus.Pipeline.Stages.{accepted, transformed, led}
use caminus.Simulation.Defs.{user_schema, source_name, stream, while_leader}

-- A commit is not validated, and the rows of all else have an integral id and a text for the name.
user_schema-accepts : (now n : ℕ) → validate_against user_schema (event_at now n) ≡ ok tt
unfolding validate_against schema_fields get_field as_object as_str entries get event_at
    operation_at row_at operation_beq check_payload check_field check_value text_beq is_integer
    is_integral is_string
user_schema-accepts now n = elim (Bool-cases (nat_eq (n % 4) 0)) [
  | inl commits ↦ rw commits refl
  | inr writes ↦ rw writes (elim (Bool-cases (nat_eq (n % 4) 1)) [
    | inl creates ↦ rw creates refl
    | inr updates ↦ rw updates refl
  ])
]

-- A stream whose step counts, below the wrap-around.
abbrev pub Counts : (ℕ → ℕ → ChangeEvent × ℕ) → (ℕ → ℕ → ChangeEvent) → Type 0
Counts next event_of =
    (now seq : ℕ) → seq + 1 < 2 ^ 64 → next now seq ≡ (event_of now (seq + 1), seq + 1)

pub stream-cons :
    (next : ℕ → ℕ → ChangeEvent × ℕ) (event_of : ℕ → ℕ → ChangeEvent)
    → Counts next event_of
    → (clock : ℕ → ℕ) (seq n : ℕ) → seq + 1 < 2 ^ 64
    → stream next clock seq (suc n) ≡ event_of (clock seq) (seq + 1) ∷ stream next clock (seq + 1) n
unfolding stream
stream-cons next event_of counts clock seq n fits =
    ap (λ yielded. yielded.0 ∷ stream next clock yielded.1 n) (counts (clock seq) seq fits)

pub next_event-Counts : Counts next_event event_at
unfolding next_event
next_event-Counts now seq fits =
    let e : (seq + 1) % 2 ^ 64 ≡ seq + 1 = omega (arith, fits) in ap (λ m. (event_at now m, m)) e

pub stream-suc :
    (clock : ℕ → ℕ) (seq n : ℕ)
    → seq + 1 < 2 ^ 64
    → stream next_event clock seq (suc n)
      ≡ event_at (clock seq) (seq + 1) ∷ stream next_event clock (seq + 1) n
stream-suc clock seq n fits = stream-cons next_event event_at next_event-Counts clock seq n fits

module _ (d : Database) (j : Serde) where
  -- No schema is registered for the source, or that of the program.
  abbrev pub IsRegistered : d.State → Type 0
  IsRegistered s =
      (get_schema d j s source_name ≡ ok none)
      ⊎ (get_schema d j s source_name ≡ ok (some user_schema))

  pub accepted-stream :
      (s : d.State) (clock : ℕ → ℕ) (seq n : ℕ)
      → IsRegistered s
      → accepted d j source_name s (stream next_event clock seq n) ≡ stream next_event clock seq n
  unfolding stream accepted next_event validate_event
  accepted-stream s clock seq zero registered = refl
  accepted-stream s clock seq (suc n) (inl unknown) =
      let next : ℕ = (seq + 1) % 2 ^ 64 in
      rw unknown
        (ap (◌∷◌ (event_at (clock seq) next)) (accepted-stream s clock next n (inl unknown)))
  accepted-stream s clock seq (suc n) (inr registered) =
      let next : ℕ = (seq + 1) % 2 ^ 64 in
      rw (registered, user_schema-accepts (clock seq) next)
        (ap (◌∷◌ (event_at (clock seq) next)) (accepted-stream s clock next n (inr registered)))

-- No row of the stream is one of the metadata table.
users_row : (now n : ℕ) → is_watermark_row (event_at now n) ≡ false
unfolding is_watermark_row event_at text_beq
users_row now n = refl

passes :
    (key_text : Value → Text) (w : WatermarkSnapshotter) (now n : ℕ)
    → (process_replication_event key_text w (event_at now n)).1 ≡ some (event_at now n)
unfolding process_replication_event
passes key_text w now n = rw (users_row now n) refl

pub watermark_run-stream :
    (key_text : Value → Text) (w : WatermarkSnapshotter) (clock : ℕ → ℕ) (seq n : ℕ)
    → (watermark_run key_text w (stream next_event clock seq n)).1 ≡ stream next_event clock seq n
unfolding stream next_event watermark_run
watermark_run-stream key_text w clock seq zero = refl
watermark_run-stream key_text w clock seq (suc n) =
    let next : ℕ = (seq + 1) % 2 ^ 64 in
    let event : ChangeEvent = event_at (clock seq) next in
    let w' : WatermarkSnapshotter = (process_replication_event key_text w event).0 in
    let outs : List ChangeEvent = (watermark_run key_text w' (stream next_event clock next n)).1 in
    ap (λ out. elim out [ none ↦ outs | some passed ↦ passed ∷ outs ])
      (passes key_text w (clock seq) next)
    ∙ ap (◌∷◌ event) (watermark_run-stream key_text w' clock next n)

-- Events of the stream, of any times.
abbrev pub AreOfStream : List ChangeEvent → Type 0
AreOfStream [] = Unit
AreOfStream (event ∷ events) =
    ((now n : ℕ) × (n < 2 ^ 64) × (event ≡ event_at now n)) × AreOfStream events

pub transformed-same :
    {T : Type 0} (transform : ChangeEvent → Result T ChangeEvent)
    → ((now n : ℕ) → n < 2 ^ 64 → transform (event_at now n) ≡ ok (event_at now n))
    → (events : List ChangeEvent) → AreOfStream events
    → transformed transform events ≡ events
unfolding transformed
transformed-same transform same [] v = refl
transformed-same transform same (event ∷ events) ((now, n, small, e), v) =
    let kept : transform event ≡ ok event =
      subst (λ x. transform x ≡ ok x) (sym e) (same now n small) in
    rw kept (ap (◌∷◌ event) (transformed-same transform same events v))

pub led-while_leader : (events : List ChangeEvent) → led (while_leader events) ≡ events
unfolding led
led-while_leader [] = refl
led-while_leader (event ∷ events) = ap (◌∷◌ event) (led-while_leader events)
