-- ===== src/Simulation/Sensors.antt =====
-- The stream of the Cassandra source through the stages of its task. Its events have no transaction, so
-- that each is sent as it comes.
use caminus.Prelude.{
  ℕ, zero, suc, ◌+◌, ◌%◌, ◌^◌, ◌<◌, ◌≡◌, refl, ap, ◌∙◌, Option, some, List, [], ◌∷◌, map, Result,
  ok, arith,
}
use caminus.Text.Defs.{Text, text_beq}
use caminus.Json.Number.{Number}
use caminus.Json.Value.{null}
use caminus.Event.{ChangeEvent}
use caminus.Buffer.Defs.{TransactionBuffer, process, run as buffer_run}
use caminus.Source.Cassandra.{event_at, next_event}
use caminus.Pipeline.Checkpoint.{last_offset}
use caminus.Simulation.Defs.{stream}
use caminus.Text.Decimal.{to_string}
use caminus.Pipeline.Stages.{transformed}
use mathlib.Core.Path.{ap₂}
use caminus.Simulation.Stages.{Counts, stream-cons}
use caminus.Simulation.Filter.{AreNamed, to_string-ne}

-- An event without the time of its creation, which stands in its key too.
abbrev pub timeless : ChangeEvent → ChangeEvent
timeless event = record event { timestamp = 0; key = null }

pub last_offset-timeless :
    (before : Option Text) (events : List ChangeEvent)
    → last_offset before (map timeless events) ≡ last_offset before events
last_offset-timeless before [] = refl
last_offset-timeless before (event ∷ events) = last_offset-timeless (some event.offset) events

-- What is sent of the events of a stream, by their numbers.
module _ (kept : ℕ → ChangeEvent) where
  abbrev pub span : ℕ → ℕ → List ChangeEvent
  span k zero = []
  span k (suc n) = kept (k + 1) ∷ span (k + 1) n

module _ (reading : ℕ → Number) (rfc3339 : ℕ → Text) where
  abbrev C : ℕ → ℕ → ChangeEvent × ℕ
  C = next_event reading rfc3339

  pub next_event-Counts : Counts C (event_at reading rfc3339)
  unfolding next_event
  next_event-Counts now seq fits =
      let e : (seq + 1) % 2 ^ 64 ≡ seq + 1 = omega (arith, fits) in
      ap (λ m. (event_at reading rfc3339 now m, m)) e

  pub event_at-AreNamed : AreNamed (event_at reading rfc3339)
  unfolding text_beq event_at
  event_at-AreNamed now then a b less fits = to_string-ne a b less fits

  -- Of each event the transformation returns one that has its number as its offset, and that is given
  -- by the number but for the times.
  abbrev pub Keeps :
      {T : Type 0} → (ℕ → ChangeEvent) → (ChangeEvent → Result T ChangeEvent) → Type 0
  Keeps kept transform =
      (now n : ℕ)
      → (t : ChangeEvent) × (transform (event_at reading rfc3339 now n) ≡ ok t)
        × (timeless t ≡ kept n)
        × (t.offset ≡ to_string n)

  pub transformed-stream :
      {T : Type 0} (kept : ℕ → ChangeEvent) (transform : ChangeEvent → Result T ChangeEvent)
      → Keeps kept transform
      → (clock : ℕ → ℕ) (seq n : ℕ) → seq + n < 2 ^ 64
      → map timeless (transformed transform (stream C clock seq n)) ≡ span kept seq n
  unfolding stream transformed
  transformed-stream kept transform keeps clock seq zero fits = refl
  transformed-stream kept transform keeps clock seq (suc n) fits =
      let (t, returned, same, at) = keeps (clock seq) (seq + 1) in
      ap (λ es. map timeless (transformed transform es))
        (stream-cons C (event_at reading rfc3339) next_event-Counts clock seq n
          (omega (arith, fits)))
      ∙ rw returned (
          ap₂ (λ e es. e ∷ es) same
            (transformed-stream kept transform keeps clock (seq + 1) n (omega (arith, fits))))

  -- An event without a transaction passes the buffer.
  pub buffer_run-stream :
      (b : TransactionBuffer) (clock : ℕ → ℕ) (seq n : ℕ)
      → (buffer_run b (stream C clock seq n)).1 ≡ stream C clock seq n
  unfolding buffer_run process stream next_event event_at
  buffer_run-stream b clock seq zero = refl
  buffer_run-stream b clock seq (suc n) =
      let next : ℕ = (seq + 1) % 2 ^ 64 in
      ap (◌∷◌ (event_at reading rfc3339 (clock seq) next)) (buffer_run-stream b clock next n)
