-- ===== src/Simulation/Filter.antt =====
-- No event of a stream that counts is taken for a duplicate.
use caminus.Prelude.{
  ℕ, zero, suc, ◌+◌, ◌^◌, ◌<◌, ◌≡◌, refl, sym, ap, ltb, length, ◌∙◌, false, Option, some, List, [],
  ◌∷◌, arith, Bool-cases, inl, inr, false_of_not,
}
use caminus.Text.Defs.{Text, text_beq, text_beq_iff}
use caminus.Text.Decimal.{to_string, parse_u64, parse_u64-to_string}
use caminus.Event.{ChangeEvent}
use caminus.Dedup.Defs.{
  DeduplicationFilter, new, contains, check_and_track, track, evict, pop_oldest,
}
use caminus.Dedup.Invariant.{contains-remove}
use caminus.Source.Postgres.{event_at}
use caminus.Pipeline.Stages.{fresh}
use caminus.Simulation.Defs.{stream}
use caminus.Simulation.Stages.{Counts, stream-cons}

to_string-injective : (a b : ℕ) → a < 2 ^ 64 → b < 2 ^ 64 → to_string a ≡ to_string b → a ≡ b
to_string-injective a b ha hb e =
    let both : ◌≡◌ {A = Option ℕ} (some a) (some b) =
      sym (parse_u64-to_string a ha) ∙ ap parse_u64 e ∙ parse_u64-to_string b hb in
    cc both

contains-pop_oldest :
    (id : Text) (order : List Text) (f : DeduplicationFilter)
    → contains id f.processed_ids ≡ false
    → contains id (pop_oldest order f).processed_ids ≡ false
unfolding pop_oldest
contains-pop_oldest id [] f h = h
contains-pop_oldest id (oldest ∷ rest) f h =
    ground (arith, contains-remove id oldest f.processed_ids, h)

contains-evict :
    (id : Text) (f : DeduplicationFilter)
    → contains id f.processed_ids ≡ false
    → contains id (evict f).processed_ids ≡ false
unfolding evict
contains-evict id f h =
    let popped = contains-pop_oldest id f.order f h in
    elim (Bool-cases (ltb f.max_capacity (length f.order))) [
      | inl full ↦ rw full popped
      | inr room ↦ rw room h
    ]

new_event :
    (f : DeduplicationFilter) (event : ChangeEvent) (events : List ChangeEvent)
    → contains event.id f.processed_ids ≡ false
    → fresh f (event ∷ events) ≡ event ∷ fresh (evict (track event.id f)) events
unfolding fresh check_and_track
new_event f event events h = rw h refl

-- The ids of the events differ, whenever they are created.
abbrev pub AreNamed : (ℕ → ℕ → ChangeEvent) → Type 0
AreNamed event_of =
    (now then a b : ℕ)
    → a < b
    → b < 2 ^ 64
    → text_beq (event_of now a).id (event_of then b).id ≡ false

pub to_string-ne : (a b : ℕ) → a < b → b < 2 ^ 64 → text_beq (to_string a) (to_string b) ≡ false
to_string-ne a b less fits =
    false_of_not (text_beq (to_string a) (to_string b)) (text_beq_iff (to_string a) (to_string b))
      (λ e. absurd (omega (arith, to_string-injective a b (omega arith) fits e, less)))

pub event_at-AreNamed : AreNamed event_at
unfolding text_beq event_at
event_at-AreNamed now then a b less fits = to_string-ne a b less fits

module _ (next : ℕ → ℕ → ChangeEvent × ℕ) (event_of : ℕ → ℕ → ChangeEvent)
    (counts : Counts next event_of) (named : AreNamed event_of) where
  -- The ids of the events after `seq` are new to the filter.
  abbrev Awaits : ℕ → DeduplicationFilter → Type 0
  Awaits seq f =
      (now k : ℕ) → seq < k → k < 2 ^ 64 → contains (event_of now k).id f.processed_ids ≡ false

  evict-Awaits :
      (seq now : ℕ) (f : DeduplicationFilter)
      → Awaits seq f
      → Awaits (seq + 1) (evict (track (event_of now (seq + 1)).id f))
  unfolding contains
  evict-Awaits seq now f h then k later fits =
      contains-evict (event_of then k).id (track (event_of now (seq + 1)).id f)
        (ground (arith, named now then (seq + 1) k later fits, h then k (omega arith) fits))

  fresh_from :
      (f : DeduplicationFilter) (clock : ℕ → ℕ) (seq n : ℕ)
      → seq + n < 2 ^ 64
      → Awaits seq f
      → fresh f (stream next clock seq n) ≡ stream next clock seq n
  unfolding fresh stream
  fresh_from f clock seq zero fits h = refl
  fresh_from f clock seq (suc n) fits h =
      let event : ChangeEvent = event_of (clock seq) (seq + 1) in
      let f' : DeduplicationFilter = evict (track event.id f) in
      let first = stream-cons next event_of counts clock seq n (omega (arith, fits)) in
      ap (fresh f) first
      ∙ new_event f event (stream next clock (seq + 1) n)
          (h (clock seq) (seq + 1) (omega arith) (omega arith))
      ∙ ap (◌∷◌ event)
          (fresh_from f' clock (seq + 1) n (omega (arith, fits)) (evict-Awaits seq (clock seq) f h))
      ∙ sym first

  -- A new filter takes none of the events of the stream for a duplicate.
  pub fresh-stream :
      (max_capacity : ℕ) (clock : ℕ → ℕ) (seq n : ℕ)
      → seq + n < 2 ^ 64
      → fresh (new max_capacity) (stream next clock seq n) ≡ stream next clock seq n
  unfolding contains
  fresh-stream max_capacity clock seq n fits =
      fresh_from (new max_capacity) clock seq n fits (λ now k later small. refl)
