-- ===== src/Simulation/Cassandra.antt =====
-- The Cassandra task (src/main.rs) through crashes.
use caminus.Prelude.{
  ℕ, zero, suc, ◌+◌, ◌^◌, ◌<◌, ◌≡◌, refl, sym, ap, ◌∙◌, subst, Bool, true, false, if◌then◌else◌,
  Option, none, some, List, [], ◌∷◌, ◌++◌, map, Result, ok, arith,
}
use mathlib.Core.Path.{ap₂}
use mathlib.Core.List.{map-append}
use caminus.Text.Defs.{Text, codes}
use caminus.Text.Utf8.{is_utf8}
use caminus.Text.Decimal.{to_string}
use caminus.Json.Number.{Number}
use caminus.Json.Value.{Value}
use caminus.Event.{ChangeEvent}
use caminus.Storage.Database.{Database, Serde}
use caminus.Storage.Store.{save_offset, get_offset, get_schema}
use caminus.Dedup.Defs.{new as new_filter}
use caminus.Watermark.Defs.{new as new_engine}
use caminus.Buffer.Defs.{new as new_buffer, run as buffer_run}
use caminus.Source.Postgres.{start_seq}
use caminus.Source.Cassandra.{event_at, next_event}
use caminus.Source.Resume.{start_seq-to_string}
use caminus.Pipeline.Defs.{Pipeline, handle_cassandra, run}
use caminus.Pipeline.Stages.{fresh, transformed}
use caminus.Pipeline.Runs.{cassandra-sent}
use caminus.Pipeline.Checkpoint.{last_offset, run_cassandra-IsCheckpointed}
use caminus.Simulation.Defs.{stream, while_leader, resumed_at}
use caminus.Simulation.Stages.{led-while_leader}
use caminus.Simulation.Filter.{fresh-stream}
use caminus.Simulation.Ready.{resumed_at-eq}
use caminus.Simulation.Sensors.{
  timeless, span, Keeps, last_offset-timeless, next_event-Counts, event_at-AreNamed,
  transformed-stream, buffer_run-stream,
}

abbrev pub source_id : Text
source_id = codes "cassandra_sensors"

-- The offset of the last of so many events.
abbrev checkpoint : ℕ → Option Text
checkpoint zero = none
checkpoint (suc k) = some (to_string (k + 1))

start_seq-checkpoint : (k : ℕ) → k < 2 ^ 64 → start_seq (checkpoint k) ≡ k
unfolding start_seq
start_seq-checkpoint zero small = refl
start_seq-checkpoint (suc k) small =
    let e : k + 1 ≡ suc k = omega arith in start_seq-to_string (k + 1) (omega (arith, small)) ∙ e

-- From a start of the program to a crash: the readings of the clock, how many events are handled as a
-- whole, and whether the crash comes when the next one was sent and its offset was not yet saved.
pub record Session : Type 0 where
  pub clock : ℕ → ℕ
  pub handled : ℕ
  pub is_cut : Bool

abbrev pub last_sent : Session → ℕ
last_sent s = if s.is_cut then s.handled + 1 else s.handled

-- What is sent when each session starts after the last event whose offset was saved.
abbrev pub sent_from : (ℕ → ChangeEvent) → ℕ → List Session → List ChangeEvent
sent_from kept k [] = []
sent_from kept k (s ∷ ss) = span kept k (last_sent s) ++ sent_from kept (k + s.handled) ss

abbrev pub total : List Session → ℕ
total [] = 0
total (s ∷ ss) = s.handled + 1 + total ss

module _ (kept : ℕ → ChangeEvent) (at : (n : ℕ) → (kept n).offset ≡ to_string n) where
  last_offset-span : (k n : ℕ) → last_offset (checkpoint k) (span kept k n) ≡ checkpoint (k + n)
  last_offset-span k zero = let e : k ≡ k + 0 = omega arith in ap checkpoint e
  last_offset-span k (suc n) =
      let e : suc k + n ≡ k + suc n = omega arith in
      let next : k + 1 ≡ suc k = omega arith in
      ap (λ o. last_offset (some o) (span kept (k + 1) n)) (at (k + 1))
      ∙ ap (λ m. last_offset (checkpoint (suc k)) (span kept m n)) next
      ∙ last_offset-span (suc k) n
      ∙ ap checkpoint e

module _ (d : Database) (j : Serde) (key_text : Value → Text) {T : Type 0}
    (transform : ChangeEvent → Result T ChangeEvent) (reading : ℕ → Number)
    (rfc3339 : ℕ → Text) where
  abbrev pub Task : Type 0
  Task = Pipeline d j key_text transform source_id

  -- The task at a start of the program. Of what was before, only the store remains.
  abbrev pub start : d.State → Task
  start store = record {
    tx_buffer = new_buffer;
    watermark_engine = new_engine;
    dedup_filter = new_filter 1000;
    store = store;
    sent = [];
    dead_letters = [];
  }

  abbrev run_from : d.State → (ℕ → ℕ) → ℕ → ℕ → Task
  run_from store clock seq n =
      run d j key_text transform source_id (handle_cassandra d j key_text transform source_id)
        (start store) (while_leader (stream (next_event reading rfc3339) clock seq n))

  -- A crash after an event, or in the next one, between its sending and the write of its offset.
  abbrev cut_off : Bool → Task → Task → Task
  cut_off false done next = done
  cut_off true done next = record next { store = done.store }

  -- The node is leader throughout.
  unfoldable pub session : d.State → Session → Task
  session store s =
      let seq = resumed_at d j source_id store in
      cut_off s.is_cut (run_from store s.clock seq s.handled)
        (run_from store s.clock seq (s.handled + 1))

  -- What all the sessions send.
  unfoldable pub sessions : d.State → List Session → List ChangeEvent
  sessions store [] = []
  sessions store (s ∷ ss) =
      let p = session store s in let later = sessions p.store ss in p.sent ++ later

  module _ (kept : ℕ → ChangeEvent) (keeps : Keeps reading rfc3339 kept transform)
      (valid : (e t : ChangeEvent) → transform e ≡ ok t → is_utf8 t.offset ≡ true)
      (saves : (s : d.State) (offset : Text)
        → (s' : d.State) × (save_offset d j s source_id offset ≡ ok s'))
      (schema : Option Value) where
    kept-offset : (n : ℕ) → (kept n).offset ≡ to_string n
    kept-offset n =
        let (t, returned, same, at) = keeps 0 n in
        sym (ap (λ (e : ChangeEvent). e.offset) same) ∙ at

    -- The checkpoint is that of the last of so many events.
    record IsAt (k : ℕ) (store : d.State) : Type 0 where
      saved : get_offset d j store source_id ≡ ok (checkpoint k)
      found : get_schema d j store source_id ≡ ok schema

    resumed-IsAt :
        (k : ℕ) (store : d.State) → k < 2 ^ 64 → IsAt k store → resumed_at d j source_id store ≡ k
    resumed-IsAt k store small at =
        resumed_at-eq d j source_id store (checkpoint k) at.saved ∙ start_seq-checkpoint k small

    run_from-sent :
        (store : d.State) (clock : ℕ → ℕ) (k n : ℕ)
        → k + n < 2 ^ 64
        → map timeless (run_from store clock k n).sent ≡ span kept k n
    run_from-sent store clock k n fits =
        let events : List ChangeEvent = stream (next_event reading rfc3339) clock k n in
        let end : List ChangeEvent → List ChangeEvent =
          λ es. transformed transform (buffer_run new_buffer es).1 in
        ap (map timeless) (
          cassandra-sent d j key_text transform source_id (start store) (while_leader events)
          ∙ ap (λ es. end (fresh (new_filter 1000) es)) (led-while_leader events)
          ∙ ap end (
              fresh-stream (next_event reading rfc3339) (event_at reading rfc3339)
                (next_event-Counts reading rfc3339) (event_at-AreNamed reading rfc3339) 1000 clock k
                n fits)
          ∙ ap (λ es. transformed transform es)
              (buffer_run-stream reading rfc3339 new_buffer clock k n))
        ∙ transformed-stream reading rfc3339 kept transform keeps clock k n fits

    run_from-IsAt :
        (store : d.State) (clock : ℕ → ℕ) (k n : ℕ)
        → k + n < 2 ^ 64
        → IsAt k store
        → IsAt (k + n) (run_from store clock k n).store
    run_from-IsAt store clock k n fits at =
        let q = run_from store clock k n in
        let c =
          run_cassandra-IsCheckpointed d j key_text transform source_id (checkpoint k) schema saves
            valid (start store) (while_leader (stream (next_event reading rfc3339) clock k n))
            record { checkpoint = at.saved; schema_kept = at.found } in
        record {
          saved =
              c.checkpoint
              ∙ ap ok (
                  sym (last_offset-timeless (checkpoint k) q.sent)
                  ∙ ap (last_offset (checkpoint k)) (run_from-sent store clock k n fits)
                  ∙ last_offset-span kept kept-offset k n);
          found = c.schema_kept;
        }

    abbrev Ends : ℕ → Session → Task → Type 0
    Ends k s p = (map timeless p.sent ≡ span kept k (last_sent s)) × IsAt (k + s.handled) p.store

    cut_off-Ends :
        (store : d.State) (s : Session) (k : ℕ) (is_cut : Bool)
        → k + s.handled + 1 < 2 ^ 64
        → IsAt k store
        → Ends k
            (record s { is_cut = is_cut })
            (cut_off is_cut
              (run_from store s.clock k s.handled)
              (run_from store s.clock k (s.handled + 1)))
    cut_off-Ends store s k false fits at = (
      run_from-sent store s.clock k s.handled (omega (arith, fits)),
      run_from-IsAt store s.clock k s.handled (omega (arith, fits)) at,
    )
    cut_off-Ends store s k true fits at = (
      run_from-sent store s.clock k (s.handled + 1) (omega (arith, fits)),
      run_from-IsAt store s.clock k s.handled (omega (arith, fits)) at,
    )

    session-Ends :
        (store : d.State) (s : Session) (k : ℕ)
        → k + s.handled + 1 < 2 ^ 64
        → IsAt k store
        → Ends k s (session store s)
    unfolding session
    session-Ends store s k fits at =
        subst
          (λ seq. Ends k s (
            cut_off s.is_cut (run_from store s.clock seq s.handled)
              (run_from store s.clock seq (s.handled + 1))))
          (sym (resumed-IsAt k store (omega (arith, fits)) at))
          (cut_off-Ends store s k s.is_cut fits at)

    sessions-sent_from :
        (store : d.State) (k : ℕ) (ss : List Session)
        → k + total ss < 2 ^ 64
        → IsAt k store
        → map timeless (sessions store ss) ≡ sent_from kept k ss
    unfolding sessions
    sessions-sent_from store k [] fits at = refl
    sessions-sent_from store k (s ∷ ss) fits at =
        let p = session store s in
        let (sent, there) = session-Ends store s k (omega (arith, fits)) at in
        map-append timeless p.sent (sessions p.store ss)
        ∙ ap₂ (λ a b. a ++ b) sent
            (sessions-sent_from p.store (k + s.handled) ss (omega (arith, fits)) there)

    -- The Cassandra task from a store without a checkpoint, in which a schema, or none, can be read for
    -- the source, with any number of starts and crashes, while the node is leader. A crash comes after
    -- any number of events, or in the next one, between its sending and the write of its offset. Each
    -- session sends the events of the stream in their order, from the one after the last whose offset
    -- was saved: none is left out, and only an event that a crash cut off is sent again, as the first
    -- of the next session. The times of the events, and the keys, which hold them, are left out of the
    -- comparison. It is assumed that the events are fewer than 2 ^ 64, with one more for each session,
    -- that every write of an offset succeeds, that the transformation returns of each event of the
    -- stream one that has its offset and that its number gives, but for the times, and that the offset
    -- of what it returns is a text.
    pub each_sent :
        (store : d.State) (ss : List Session)
        → get_offset d j store source_id ≡ ok none
        → get_schema d j store source_id ≡ ok schema
        → total ss < 2 ^ 64
        → map timeless (sessions store ss) ≡ sent_from kept 0 ss
    each_sent store ss unsaved found fits =
        sessions-sent_from store 0 ss (omega (arith, fits))
          record { saved = unsaved; found = found }
