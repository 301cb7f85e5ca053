-- ===== src/Simulation/Tests.antt =====
-- The tasks through stops and a crash.
use caminus.Prelude.{none, ℕ, ◌*◌, ◌^◌, ◌<◌, ◌≡◌, refl, true, false, List, [], ◌∷◌, map, inl, arith}
use caminus.Prelude.Fallible.{ok}
use caminus.Text.Defs.{Text, codes}
use caminus.Json.Value.{Value}
use caminus.Source.Postgres.{event_at}
use caminus.Source.Cassandra.{event_at as sensor_at}
use caminus.Source.Resume.{to_string-utf8}
use caminus.Event.{ChangeEvent}
use caminus.Dict.Defs.{get}
use caminus.Storage.Store.{get_offset, get_schema}
use caminus.Storage.Instances.{memory, plain_json}
use caminus.Dedup.Defs.{new as new_filter}
use caminus.Buffer.Defs.{new as new_buffer}
use caminus.Watermark.Defs.{new as new_engine}
use caminus.Simulation.Defs.{source_name, Task, sessions}
use caminus.Simulation.Transactions.{timeless, transactions}
use caminus.Text.Decimal.{to_string}
use caminus.Json.Number.{pos_int}
use caminus.Simulation.Sensors.{timeless as sensor_timeless, Keeps}
use caminus.Simulation.Cassandra.{
  source_id, Session, sent_from, sessions as sensor_sessions, each_sent,
}
use caminus.Simulation.Sessions.{delivered, exactly_once}
use caminus.Worker.Instances.{passthrough, passthrough-valid, saves}

abbrev no_text : Value → Text
no_text v = []

passthrough-same : (now n : ℕ) → n < 2 ^ 64 → passthrough (event_at now n) ≡ ok (event_at now n)
unfolding event_at
passthrough-same now n small = rw (to_string-utf8 n) refl

abbrev at_first : Task memory plain_json no_text passthrough
at_first = record {
  tx_buffer = new_buffer;
  watermark_engine = new_engine;
  dedup_filter = new_filter 1000;
  store = [];
  sent = [];
  dead_letters = [];
}

abbrev stops : List ((ℕ → ℕ) × ℕ)
stops = ((λ seq. seq), 6) ∷ ((λ seq. 7), 0) ∷ ((λ seq. 2 * seq), 9) ∷ []

delivered-stops : delivered 0 stops ≡ 3
unfolding delivered
delivered-stops = refl

exactly_once_example :
    map timeless (sessions memory plain_json no_text passthrough at_first stops).sent
    ≡ transactions (delivered 0 stops)
unfolding get_offset get_schema get
exactly_once_example =
    exactly_once memory plain_json no_text passthrough passthrough-same passthrough-valid
      (saves source_name) at_first stops refl refl (inl refl) (omega arith)

-- The first start is cut off in the third event, which the second then sends again.
abbrev cut_sessions : List Session
cut_sessions =
    record { clock = λ seq. seq; handled = 2; is_cut = true }
    ∷ record { clock = λ seq. 7; handled = 3; is_cut = false }
    ∷ []

-- The events as they are, without times.
abbrev kept : ℕ → ChangeEvent
kept n = sensor_timeless (sensor_at pos_int to_string 0 n)

passthrough-Keeps : Keeps pos_int to_string kept passthrough
unfolding sensor_at
passthrough-Keeps now n =
    (sensor_at pos_int to_string now n, rw (to_string-utf8 n) refl, refl, refl)

sent_again :
    map (λ (e : ChangeEvent). e.offset) (sent_from kept 0 cut_sessions)
    ≡ codes "1" ∷ codes "2" ∷ codes "3" ∷ codes "3" ∷ codes "4" ∷ codes "5" ∷ []
unfolding sensor_at to_string
sent_again = refl

each_sent_example :
    map sensor_timeless
      (sensor_sessions memory plain_json no_text passthrough pos_int to_string [] cut_sessions)
    ≡ sent_from kept 0 cut_sessions
unfolding get_offset get_schema get
each_sent_example =
    each_sent memory plain_json no_text passthrough pos_int to_string kept passthrough-Keeps
      passthrough-valid (saves source_id) none [] cut_sessions refl refl (omega arith)
