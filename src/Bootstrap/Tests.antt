-- ===== src/Bootstrap/Tests.antt =====
-- The first six events of the Postgres stream.
use caminus.Prelude.{
  inl, ℕ, zero, suc, ◌*◌, ◌^◌, ◌<◌, ◌≡◌, refl, ap, true, List, [], ◌∷◌, map, length, All, arith,
}
use caminus.Prelude.Fallible.{ok}
use caminus.Text.Defs.{Text}
use caminus.Event.{ChangeEvent}
use caminus.Limiter.Instances.{billionths_floors}
use caminus.Source.Postgres.{event_at, next_event}
use caminus.Source.Resume.{to_string-utf8}
use caminus.Source.Connection.{PostgresSourceError}
use caminus.Simulation.Defs.{source_name, stream}
use caminus.Worker.World.{postgres}
use caminus.Worker.Defs.{Turn}
use caminus.Worker.Items.{item}
use caminus.Worker.Served.{IsTimed}
use caminus.Bootstrap.Defs.{Launch, launches}
use caminus.Bootstrap.Session.{leading, IsStreamed}
use caminus.Worker.Instances.{world, passthrough, passthrough-valid, saves}
use caminus.Worker.Lines.{deliveries, sent_lines}
use caminus.Bootstrap.Launches.{launches-exactly_once}
use caminus.Simulation.Sessions.{delivered}
use caminus.Simulation.Transactions.{timeless, transactions}
use caminus.Dict.Defs.{get}
use caminus.Storage.Store.{get_offset, get_schema}

abbrev turn : ChangeEvent → Turn world postgres
turn event = record { is_leader = true; heartbeat = 1; rounds = 1 ∷ []; event_result = ok event }

items : (events : List ChangeEvent) → map (item world postgres) (map turn events) ≡ leading events
items [] = refl
items (event ∷ events) = ap (◌∷◌ (true, ok event)) (items events)

timed : (events : List ChangeEvent) → All (IsTimed world postgres) (map turn events)
timed [] = tt
timed (event ∷ events) = (tt, timed events)

number : (clock : ℕ → ℕ) (n seq : ℕ) → length (map turn (stream next_event clock seq n)) ≡ n
unfolding stream
number clock zero seq = refl
number clock (suc n) seq = ap suc (number clock n (next_event (clock seq) seq).1)

abbrev clock : ℕ → ℕ
clock seq = seq

abbrev turns_from : ℕ → List (Turn world postgres)
turns_from seq = map turn (stream next_event clock seq 6)

six : IsStreamed world clock 6 turns_from
six = record {
  items = λ seq. items (stream next_event clock seq 6);
  number = number clock 6;
  timed = λ seq. timed (stream next_event clock seq 6);
}

abbrev no_text : PostgresSourceError → Text
no_text e = []

abbrev launch : ℕ → Launch world
launch now = record { now = now; clock = clock; count = 6; turns_from = turns_from }

passthrough-same : (now n : ℕ) → n < 2 ^ 64 → passthrough (event_at now n) ≡ ok (event_at now n)
unfolding event_at
passthrough-same now n small = rw (to_string-utf8 n) refl

-- Each launch leaves a transaction half done.
launches-exactly_once_example :
    (events : List ChangeEvent) × (deliveries
        (launches world no_text (500 * 10 ^ 9) [] (launch 0 ∷ launch 7 ∷ []))
      ≡ sent_lines world postgres events)
    × (map timeless events ≡ transactions (delivered 0 ((clock, 6) ∷ (clock, 6) ∷ [])))
unfolding get_offset get_schema get
launches-exactly_once_example =
    launches-exactly_once world billionths_floors no_text (500 * 10 ^ 9) tt passthrough-same
      passthrough-valid (saves source_name) [] (launch 0 ∷ launch 7 ∷ []) refl (inl refl)
      (omega arith) ((omega arith, six), ((omega arith, six), tt))
