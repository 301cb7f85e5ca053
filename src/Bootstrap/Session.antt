-- ===== src/Bootstrap/Session.antt =====
-- The Postgres task from the start of the program is a session of the simulation.
use caminus.Prelude.{
  ℕ, ◌≡◌, refl, sym, ap, ◌∙◌, subst, ◌≤◌, ◌<◌, ◌^◌, Bool, true, List, [], ◌∷◌, map, length, All,
  Result, ok, arith,
}
use caminus.Text.Defs.{Text, codes}
use caminus.Event.{ChangeEvent}
use caminus.Dedup.Defs.{new as new_filter}
use caminus.Buffer.Defs.{new as new_buffer}
use caminus.Watermark.Defs.{new as new_engine}
use caminus.Limiter.Floors.{Floors}
use caminus.Source.Postgres.{start_seq, next_event}
use caminus.Source.Connection.{PostgresSourceError, connection, start_stream_succeeds}
use caminus.Pipeline.Defs as Task
use caminus.Simulation.Defs.{stream, while_leader, resumed_at, session}
use caminus.Worker.World.{World, postgres}
use caminus.Worker.Defs.{Worker, Turn, validated, run}
use caminus.Worker.Shows.{P, task}
use caminus.Worker.Items.{served}
use caminus.Worker.Outcome.{Accounts, postgres-Accounts}
use caminus.Worker.Items.{item}
use caminus.Worker.Served.{IsTimed, served-at_first}
use caminus.Bootstrap.Defs.{new_worker, start_offset, streamed, postgres_task}

-- Events that come while the node is leader.
abbrev pub leading : {E : Type 0} → List ChangeEvent → List (Bool × Result E ChangeEvent)
leading [] = []
leading (event ∷ events) = (true, ok event) ∷ leading events

module _ (world : World) where
  open world use {database, serde, float, key_text, transform, StreamError}

  abbrev Pg : Type 0
  Pg = P world postgres

  run-leading :
      (handle : Pg → ChangeEvent → Pg) (p : Pg) (events : List ChangeEvent)
      → Task.run database serde key_text transform postgres.source_id handle p
          (leading {E = StreamError} events)
        ≡ Task.run database serde key_text transform postgres.source_id handle p
            (while_leader events)
  unfolding Task.run
  run-leading handle p [] = refl
  run-leading handle p (event ∷ events) = run-leading handle (handle p event) events

  -- Before the start of the program: of all that a task keeps, only the store matters.
  abbrev pub stopped : database.State → Pg
  stopped store = record {
    tx_buffer = new_buffer;
    watermark_engine = new_engine;
    dedup_filter = new_filter 1000;
    store = store;
    sent = [];
    dead_letters = [];
  }

  -- The turns are those of so many events of the stream, from where it starts, of a node that is
  -- leader throughout, and the clock is read for each.
  pub record IsStreamed (clock : ℕ → ℕ) (n : ℕ) (turns_from : ℕ → List (Turn world postgres))
      : Type 0 where
    pub items :
        (seq : ℕ)
        → map (item world postgres) (turns_from seq) ≡ leading (stream next_event clock seq n)
    pub number : (seq : ℕ) → length (turns_from seq) ≡ n
    pub timed : (seq : ℕ) → All (IsTimed world postgres) (turns_from seq)

  module _ (laws : Floors float) (clock : ℕ → ℕ) (n : ℕ)
      (turns_from : ℕ → List (Turn world postgres)) where
    run-Accounts :
        (now : ℕ) (rate : float.F) (store : database.State) (seq : ℕ)
        → laws.IsNonNegative rate
        → n ≤ 1000
        → IsStreamed clock n turns_from
        → Accounts world postgres
            (run world postgres
              (validated world postgres)
              (new_worker world postgres now rate store)
              (turns_from seq))
            (Task.run database serde key_text transform postgres.source_id
              (Task.handle_postgres database serde key_text transform postgres.source_id)
              (task world postgres (new_worker world postgres now rate store) [] [])
              (while_leader (stream next_event clock seq n)))
    run-Accounts now rate store seq positive few turns =
        let w : Worker world postgres = new_worker world postgres now rate store in
        let all_served : served world postgres w.limiter (turns_from seq)
            ≡ leading (stream next_event clock seq n) =
          served-at_first world postgres laws 1000 (omega arith) now rate (turns_from seq) positive
            (omega (arith, few, turns.number seq)) (turns.timed seq)
          ∙ turns.items seq in
        let handle = Task.handle_postgres database serde key_text transform postgres.source_id in
        subst
          (Accounts world postgres
            (run world postgres (validated world postgres) w (turns_from seq)))
          (ap
              (Task.run database serde key_text transform postgres.source_id handle
                (task world postgres w [] []))
              all_served
            ∙ run-leading handle (task world postgres w [] []) (stream next_event clock seq n))
          (postgres-Accounts world postgres w (turns_from seq) refl refl)

    -- From the start of the program, however often the source has tried to connect, over the first
    -- events of the stream, up to 1000, of a node that is leader throughout, with a clock that is read
    -- in every wait and a rate that is not negative: the Postgres task with its retries, its heartbeats,
    -- its waits for tokens, its sinks and its log accounts for the session of the simulation from the
    -- same store. That is, its log has the lines of the events that the session sends and of its dead
    -- letters, in order, its counter is the number of those events, and its store is the session's.
    pub postgres_task-session :
        (error_text : PostgresSourceError → Text) (attempts now : ℕ) (rate : float.F)
        (store : database.State)
        → attempts < 2 ^ 64
        → laws.IsNonNegative rate
        → n ≤ 1000
        → IsStreamed clock n turns_from
        → Accounts world postgres
            (postgres_task world error_text attempts turns_from
              (new_worker world postgres now rate store))
            (session database serde key_text transform (stopped store) (clock, n))
    unfolding postgres_task session resumed_at
    postgres_task-session error_text attempts now rate store u64 positive few turns =
        let w : Worker world postgres = new_worker world postgres now rate store in
        let offset = start_offset world postgres w.store in
        let starts =
          start_stream_succeeds (connection (codes "Simulated Postgres database outage")) attempts
            offset u64 in
        subst
          (λ r.
            Accounts world postgres
              (streamed world postgres error_text (validated world postgres) turns_from w r.0)
              (session database serde key_text transform (stopped store) (clock, n)))
          (sym starts) (run-Accounts now rate store (start_seq offset) positive few turns)
