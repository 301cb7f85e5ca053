-- ===== src/Bootstrap/Launches.antt =====
-- The log of all launches of the program.
use caminus.Prelude.{
  ℕ, ◌^◌, ◌≤◌, ◌<◌, ◌≡◌, refl, sym, ap, ◌∙◌, true, none, List, [], ◌∷◌, ◌++◌, map, append-nil,
  append_assoc, All, ok, arith,
}
use mathlib.Core.Path.{ap₂}
use caminus.Text.Defs.{Text}
use caminus.Text.Utf8.{is_utf8}
use caminus.Event.{ChangeEvent}
use caminus.Storage.Store.{save_offset, get_offset}
use caminus.Limiter.Floors.{Floors}
use caminus.Source.Postgres.{event_at, next_event}
use caminus.Source.Connection.{PostgresSourceError}
use caminus.Pipeline.Defs as Task
use caminus.Pipeline.Log.{continued, run-continued}
use caminus.Simulation.Defs.{
  source_name, start, stream, while_leader, resumed_at, session, sessions,
}
use caminus.Simulation.Stages.{IsRegistered}
use caminus.Simulation.Ready.{total}
use caminus.Simulation.Transactions.{timeless, transactions}
use caminus.Simulation.Sessions.{delivered, exactly_once}
use caminus.Worker.World.{World, postgres}
use caminus.Worker.Lines.{
  deliveries, deliveries-nil, deliveries-append, sent_lines, sent_lines-append,
}
use caminus.Bootstrap.Defs.{Launch, launched, launches}
use caminus.Bootstrap.Session.{stopped, IsStreamed, postgres_task-session}

module _ (world : World) where
  open world use {database, serde, float, key_text, transform}

  abbrev Pg : Type 0
  Pg = Task.Pipeline database serde key_text transform postgres.source_id

  abbrev pub plain : Launch world → (ℕ → ℕ) × ℕ
  plain l = (l.clock, l.count)

  abbrev session_of : Pg → (ℕ → ℕ) × ℕ → Pg
  session_of = session database serde key_text transform

  -- A session that goes on adds what one adds that starts from the same store.
  session-continued :
      (p : Pg) (s : (ℕ → ℕ) × ℕ)
      → session_of p s
        ≡ continued database serde key_text transform postgres.source_id p.sent p.dead_letters
            (session_of (stopped world p.store) s)
  unfolding session
  session-continued p (clock, n) =
      let begun : Pg = start database serde key_text transform p in
      let items =
        while_leader
          (stream next_event clock (resumed_at database serde source_name begun.store) n) in
      ap₂
        (λ sent letters.
          Task.run database serde key_text transform postgres.source_id
            (Task.handle_postgres database serde key_text transform postgres.source_id)
            (record begun { sent = sent; dead_letters = letters }) items)
        (sym (append-nil p.sent)) (sym (append-nil p.dead_letters))
      ∙ run-continued database serde key_text transform postgres.source_id p.sent p.dead_letters
          items (start database serde key_text transform (stopped world p.store))

  -- Up to 1000 events of the stream, of a node that is leader throughout, with a clock that is read in
  -- every wait.
  abbrev pub IsLaunch : Launch world → Type 0
  IsLaunch l = (l.count ≤ 1000) × IsStreamed world l.clock l.count l.turns_from

  module _ (laws : Floors float) (error_text : PostgresSourceError → Text) (rate : float.F)
      (positive : laws.IsNonNegative rate) where
    launches-sessions :
        (ls : List (Launch world)) (p : Pg)
        → All IsLaunch ls
        → (events : List ChangeEvent) × ((sessions database serde key_text transform p
              (map plain ls)).sent
            ≡ p.sent ++ events)
          × (deliveries (launches world error_text rate p.store ls)
              ≡ sent_lines world postgres events)
    unfolding sessions launches sent_lines
    launches-sessions [] p are = ([], sym (append-nil p.sent), deliveries-nil)
    launches-sessions (l ∷ ls) p are =
        let w = launched world error_text rate l p.store in
        let q : Pg = session_of (stopped world p.store) (plain l) in
        let accounts =
          postgres_task-session world laws l.clock l.count l.turns_from error_text 0 l.now rate
            p.store (omega arith) positive are.0.0 are.0.1 in
        let whole = session-continued p (plain l) in
        let (events, sent, log) = launches-sessions ls (session_of p (plain l)) are.1 in
        (
          q.sent ++ events,
          sent ∙ ap (λ (r : Pg). r.sent ++ events) whole ∙ append_assoc p.sent q.sent events,
          deliveries-append w.printed (launches world error_text rate w.store ls)
              ∙ ap₂ (λ xs ys. xs ++ ys) accounts.of_deliveries
                  (ap (λ s. deliveries (launches world error_text rate s ls))
                      (accounts.stored ∙ sym (ap (λ (r : Pg). r.store) whole))
                    ∙ log)
              ∙ sym (sent_lines-append world postgres q.sent events),
        )

    -- From a store without a checkpoint for the Postgres source, in which no schema or that of the
    -- program is registered for it, the program is launched any number of times, each on the store that
    -- the last launch left. Each launch is stopped between two events, after at most 1000 of the stream,
    -- of a node that is leader throughout. Then the lines about deliveries in the log of the Postgres
    -- tasks of all launches are those of the mutations of the first transactions of the stream, each
    -- exactly once and in their order, as many transactions as were completed, up to the times of the
    -- events. A launch that ends while an event is handled is not among them. It is assumed that the
    -- launches have fewer than 2 ^ 64 events in all, that the clock is read in every wait for a token,
    -- that the rate of the limiter is not negative, that every write of an offset succeeds, that the
    -- transformation returns the events of the stream as they are, and that the offset of what it
    -- returns of any event is a text.
    pub launches-exactly_once :
        (same : (now n : ℕ) → n < 2 ^ 64 → transform (event_at now n) ≡ ok (event_at now n))
        → (valid : (e t : ChangeEvent) → transform e ≡ ok t → is_utf8 t.offset ≡ true)
        → (saves : (s : database.State) (offset : Text)
            → (s' : database.State) × (save_offset database serde s source_name offset ≡ ok s'))
        → (store : database.State) (ls : List (Launch world))
        → get_offset database serde store source_name ≡ ok none
        → IsRegistered database serde store
        → total (map plain ls) < 2 ^ 64
        → All IsLaunch ls
        → (events : List ChangeEvent) × (deliveries (launches world error_text rate store ls)
            ≡ sent_lines world postgres events)
          × (map timeless events ≡ transactions (delivered 0 (map plain ls)))
    launches-exactly_once same valid saves store ls unsaved registered fits are =
        let (events, sent, log) = launches-sessions ls (stopped world store) are in
        (
          events,
          log,
          ap (map timeless) (sym sent)
              ∙ exactly_once database serde key_text transform same valid saves
                  (stopped world store) (map plain ls) refl unsaved registered fits,
        )
