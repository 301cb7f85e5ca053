-- ===== src/Worker/Runs.antt =====
-- A run of a worker is a run of the task over the items that get a token.
use caminus.Prelude.{
  refl, sym, subst, Bool, true, false, List, [], ◌∷◌, append-nil, Result, ok, err,
}
use caminus.Event.{ChangeEvent}
use caminus.Console.{stream_error}
use caminus.Dedup.Defs.{check_and_track}
use caminus.Limiter.Bucket.{TokenBucketLimiter, acquire, Acquired, acquired, sleeping, panicked}
use caminus.Pipeline.Defs as Task
use caminus.Consensus.Failover.{record_heartbeat}
use mathlib.Core.List.{filter_map}
use caminus.Worker.World.{World, Labels}
use caminus.Worker.Defs.{
  Turn, print, buffered_cassandra, validated, unless_duplicate, handle, answered, admitted,
  led_turn, take_turn, while_going, run,
}
use caminus.Worker.Lines.{deliveries, letters, dead_lines}
use caminus.Worker.Items.{granted, or_kept, serve, served}
use caminus.Worker.Shows.{W, P, Letters, task, Shows, Refines, same_log, with_limiter, print-Shows}
use caminus.Worker.Stages.{buffered_cassandra-Refines, validated-Refines}

module _ (world : World) (labels : Labels) where
  open world use {database, serde, float, key_text, StreamError, transform, stream_text}

  -- The limiter is any.
  abbrev pub RefinesAny : W world labels → P world labels → Type 0
  RefinesAny w p = (limiter : TokenBucketLimiter float) × Refines world labels limiter w p

  module _ (next : W world labels → ChangeEvent → W world labels)
      (onward : P world labels → ChangeEvent → P world labels)
      (refines : (limiter : TokenBucketLimiter float) (w : W world labels) (sent : List ChangeEvent)
          (ls : Letters world labels) (event : ChangeEvent)
        → Shows world labels limiter w sent ls
        → Refines world labels limiter
            (next w event)
            (onward (task world labels w sent ls) event)) where
    -- What the task does with an event.
    abbrev task_handle : P world labels → ChangeEvent → P world labels
    task_handle p event =
        let checked = check_and_track p.dedup_filter event.id in
        Task.unless_duplicate database serde key_text transform labels.source_id onward
          (record p { dedup_filter = checked.0 }) event checked.1

    abbrev task_run : P world labels → List (Bool × Result StreamError ChangeEvent) → P world labels
    task_run = Task.run database serde key_text transform labels.source_id task_handle

    unless_duplicate-Refines :
        (limiter : TokenBucketLimiter float) (w : W world labels) (sent : List ChangeEvent)
        (ls : Letters world labels) (event : ChangeEvent) (duplicate : Bool)
        → Shows world labels limiter w sent ls
        → Refines world labels limiter (unless_duplicate world labels next w event duplicate) (
            Task.unless_duplicate database serde key_text transform labels.source_id onward
              (task world labels w sent ls)
              event
              duplicate)
    unless_duplicate-Refines limiter w sent ls event true s = (sent, ls, refl, s)
    unless_duplicate-Refines limiter w sent ls event false s = refines limiter w sent ls event s

    handle-Refines :
        (limiter : TokenBucketLimiter float) (w : W world labels) (sent : List ChangeEvent)
        (ls : Letters world labels) (event : ChangeEvent)
        → Shows world labels limiter w sent ls
        → Refines world labels limiter
            (handle world labels next w event)
            (task_handle (task world labels w sent ls) event)
    unfolding handle
    handle-Refines limiter w sent ls event s =
        let checked = check_and_track w.dedup_filter event.id in
        unless_duplicate-Refines limiter (record w { dedup_filter = checked.0 }) sent ls event
          checked.1 (same_log world labels limiter s)

    -- What is to be shown of a run, from a worker with its own limiter.
    abbrev Follows : List (Turn world labels) → Type 0
    Follows turns =
        (w : W world labels) (sent : List ChangeEvent) (ls : Letters world labels)
        → Shows world labels w.limiter w sent ls
        → RefinesAny (run world labels next w turns)
            (task_run (task world labels w sent ls) (served world labels w.limiter turns))

    from_any :
        (turns : List (Turn world labels)) (limiter : TokenBucketLimiter float) (w : W world labels)
        (p : P world labels)
        → Follows turns
        → Refines world labels limiter w p
        → RefinesAny
            (run world labels next w turns)
            (task_run p (served world labels limiter turns))
    from_any turns limiter w p follows (sent, ls, same, s) =
        let (l, refined) = follows w sent ls (with_limiter world labels s) in
        subst
          (λ q.
            RefinesAny (run world labels next w turns)
              (task_run q (served world labels limiter turns)))
          (sym same)
          (subst
            (λ b.
              RefinesAny (run world labels next w turns)
                (task_run (task world labels w sent ls) (served world labels b turns)))
            s.limiter_kept (l, refined))

    error_printed :
        (w : W world labels) (sent : List ChangeEvent) (ls : Letters world labels) (e : StreamError)
        → Shows world labels w.limiter w sent ls
        → Shows world labels w.limiter
            (print world labels (stream_error labels.source_words (stream_text e) ∷ []) w)
            sent
            ls
    unfolding deliveries letters filter_map
    error_printed w sent ls e s =
        print-Shows world labels w.limiter w sent ls ls
          (stream_error labels.source_words (stream_text e) ∷ []) refl
          (append-nil (dead_lines world labels ls)) s

    answered-Refines :
        (turns : List (Turn world labels)) (w : W world labels) (sent : List ChangeEvent)
        (ls : Letters world labels) (r : Result StreamError ChangeEvent)
        → Follows turns
        → Shows world labels w.limiter w sent ls
        → (let taken = answered world labels next w r in
            RefinesAny (while_going world labels taken (run world labels next taken.0 turns)) (
              task_run
                (task world labels w sent ls)
                ((true, r) ∷ served world labels w.limiter turns)))
    unfolding Task.run
    answered-Refines turns w sent ls (ok event) follows s =
        from_any turns w.limiter (handle world labels next w event)
          (task_handle (task world labels w sent ls) event) follows
          (handle-Refines w.limiter w sent ls event s)
    answered-Refines turns w sent ls (err e) follows s =
        (w.limiter, (sent, ls, refl, error_printed w sent ls e s))

    admitted-Refines :
        (turns : List (Turn world labels)) (w : W world labels) (sent : List ChangeEvent)
        (ls : Letters world labels) (turn : Turn world labels) (bucket : Acquired float)
        → Follows turns
        → Shows world labels w.limiter w sent ls
        → (let taken =
              admitted world labels next
                (record w { failover = record_heartbeat turn.heartbeat w.failover })
                turn
                bucket in
            RefinesAny (while_going world labels taken (run world labels next taken.0 turns)) (
              task_run (task world labels w sent ls) (
                serve world labels true turn.event_result bucket
                  (served world labels (or_kept world labels w.limiter bucket) turns))))
    unfolding Task.run
    admitted-Refines turns w sent ls turn (sleeping limiter) follows s =
        (limiter, (sent, ls, refl, with_limiter world labels s))
    admitted-Refines turns w sent ls turn (panicked limiter) follows s =
        (limiter, (sent, ls, refl, with_limiter world labels s))
    admitted-Refines turns w sent ls turn (acquired limiter) follows s =
        answered-Refines turns
          (record w { failover = record_heartbeat turn.heartbeat w.failover; limiter = limiter })
          sent ls turn.event_result follows (with_limiter world labels s)

    led_turn-Refines :
        (turns : List (Turn world labels)) (w : W world labels) (sent : List ChangeEvent)
        (ls : Letters world labels) (turn : Turn world labels) (leader : Bool)
        → Follows turns
        → Shows world labels w.limiter w sent ls
        → (let taken = led_turn world labels next w turn leader in
            let bucket = granted world labels w.limiter turn leader in
            RefinesAny (while_going world labels taken (run world labels next taken.0 turns)) (
              task_run (task world labels w sent ls) (
                serve world labels leader turn.event_result bucket
                  (served world labels (or_kept world labels w.limiter bucket) turns))))
    unfolding Task.run
    led_turn-Refines turns w sent ls turn false follows s = follows w sent ls s
    led_turn-Refines turns w sent ls turn true follows s =
        admitted-Refines turns w sent ls turn (acquire float turn.rounds 1 w.limiter) follows s

    run-Refines : (turns : List (Turn world labels)) → Follows turns
    unfolding run take_turn served Task.run
    run-Refines [] w sent ls s = (w.limiter, (sent, ls, refl, s))
    run-Refines (turn ∷ turns) w sent ls s =
        led_turn-Refines turns w sent ls turn turn.is_leader (run-Refines turns) s

  -- What the Postgres worker does and prints, the Postgres task does and sends over the items served.
  pub postgres-Refines :
      (turns : List (Turn world labels)) (w : W world labels) (sent : List ChangeEvent)
      (ls : Letters world labels)
      → Shows world labels w.limiter w sent ls
      → RefinesAny (run world labels (validated world labels) w turns) (
          Task.run database serde key_text transform labels.source_id
            (Task.handle_postgres database serde key_text transform labels.source_id)
            (task world labels w sent ls)
            (served world labels w.limiter turns))
  unfolding Task.handle_postgres
  postgres-Refines =
      run-Refines (validated world labels)
        (Task.validated database serde key_text transform labels.source_id)
        (validated-Refines world labels)

  -- The same of the Cassandra worker.
  pub cassandra-Refines :
      (turns : List (Turn world labels)) (w : W world labels) (sent : List ChangeEvent)
      (ls : Letters world labels)
      → Shows world labels w.limiter w sent ls
      → RefinesAny (run world labels (buffered_cassandra world labels) w turns) (
          Task.run database serde key_text transform labels.source_id
            (Task.handle_cassandra database serde key_text transform labels.source_id)
            (task world labels w sent ls)
            (served world labels w.limiter turns))
  unfolding Task.handle_cassandra
  cassandra-Refines =
      run-Refines (buffered_cassandra world labels)
        (Task.buffered database serde key_text transform labels.source_id)
        (buffered_cassandra-Refines world labels)
