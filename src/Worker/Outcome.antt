-- ===== src/Worker/Outcome.antt =====
-- What a worker has printed and counted at the end of its run.
use caminus.Prelude.{◌≡◌, refl, sym, ap, subst, List, [], length}
use mathlib.Core.List.{filter_map}
use caminus.Pipeline.Defs as Task
use caminus.Worker.World.{World, Labels}
use caminus.Worker.Defs.{Turn, validated, buffered_cassandra, run}
use caminus.Worker.Lines.{deliveries, letters, sent_lines, dead_lines}
use caminus.Worker.Shows.{W, P, task, Shows}
use caminus.Worker.Items.{served}
use caminus.Worker.Runs.{RefinesAny, postgres-Refines, cassandra-Refines}

module _ (world : World) (labels : Labels) where
  open world use {database, serde, key_text, transform, to_string}

  -- The log of the worker has, in order, the lines of what the task has sent, and those of its dead
  -- letters, the counter is the number of what it has sent, and the store is the task's.
  pub record Accounts (w : W world labels) (p : P world labels) : Type 0 where
    pub of_deliveries : deliveries w.printed ≡ sent_lines world labels p.sent
    pub of_letters : letters w.printed ≡ dead_lines world labels p.dead_letters
    pub counted : w.throughput ≡ length p.sent
    pub stored : w.store ≡ p.store

  Accounts-of_Refines :
      (w : W world labels) (p : P world labels) → RefinesAny world labels w p → Accounts w p
  Accounts-of_Refines w p (limiter, (sent, ls, same, s)) = subst (Accounts w) (sym same) (record {
    of_deliveries = s.of_deliveries;
    of_letters = s.of_letters;
    counted = s.counted;
    stored = refl;
  })

  nothing_shown :
      (w : W world labels)
      → w.printed ≡ []
      → w.throughput ≡ 0
      → Shows world labels w.limiter w [] []
  unfolding deliveries letters filter_map sent_lines dead_lines
  nothing_shown w quiet zero_count = record {
    of_deliveries = ap deliveries quiet;
    of_letters = ap letters quiet;
    counted = zero_count;
    limiter_kept = refl;
  }

  -- A worker that has printed and counted nothing, with the heartbeat, the waits for tokens, the
  -- sinks and the log, does over any turns what the Postgres task without them does over the items up
  -- to the first whose wait for a token does not end: its log has, in order, the lines of what the
  -- task has sent and those of its dead letters, its counter is the number of what the task has sent,
  -- and its store is the task's.
  pub postgres-Accounts :
      (w : W world labels) (turns : List (Turn world labels))
      → w.printed ≡ []
      → w.throughput ≡ 0
      → Accounts (run world labels (validated world labels) w turns) (
          Task.run database serde key_text transform labels.source_id
            (Task.handle_postgres database serde key_text transform labels.source_id)
            (task world labels w [] [])
            (served world labels w.limiter turns))
  postgres-Accounts w turns quiet zero_count =
      Accounts-of_Refines _ _
        (postgres-Refines world labels turns w [] [] (nothing_shown w quiet zero_count))

  -- The same of the Cassandra worker and task.
  pub cassandra-Accounts :
      (w : W world labels) (turns : List (Turn world labels))
      → w.printed ≡ []
      → w.throughput ≡ 0
      → Accounts (run world labels (buffered_cassandra world labels) w turns) (
          Task.run database serde key_text transform labels.source_id
            (Task.handle_cassandra database serde key_text transform labels.source_id)
            (task world labels w [] [])
            (served world labels w.limiter turns))
  cassandra-Accounts w turns quiet zero_count =
      Accounts-of_Refines _ _
        (cassandra-Refines world labels turns w [] [] (nothing_shown w quiet zero_count))
