-- ===== src/Worker/Shows.antt =====
-- What the log of a worker shows, and what it is for a worker to do what a task does.
use caminus.Prelude.{◌≡◌, refl, ap, ◌∙◌, List, [], ◌++◌, length, append-nil}
use mathlib.Core.Path.{ap₂}
use caminus.Event.{ChangeEvent}
use caminus.Console.{Line}
use caminus.Schema.Defs.{Fault}
use caminus.Dedup.Defs.{DeduplicationFilter}
use caminus.Buffer.Defs.{TransactionBuffer}
use caminus.Watermark.Defs.{WatermarkSnapshotter}
use caminus.Consensus.Failover.{FailoverController}
use caminus.Limiter.Bucket.{TokenBucketLimiter}
use caminus.Pipeline.Defs.{Pipeline, Reason, DlqRecord}
use caminus.Worker.World.{World, Labels}
use caminus.Worker.Defs.{Worker, print}
use caminus.Worker.Lines.{
  deliveries, letters, deliveries-append, letters-append, sent_lines, dead_lines,
}

abbrev pub letter_of : {F T : Type 0} → ChangeEvent → Reason F T → DlqRecord F T
letter_of event reason = record { failed_event = event; error_reason = reason }

module _ (world : World) (labels : Labels) where
  open world use {database, serde, float, key_text, TransformError, transform}

  abbrev pub W : Type 0
  W = Worker world labels

  abbrev pub P : Type 0
  P = Pipeline database serde key_text transform labels.source_id

  abbrev pub Letters : Type 0
  Letters = List (DlqRecord (Fault database serde) TransformError)

  -- The task without the heartbeat, the limiter and the log, with what it is to have sent.
  abbrev pub task : W → List ChangeEvent → Letters → P
  task w sent dead_letters = record {
    tx_buffer = w.tx_buffer;
    watermark_engine = w.watermark_engine;
    dedup_filter = w.dedup_filter;
    store = w.store;
    sent = sent;
    dead_letters = dead_letters;
  }

  -- The log of the worker has exactly the lines of the events and of the dead letters, and its
  -- counter is their number.
  pub record Shows (limiter : TokenBucketLimiter float) (w : W) (sent : List ChangeEvent)
      (dead_letters : Letters) : Type 0 where
    pub of_deliveries : deliveries w.printed ≡ sent_lines world labels sent
    pub of_letters : letters w.printed ≡ dead_lines world labels dead_letters
    pub counted : w.throughput ≡ length sent
    pub limiter_kept : w.limiter ≡ limiter

  -- The task is that of the worker, with what the log shows.
  abbrev pub Refines : TokenBucketLimiter float → W → P → Type 0
  Refines limiter w p =
      (sent : List ChangeEvent) × (dead_letters : Letters) × (p ≡ task w sent dead_letters)
      × Shows limiter w sent dead_letters

  -- What holds of the task of a worker holds of one that is equal to it.
  pub after :
      {limiter : TokenBucketLimiter float} {w w' : W} {p : P} (next : P → P)
      → Refines limiter w p
      → ((sent : List ChangeEvent) (dead_letters : Letters)
          → Shows limiter w sent dead_letters
          → Refines limiter w' (next (task w sent dead_letters)))
      → Refines limiter w' (next p)
  after next (sent, dead_letters, same, shows) onward =
      let (sent', letters', same', shows') = onward sent dead_letters shows in
      (sent', letters', ap next same ∙ same', shows')

  -- The heartbeat and the bucket may be others.
  pub with_limiter :
      {l limiter : TokenBucketLimiter float} {failover : FailoverController} {w : W}
      {sent : List ChangeEvent} {ls : Letters}
      → Shows l w sent ls
      → Shows limiter (record w { failover = failover; limiter = limiter }) sent ls
  with_limiter s = record {
    of_deliveries = s.of_deliveries;
    of_letters = s.of_letters;
    counted = s.counted;
    limiter_kept = refl;
  }

  module _ (limiter : TokenBucketLimiter float) where
    -- Only the log and the counter matter.
    pub same_log :
        {w : W} {tx_buffer : TransactionBuffer} {engine : WatermarkSnapshotter}
        {filter : DeduplicationFilter} {sent : List ChangeEvent} {ls : Letters}
        → Shows limiter w sent ls
        → Shows limiter
            (record w { tx_buffer = tx_buffer; watermark_engine = engine; dedup_filter = filter })
            sent
            ls
    same_log s = record {
      of_deliveries = s.of_deliveries;
      of_letters = s.of_letters;
      counted = s.counted;
      limiter_kept = s.limiter_kept;
    }

    pub print-Shows :
        (w : W) (sent : List ChangeEvent) (ls ls' : Letters) (lines : List Line)
        → deliveries lines ≡ []
        → dead_lines world labels ls ++ letters lines ≡ dead_lines world labels ls'
        → Shows limiter w sent ls
        → Shows limiter (print world labels lines w) sent ls'
    print-Shows w sent ls ls' lines none_sent dead s = record {
      of_deliveries =
          deliveries-append w.printed lines
          ∙ ap₂ (λ xs ys. xs ++ ys) s.of_deliveries none_sent
          ∙ append-nil (sent_lines world labels sent);
      of_letters =
          letters-append w.printed lines ∙ ap (λ xs. xs ++ letters lines) s.of_letters ∙ dead;
      counted = s.counted;
      limiter_kept = s.limiter_kept;
    }
