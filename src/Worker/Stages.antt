-- ===== src/Worker/Stages.antt =====
-- Each stage of a worker does what the stage of the task does.
use caminus.Prelude.{
  refl, sym, ap, ◌∙◌, Option, none, some, List, [], ◌∷◌, ◌++◌, length-append, append-nil, Result,
  ok, err, arith,
}
use mathlib.Core.Path.{ap₂}
use caminus.Event.{ChangeEvent}
use caminus.Console.{Line}
use caminus.Schema.Defs.{Fault, validate_event}
use caminus.Buffer.Defs.{process}
use caminus.Watermark.Defs.{process_replication_event}
use caminus.Limiter.Bucket.{TokenBucketLimiter}
use caminus.Pipeline.Defs.{Pipeline, Reason, DlqRecord, schema_validation, wasm_transform}
use caminus.Pipeline.Defs as Task
use caminus.Worker.World.{World, Labels}
use caminus.Worker.Defs.{
  print, delivery_lines, schema_letter, transform_letter, deliver_as, deliver, commit_lines,
  watermark_lines, buffered_cassandra, buffered_postgres, pass, watermarked, judge, validated,
}
use caminus.Worker.Shows.{W, Letters, task, Shows, Refines, after, letter_of, same_log, print-Shows}
use caminus.Worker.Lines.{
  deliveries-append, letters-append, dead_lines, sent_lines-snoc, dead_lines-snoc,
  deliveries-delivery_lines, schema_letter-kind, transform_letter-kind, commit_lines-kind,
  watermark_lines-kind,
}

module _ (world : World) (labels : Labels) where
  open world use {database, serde, float, key_text, TransformError, transform}

  module _ (limiter : TokenBucketLimiter float) where
    deliver_as-Refines :
        (w : W world labels) (sent : List ChangeEvent) (ls : Letters world labels) (m : ChangeEvent)
        (r : Result TransformError ChangeEvent)
        → Shows world labels limiter w sent ls
        → Refines world labels limiter (deliver_as world labels w m r) (
            Task.deliver_as database serde key_text transform labels.source_id
              (task world labels w sent ls)
              m
              r)
    deliver_as-Refines w sent ls m (ok t) s =
        let (shown, no_letter) = deliveries-delivery_lines world labels t in
        (
          sent ++ t ∷ [],
          ls,
          refl,
          record {
            of_deliveries =
                deliveries-append w.printed (delivery_lines world labels t)
                ∙ ap₂ (λ xs ys. xs ++ ys) s.of_deliveries shown
                ∙ sym (sent_lines-snoc world labels sent t);
            of_letters =
                letters-append w.printed (delivery_lines world labels t)
                ∙ ap₂ (λ xs ys. xs ++ ys) s.of_letters no_letter
                ∙ append-nil (dead_lines world labels ls);
            counted = omega (arith, s.counted, length-append sent (t ∷ []));
            limiter_kept = s.limiter_kept;
          },
        )
    deliver_as-Refines w sent ls m (err e) s =
        let (none_sent, letter) = transform_letter-kind world labels m e in
        (
          sent,
          ls ++ letter_of m (wasm_transform e) ∷ [],
          refl,
          print-Shows world labels limiter w sent ls _ (transform_letter world labels m e) none_sent
              (ap (λ l. dead_lines world labels ls ++ l) letter
                ∙ sym (dead_lines-snoc world labels ls (letter_of m (wasm_transform e))))
              s,
        )

    deliver-Refines :
        (w : W world labels) (sent : List ChangeEvent) (ls : Letters world labels)
        (ms : List ChangeEvent)
        → Shows world labels limiter w sent ls
        → Refines world labels limiter (deliver world labels w ms) (
            Task.deliver database serde key_text transform labels.source_id
              (task world labels w sent ls)
              ms)
    unfolding deliver Task.deliver
    deliver-Refines w sent ls [] s = (sent, ls, refl, s)
    deliver-Refines w sent ls (m ∷ ms) s =
        after world labels
          (λ p. Task.deliver database serde key_text transform labels.source_id p ms)
          (deliver_as-Refines w sent ls m (transform m) s)
          (λ sent' ls' s'.
            deliver-Refines (deliver_as world labels w m (transform m)) sent' ls' ms s')

    pub buffered_cassandra-Refines :
        (w : W world labels) (sent : List ChangeEvent) (ls : Letters world labels)
        (event : ChangeEvent)
        → Shows world labels limiter w sent ls
        → Refines world labels limiter (buffered_cassandra world labels w event) (
            Task.buffered database serde key_text transform labels.source_id
              (task world labels w sent ls)
              event)
    unfolding buffered_cassandra Task.buffered
    buffered_cassandra-Refines w sent ls event s =
        let processed = process w.tx_buffer event in
        deliver-Refines (record w { tx_buffer = processed.0 }) sent ls processed.1
          (same_log world labels limiter s)

    pub buffered_postgres-Refines :
        (w : W world labels) (sent : List ChangeEvent) (ls : Letters world labels)
        (event : ChangeEvent)
        → Shows world labels limiter w sent ls
        → Refines world labels limiter (buffered_postgres world labels w event) (
            Task.buffered database serde key_text transform labels.source_id
              (task world labels w sent ls)
              event)
    unfolding buffered_postgres Task.buffered
    buffered_postgres-Refines w sent ls event s =
        let processed = process w.tx_buffer event in
        let (none_sent, no_letter) = commit_lines-kind world labels event processed.1 in
        let w1 : W world labels = record w { tx_buffer = processed.0 } in
        let lines : List Line = commit_lines world labels event processed.1 in
        deliver-Refines (print world labels lines w1) sent ls processed.1 (
          print-Shows world labels limiter w1 sent ls ls lines none_sent
            (ap (λ l. dead_lines world labels ls ++ l) no_letter
              ∙ append-nil (dead_lines world labels ls))
            (same_log world labels limiter s))

    pass-Refines :
        (w : W world labels) (sent : List ChangeEvent) (ls : Letters world labels)
        (out : Option ChangeEvent)
        → Shows world labels limiter w sent ls
        → Refines world labels limiter (pass world labels w out) (
            Task.pass database serde key_text transform labels.source_id
              (task world labels w sent ls)
              out)
    pass-Refines w sent ls none s = (sent, ls, refl, s)
    pass-Refines w sent ls (some event) s = buffered_postgres-Refines w sent ls event s

    judge-Refines :
        (w : W world labels) (sent : List ChangeEvent) (ls : Letters world labels)
        (event : ChangeEvent) (r : Result (Fault database serde) (Unit {0}))
        → Shows world labels limiter w sent ls
        → Refines world labels limiter (judge world labels w event r) (
            Task.judge database serde key_text transform labels.source_id
              (task world labels w sent ls)
              event
              r)
    unfolding watermarked Task.watermarked
    judge-Refines w sent ls event (ok u) s =
        let processed = process_replication_event key_text w.watermark_engine event in
        let (none_sent, no_letter) = watermark_lines-kind world labels w.watermark_engine event in
        let w1 : W world labels = record w { watermark_engine = processed.0 } in
        let lines : List Line = watermark_lines world labels w.watermark_engine event in
        pass-Refines (print world labels lines w1) sent ls processed.1 (
          print-Shows world labels limiter w1 sent ls ls lines none_sent
            (ap (λ l. dead_lines world labels ls ++ l) no_letter
              ∙ append-nil (dead_lines world labels ls))
            (same_log world labels limiter s))
    judge-Refines w sent ls event (err e) s =
        let (none_sent, letter) = schema_letter-kind world labels event e in
        (
          sent,
          ls ++ letter_of event (schema_validation e) ∷ [],
          refl,
          print-Shows world labels limiter w sent ls _ (schema_letter world labels event e)
              none_sent
              (ap (λ l. dead_lines world labels ls ++ l) letter
                ∙ sym (dead_lines-snoc world labels ls (letter_of event (schema_validation e))))
              s,
        )

    pub validated-Refines :
        (w : W world labels) (sent : List ChangeEvent) (ls : Letters world labels)
        (event : ChangeEvent)
        → Shows world labels limiter w sent ls
        → Refines world labels limiter (validated world labels w event) (
            Task.validated database serde key_text transform labels.source_id
              (task world labels w sent ls)
              event)
    unfolding validated Task.validated
    validated-Refines w sent ls event s =
        judge-Refines w sent ls event (validate_event database serde w.store labels.source_id event)
          s
