-- ===== src/DeadLetter.antt =====
-- The dead letter queue (src/resiliency/dlq.rs). The clock's reading and the JSON of events are
-- parameters.
use caminus.Prelude.{ℕ, List, [], ◌∷◌, Result, ok}
use caminus.Text.Defs.{Text, codes}
use caminus.Event.{ChangeEvent}
use caminus.Console.{Line, dead_letter}
use caminus.Sink.Defs.{or_text, serialize_event}

pub record DlqRecord : Type 0 where
  pub failed_event : ChangeEvent
  pub error_reason : Text
  pub failed_step : Text
  pub timestamp : ℕ
  pub retry_attempts : ℕ

abbrev pub new_record : ℕ → ChangeEvent → Text → Text → ℕ → DlqRecord
new_record now event error_reason failed_step retry_attempts = record {
  failed_event = event;
  error_reason = error_reason;
  failed_step = failed_step;
  timestamp = now;
  retry_attempts = retry_attempts;
}

pub record DeadLetterQueue : Type 0 where
  pub dlq_topic_or_path : Text

abbrev pub new : Text → DeadLetterQueue
new dlq_topic_or_path = record { dlq_topic_or_path = dlq_topic_or_path }

module _ {X : Type 0} (to_string : ChangeEvent → Result X Text) (error_text : X → Text) where
  -- The line it prints, and its result.
  unfoldable pub route_to_dlq : DeadLetterQueue → DlqRecord → List Line × Result Text (Unit {0})
  route_to_dlq s letter = (
    dead_letter s.dlq_topic_or_path letter.failed_step letter.retry_attempts letter.error_reason (
          or_text (codes "Failed to serialize raw event")
            (serialize_event to_string error_text letter.failed_event))
        ∷ [],
    ok tt,
  )
