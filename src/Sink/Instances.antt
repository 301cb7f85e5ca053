-- ===== src/Sink/Instances.antt =====
-- The trait `CdcSink` and its three implementations.
use caminus.Prelude.{Result}
use caminus.Text.Defs.{Text}
use caminus.Event.{ChangeEvent}
use caminus.Sink.Defs.{
  KafkaSink, KafkaSinkError, StdoutSink, ClusterForwarderSink, ForwarderSinkError, Sent, send_kafka,
  send_stdout, send_forwarder,
}

pub record CdcSink (S : Type 0) : Type 1 where
  pub Error : Type 0
  pub send : S → ChangeEvent → Sent Error

module _ {X : Type 0} (to_string : ChangeEvent → Result X Text) (error_text : X → Text) where
  abbrev pub kafka : CdcSink KafkaSink
  kafka = record { Error = KafkaSinkError; send = send_kafka to_string error_text }

  abbrev pub stdout : CdcSink StdoutSink
  stdout = record { Error = ⊥; send = send_stdout to_string error_text }

  abbrev pub forwarder : CdcSink ClusterForwarderSink
  forwarder = record { Error = ForwarderSinkError; send = send_forwarder to_string error_text }
