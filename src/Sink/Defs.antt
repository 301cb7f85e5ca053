-- ===== src/Sink/Defs.antt =====
-- `serialize_event` and what the sinks do with it: the lines they print and their results. The JSON
-- of events by `simd_json`, and the texts of its errors, are parameters.
use caminus.Prelude.{List, [], ◌∷◌, ◌++◌, length, Result, ok, err, map_err}
use caminus.Text.Defs.{Text, codes}
use caminus.Event.{ChangeEvent}
use caminus.Console.{Line, kafka_sent, console, forwarded}

pub data SerializationError (X : Type 0) : Type 0 where
  simd : X → SerializationError X

pub record KafkaSink : Type 0 where
  pub brokers : Text
  pub topic : Text
  pub client_id : Text

abbrev pub new_kafka : Text → Text → Text → KafkaSink
new_kafka brokers topic client_id = record {
  brokers = brokers;
  topic = topic;
  client_id = client_id;
}

pub data KafkaSinkError : Type 0 where
  connection delivery : Text → KafkaSinkError

pub record StdoutSink : Type 0 where

pub data ForwarderSinkError : Type 0 where
  unreachable serialization : Text → ForwarderSinkError

pub record ClusterForwarderSink : Type 0 where
  pub target_cluster_id : Text
  pub target_endpoint : Text

abbrev pub new_forwarder : Text → Text → ClusterForwarderSink
new_forwarder target_cluster_id target_endpoint = record {
  target_cluster_id = target_cluster_id;
  target_endpoint = target_endpoint;
}

-- What a call prints, and what it returns.
abbrev pub Sent : Type 0 → Type 0
Sent E = List Line × Result E (Unit {0})

-- A failure returns before the line.
abbrev pub kafka_printed : KafkaSink → Result KafkaSinkError Text → Sent KafkaSinkError
kafka_printed s (ok payload) = (kafka_sent s.topic s.brokers (length payload) ∷ [], ok tt)
kafka_printed s (err e) = ([], err e)

abbrev pub forwarder_printed :
    ClusterForwarderSink → ChangeEvent → Result ForwarderSinkError Text → Sent ForwarderSinkError
forwarder_printed s event (ok serialized) = (
  forwarded event.id event.source_table_or_collection s.target_cluster_id s.target_endpoint
        (length serialized)
      ∷ [],
  ok tt,
)
forwarder_printed s event (err e) = ([], err e)

-- `unwrap_or_else`
abbrev pub or_text : {E : Type 0} → Text → Result E Text → Text
or_text default (ok text) = text
or_text default (err e) = default

module _ {X : Type 0} (to_string : ChangeEvent → Result X Text) (error_text : X → Text) where
  unfoldable pub serialize_event : ChangeEvent → Result (SerializationError X) Text
  serialize_event event = map_err simd (to_string event)

  -- `e.to_string()`
  abbrev pub display : SerializationError X → Text
  display (simd e) = codes "simd-json serialization error: " ++ error_text e

  unfoldable pub send_kafka : KafkaSink → ChangeEvent → Sent KafkaSinkError
  send_kafka s event = kafka_printed s (map_err (λ e. delivery (display e)) (serialize_event event))

  unfoldable pub send_stdout : StdoutSink → ChangeEvent → Sent ⊥
  send_stdout s event =
      (console (or_text (codes "Serialization error") (serialize_event event)) ∷ [], ok tt)

  unfoldable pub send_forwarder : ClusterForwarderSink → ChangeEvent → Sent ForwarderSinkError
  send_forwarder s event =
      forwarder_printed s event (map_err (λ e. serialization (display e)) (serialize_event event))
