-- ===== src/Metrics/Defs.antt =====
-- `MetricsRegistry`: five counters of 64 bits, which all tasks share. How the sum of the latencies is
-- printed in seconds, as a float, is a parameter.
use caminus.Prelude.{ℕ, ◌+◌, ◌%◌, ◌^◌, List, [], ◌∷◌, ◌++◌, length}
use caminus.Text.Defs.{Text, codes}
use caminus.Text.Decimal.{to_string}

pub record Metrics : Type 0 where
  pub events_ingested : ℕ
  pub events_processed : ℕ
  pub duplicates_filtered : ℕ
  pub processing_latency_sum_us : ℕ
  pub processing_latency_count : ℕ

abbrev pub new : Metrics
new = record {
  events_ingested = 0;
  events_processed = 0;
  duplicates_filtered = 0;
  processing_latency_sum_us = 0;
  processing_latency_count = 0;
}

-- `fetch_add` of an `AtomicU64`.
abbrev pub fetch_add : ℕ → ℕ → ℕ
fetch_add by counter = (counter + by) % 2 ^ 64

unfoldable pub increment_ingested : Metrics → Metrics
increment_ingested m = record m { events_ingested = fetch_add 1 m.events_ingested }

unfoldable pub increment_processed : Metrics → Metrics
increment_processed m = record m { events_processed = fetch_add 1 m.events_processed }

unfoldable pub increment_duplicates : Metrics → Metrics
increment_duplicates m = record m { duplicates_filtered = fetch_add 1 m.duplicates_filtered }

-- The two additions of `record_latency`, between which other tasks may run.
unfoldable pub add_latency : ℕ → Metrics → Metrics
add_latency duration_us m = record m {
  processing_latency_sum_us = fetch_add duration_us m.processing_latency_sum_us;
}

unfoldable pub count_latency : Metrics → Metrics
count_latency m = record m { processing_latency_count = fetch_add 1 m.processing_latency_count }

abbrev pub lines : List Text → Text
lines [] = []
lines (line ∷ rest) = line ++ (10 ∷ lines rest)

module _ (seconds : ℕ → Text) where
  unfoldable pub rendered : Metrics → List Text
  rendered m =
      codes "# HELP caminus_events_ingested_total Total events ingested by the sources."
      ∷ codes "# TYPE caminus_events_ingested_total counter"
      ∷ (codes "caminus_events_ingested_total " ++ to_string m.events_ingested)
      ∷ codes
          "# HELP caminus_events_processed_total Total events successfully processed and dispatched."
      ∷ codes "# TYPE caminus_events_processed_total counter"
      ∷ (codes "caminus_events_processed_total " ++ to_string m.events_processed)
      ∷ codes
          "# HELP caminus_duplicates_filtered_total Total duplicate events filtered out by deduplication."
      ∷ codes "# TYPE caminus_duplicates_filtered_total counter"
      ∷ (codes "caminus_duplicates_filtered_total " ++ to_string m.duplicates_filtered)
      ∷ codes
          "# HELP caminus_processing_latency_seconds_sum Latency sum of processing events in seconds."
      ∷ codes "# TYPE caminus_processing_latency_seconds_sum counter"
      ∷ (codes "caminus_processing_latency_seconds_sum " ++ seconds m.processing_latency_sum_us)
      ∷ codes
          "# HELP caminus_processing_latency_seconds_count Count of events processed for latency."
      ∷ codes "# TYPE caminus_processing_latency_seconds_count counter"
      ∷ (codes "caminus_processing_latency_seconds_count " ++ to_string m.processing_latency_count)
      ∷ []

  unfoldable pub render : Metrics → Text
  unfolding rendered
  render m = lines (rendered m)

  abbrev crlf : List Text → Text
  crlf [] = []
  crlf (line ∷ rest) = line ++ (13 ∷ 10 ∷ crlf rest)

  -- The head of the answer to any request, and the answer.
  abbrev pub response_head : ℕ → Text
  response_head content_length = crlf (
      codes "HTTP/1.1 200 OK"
      ∷ codes "Content-Type: text/plain; version=0.0.4; charset=utf-8"
      ∷ (codes "Content-Length: " ++ to_string content_length)
      ∷ codes "Connection: close"
      ∷ []
      ∷ [])

  unfoldable pub response : Metrics → Text
  response m = response_head (length (render m)) ++ render m
