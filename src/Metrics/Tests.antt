-- ===== src/Metrics/Tests.antt =====
-- Two tasks that count at once.
use caminus.Prelude.{List, [], ◌∷◌}
use mathlib.Core.List.Perm
use caminus.Text.Decimal.{to_string}
use caminus.Metrics.Defs.{new, response}
use caminus.Metrics.Counts.{Update, ingested, latency_added, latency_counted, apply_all, sums}
use caminus.Metrics.Answers.{Shows, response-interleaved}

abbrev one_order : List Update
one_order = latency_added 500 ∷ ingested ∷ latency_counted ∷ []

abbrev other_order : List Update
other_order = ingested ∷ latency_added 500 ∷ latency_counted ∷ []

response-interleaved_example :
    Shows to_string (sums new other_order) (response to_string (apply_all new one_order))
response-interleaved_example =
    response-interleaved to_string one_order other_order
      (Perm.swap ingested (latency_added 500) (latency_counted ∷ []))
