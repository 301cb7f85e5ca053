-- ===== src/Metrics/Answers.antt =====
-- The answer to a request for the metrics, line by line.
use caminus.Prelude.{
  ℕ, ◌≡◌, refl, sym, ap, ◌∙◌, subst, List, [], ◌∷◌, ◌++◌, append_assoc, take, drop, length,
}
use mathlib.Core.List.{Perm}
use caminus.Text.Defs.{Text, codes}
use caminus.Text.Decimal.{to_string}
use caminus.Metrics.Defs.{Metrics, new, lines, rendered, render, response_head, response}
use caminus.Metrics.Counts.{Update, apply_all, sums, apply_all-interleaved}

abbrev seconds_name : Text
seconds_name = codes "caminus_processing_latency_seconds_sum"

-- A line of the answer, with all that is before it and all that comes after it.
abbrev pub HasLine : Text → Text → Text → Type 0
HasLine answer name value =
    (before after : Text) × (answer ≡ before ++ 10 ∷ (name ++ 32 ∷ (value ++ 10 ∷ after)))

-- Each counter is shown under its name, and the sum of the latencies in seconds.
pub record Shows (seconds : ℕ → Text) (m : Metrics) (answer : Text) : Type 0 where
  pub ingested_shown :
      HasLine answer (codes "caminus_events_ingested_total") (to_string m.events_ingested)
  pub processed_shown :
      HasLine answer (codes "caminus_events_processed_total") (to_string m.events_processed)
  pub duplicates_shown :
      HasLine answer (codes "caminus_duplicates_filtered_total") (to_string m.duplicates_filtered)
  pub sum_shown : HasLine answer seconds_name (seconds m.processing_latency_sum_us)
  pub count_shown :
      HasLine answer
        (codes "caminus_processing_latency_seconds_count")
        (to_string m.processing_latency_count)

lines-append : (xs ys : List Text) → lines (xs ++ ys) ≡ lines xs ++ lines ys
lines-append [] ys = refl
lines-append (x ∷ xs) ys =
    ap (λ rest. x ++ (10 ∷ rest)) (lines-append xs ys)
    ∙ sym (append_assoc x (10 ∷ lines xs) (lines ys))

-- A line that another line is before.
has_line :
    (head : Text) (pre : List Text) (x name value : Text) (rest : List Text)
    → HasLine (head ++ lines (pre ++ x ∷ (name ++ (32 ∷ value)) ∷ rest)) name value
has_line head pre x name value rest = (
  head ++ (lines pre ++ x),
  lines rest,
  ap (λ t. head ++ t)
        (lines-append pre (x ∷ (name ++ (32 ∷ value)) ∷ rest)
          ∙ ap (λ t. lines pre ++ (x ++ (10 ∷ t)))
              (append_assoc name (32 ∷ value) (10 ∷ lines rest))
          ∙ sym (append_assoc (lines pre) x _))
      ∙ sym (append_assoc head (lines pre ++ x) _),
)

module _ (seconds : ℕ → Text) (m : Metrics) where
  abbrev answer_head : Text
  answer_head = response_head seconds (length (render seconds m))

  -- The line of the k-th counter, after the lines that come before it.
  shown :
      (k : ℕ) (x name value : Text) (rest : List Text)
      → take k (rendered seconds m) ++ x ∷ (name ++ (32 ∷ value)) ∷ rest ≡ rendered seconds m
      → HasLine (response seconds m) name value
  unfolding response render
  shown k x name value rest e =
      subst (λ ls. HasLine (answer_head ++ lines ls) name value) e
        (has_line answer_head (take k (rendered seconds m)) x name value rest)

  response-Shows : Shows seconds m (response seconds m)
  unfolding rendered
  response-Shows = record {
    ingested_shown =
        shown 1 _ (codes "caminus_events_ingested_total") (to_string m.events_ingested)
          (drop 3 (rendered seconds m)) refl;
    processed_shown =
        shown 4 _ (codes "caminus_events_processed_total") (to_string m.events_processed)
          (drop 6 (rendered seconds m)) refl;
    duplicates_shown =
        shown 7 _ (codes "caminus_duplicates_filtered_total") (to_string m.duplicates_filtered)
          (drop 9 (rendered seconds m)) refl;
    sum_shown =
        shown 10 _ seconds_name (seconds m.processing_latency_sum_us) (drop 12 (rendered seconds m))
          refl;
    count_shown =
        shown 13 _ (codes "caminus_processing_latency_seconds_count")
          (to_string m.processing_latency_count) (drop 15 (rendered seconds m)) refl;
  }

-- However the additions of the tasks to the counters interleave, the answer to a request after them
-- has for each counter a line with its name and the sum of what was added to it, modulo 2 ^ 64, which
-- for the latencies is printed in seconds.
pub response-interleaved :
    (seconds : ℕ → Text) (updates updates' : List Update)
    → Perm updates updates'
    → Shows seconds (sums new updates') (response seconds (apply_all new updates))
response-interleaved seconds updates updates' p =
    subst (λ m. Shows seconds m (response seconds (apply_all new updates)))
      (apply_all-interleaved updates updates' p) (response-Shows seconds (apply_all new updates))
