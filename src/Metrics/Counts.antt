-- ===== src/Metrics/Counts.antt =====
-- What the counters show after the updates of all tasks.
use caminus.Prelude.{ℕ, ◌+◌, ◌%◌, ◌^◌, ◌≡◌, ◌<◌, sym, ap, ◌∙◌, List, [], ◌∷◌, arith}
use mathlib.Core.List.{Perm, foldr}
use mathlib.Core.List.Perm
use native.Mathlib.Nat.{ℕ_set}
use caminus.Metrics.Defs.{
  Metrics, new, increment_ingested, increment_processed, increment_duplicates, add_latency,
  count_latency,
}

-- An addition to a counter, by any task.
pub data Update : Type 0 where
  ingested : Update
  processed : Update
  duplicate : Update
  latency_added : ℕ → Update
  latency_counted : Update

abbrev pub apply : Metrics → Update → Metrics
apply m ingested = increment_ingested m
apply m processed = increment_processed m
apply m duplicate = increment_duplicates m
apply m (latency_added duration_us) = add_latency duration_us m
apply m latency_counted = count_latency m

unfoldable pub apply_all : Metrics → List Update → Metrics
apply_all m [] = m
apply_all m (u ∷ updates) = apply_all (apply m u) updates

-- How much an update adds to each counter, in the order of the counters.
abbrev pub Amounts : Type 0
Amounts = ℕ × (ℕ × (ℕ × (ℕ × ℕ)))

abbrev pub amounts : Update → Amounts
amounts ingested = (1, (0, (0, (0, 0))))
amounts processed = (0, (1, (0, (0, 0))))
amounts duplicate = (0, (0, (1, (0, 0))))
amounts (latency_added duration_us) = (0, (0, (0, (duration_us, 0))))
amounts latency_counted = (0, (0, (0, (0, 1))))

abbrev pub total : (Amounts → ℕ) → List Update → ℕ
total part updates = foldr (λ u n. part (amounts u) + n) 0 updates

-- The counters from the given ones, if only the sums count.
abbrev pub sums : Metrics → List Update → Metrics
sums m updates = record {
  events_ingested = (m.events_ingested + total (λ a. a.0) updates) % 2 ^ 64;
  events_processed = (m.events_processed + total (λ a. a.1.0) updates) % 2 ^ 64;
  duplicates_filtered = (m.duplicates_filtered + total (λ a. a.1.1.0) updates) % 2 ^ 64;
  processing_latency_sum_us =
      (m.processing_latency_sum_us + total (λ a. a.1.1.1.0) updates) % 2 ^ 64;
  processing_latency_count = (m.processing_latency_count + total (λ a. a.1.1.1.1) updates) % 2 ^ 64;
}

-- The counters are below their wrap-around.
record AreSmall (m : Metrics) : Type 0 where
  ingested_small : m.events_ingested < 2 ^ 64
  processed_small : m.events_processed < 2 ^ 64
  duplicates_small : m.duplicates_filtered < 2 ^ 64
  sum_small : m.processing_latency_sum_us < 2 ^ 64
  count_small : m.processing_latency_count < 2 ^ 64

same_counters :
    (m n : Metrics)
    → m.events_ingested ≡ n.events_ingested
    → m.events_processed ≡ n.events_processed
    → m.duplicates_filtered ≡ n.duplicates_filtered
    → m.processing_latency_sum_us ≡ n.processing_latency_sum_us
    → m.processing_latency_count ≡ n.processing_latency_count
    → m ≡ n
same_counters m n a b c d e = cc

sums-nil : (m : Metrics) → AreSmall m → sums m [] ≡ m
sums-nil m s =
    same_counters (sums m []) m (omega (arith, s.ingested_small)) (omega (arith, s.processed_small))
      (omega (arith, s.duplicates_small)) (omega (arith, s.sum_small))
      (omega (arith, s.count_small))

module _ (m : Metrics) (updates : List Update) where
  ingested-cons :
      (u : Update)
      → (sums (apply m u) updates).events_ingested ≡ (sums m (u ∷ updates)).events_ingested
  unfolding increment_ingested increment_processed increment_duplicates add_latency count_latency
  ingested-cons ingested = omega arith
  ingested-cons processed = omega arith
  ingested-cons duplicate = omega arith
  ingested-cons (latency_added duration_us) = omega arith
  ingested-cons latency_counted = omega arith

  processed-cons :
      (u : Update)
      → (sums (apply m u) updates).events_processed ≡ (sums m (u ∷ updates)).events_processed
  unfolding increment_ingested increment_processed increment_duplicates add_latency count_latency
  processed-cons ingested = omega arith
  processed-cons processed = omega arith
  processed-cons duplicate = omega arith
  processed-cons (latency_added duration_us) = omega arith
  processed-cons latency_counted = omega arith

  duplicates-cons :
      (u : Update)
      → (sums (apply m u) updates).duplicates_filtered ≡ (sums m (u ∷ updates)).duplicates_filtered
  unfolding increment_ingested increment_processed increment_duplicates add_latency count_latency
  duplicates-cons ingested = omega arith
  duplicates-cons processed = omega arith
  duplicates-cons duplicate = omega arith
  duplicates-cons (latency_added duration_us) = omega arith
  duplicates-cons latency_counted = omega arith

  latency_sum-cons :
      (u : Update)
      → (sums (apply m u) updates).processing_latency_sum_us
        ≡ (sums m (u ∷ updates)).processing_latency_sum_us
  unfolding increment_ingested increment_processed increment_duplicates add_latency count_latency
  latency_sum-cons ingested = omega arith
  latency_sum-cons processed = omega arith
  latency_sum-cons duplicate = omega arith
  latency_sum-cons (latency_added duration_us) = omega arith
  latency_sum-cons latency_counted = omega arith

  latency_count-cons :
      (u : Update)
      → (sums (apply m u) updates).processing_latency_count
        ≡ (sums m (u ∷ updates)).processing_latency_count
  unfolding increment_ingested increment_processed increment_duplicates add_latency count_latency
  latency_count-cons ingested = omega arith
  latency_count-cons processed = omega arith
  latency_count-cons duplicate = omega arith
  latency_count-cons (latency_added duration_us) = omega arith
  latency_count-cons latency_counted = omega arith

  sums-cons : (u : Update) → sums (apply m u) updates ≡ sums m (u ∷ updates)
  sums-cons u =
      same_counters (sums (apply m u) updates) (sums m (u ∷ updates)) (ingested-cons u)
        (processed-cons u) (duplicates-cons u) (latency_sum-cons u) (latency_count-cons u)

apply-AreSmall : (m : Metrics) (u : Update) → AreSmall m → AreSmall (apply m u)
unfolding increment_ingested increment_processed increment_duplicates add_latency count_latency
apply-AreSmall m ingested s = record {
  ingested_small = omega arith;
  processed_small = s.processed_small;
  duplicates_small = s.duplicates_small;
  sum_small = s.sum_small;
  count_small = s.count_small;
}
apply-AreSmall m processed s = record {
  ingested_small = s.ingested_small;
  processed_small = omega arith;
  duplicates_small = s.duplicates_small;
  sum_small = s.sum_small;
  count_small = s.count_small;
}
apply-AreSmall m duplicate s = record {
  ingested_small = s.ingested_small;
  processed_small = s.processed_small;
  duplicates_small = omega arith;
  sum_small = s.sum_small;
  count_small = s.count_small;
}
apply-AreSmall m (latency_added duration_us) s = record {
  ingested_small = s.ingested_small;
  processed_small = s.processed_small;
  duplicates_small = s.duplicates_small;
  sum_small = omega arith;
  count_small = s.count_small;
}
apply-AreSmall m latency_counted s = record {
  ingested_small = s.ingested_small;
  processed_small = s.processed_small;
  duplicates_small = s.duplicates_small;
  sum_small = s.sum_small;
  count_small = omega arith;
}

apply_all-sums :
    (m : Metrics) (updates : List Update) → AreSmall m → apply_all m updates ≡ sums m updates
unfolding apply_all
apply_all-sums m [] s = sym (sums-nil m s)
apply_all-sums m (u ∷ updates) s =
    apply_all-sums (apply m u) updates (apply-AreSmall m u s) ∙ sums-cons m updates u

total-Perm :
    (part : Amounts → ℕ) {updates updates' : List Update}
    → Perm updates updates'
    → total part updates ≡ total part updates'
total-Perm part p = Perm.foldr-eq ℕ_set (λ u n. part (amounts u) + n) (λ u v n. omega arith) p 0

sums-Perm :
    (m : Metrics) {updates updates' : List Update}
    → Perm updates updates'
    → sums m updates ≡ sums m updates'
sums-Perm m {updates} {updates'} p =
    same_counters (sums m updates) (sums m updates')
      (ap (λ n. (m.events_ingested + n) % 2 ^ 64) (total-Perm (λ a. a.0) p))
      (ap (λ n. (m.events_processed + n) % 2 ^ 64) (total-Perm (λ a. a.1.0) p))
      (ap (λ n. (m.duplicates_filtered + n) % 2 ^ 64) (total-Perm (λ a. a.1.1.0) p))
      (ap (λ n. (m.processing_latency_sum_us + n) % 2 ^ 64) (total-Perm (λ a. a.1.1.1.0) p))
      (ap (λ n. (m.processing_latency_count + n) % 2 ^ 64) (total-Perm (λ a. a.1.1.1.1) p))

-- However the additions interleave, only their sums count.
pub apply_all-interleaved :
    (updates updates' : List Update)
    → Perm updates updates'
    → apply_all new updates ≡ sums new updates'
apply_all-interleaved updates updates' p =
    apply_all-sums new updates record {
      ingested_small = omega arith;
      processed_small = omega arith;
      duplicates_small = omega arith;
      sum_small = omega arith;
      count_small = omega arith;
    }
    ∙ sums-Perm new p
