-- ===== src/Router/Partitions.antt =====
-- Where events go.
use native.Mathlib.Nat.{mod-lt}
use caminus.Prelude.{ℕ, ◌%◌, ◌<◌, ◌≡◌, refl, ap, max, leb, Bool-cases, inl, inr, arith, false}
use caminus.Text.Defs.{Text}
use caminus.Json.Value.{Value}
use caminus.Event.{ChangeEvent}
use caminus.Router.Defs.{
  PartitionStrategy, key_hash, tenant_prefix, round_robin, PartitionRouter, tenant_id, routing_text,
  resolve_partition,
}

module _ (print : Value → Text) (hash : Text → ℕ) where
  -- What two events have in common that go to the same partition.
  abbrev pub SameRoute : PartitionStrategy → ChangeEvent → ChangeEvent → Type 0
  SameRoute key_hash a b = a.key ≡ b.key
  SameRoute tenant_prefix a b = tenant_id a ≡ tenant_id b
  SameRoute round_robin a b = a.id ≡ b.id

  same_text :
      (strategy : PartitionStrategy) (a b : ChangeEvent)
      → SameRoute strategy a b
      → routing_text print hash strategy a ≡ routing_text print hash strategy b
  unfolding routing_text
  same_text key_hash a b e = ap print e
  same_text tenant_prefix a b e = e
  same_text round_robin a b e = e

  remainder-lt : (m n : ℕ) → leb n 1 ≡ false → m % n < n
  remainder-lt m n h = let some_partitions : 0 < n = ground (arith, h) in mod-lt m some_partitions

  -- A partition is less than the number of partitions, or zero if there are none, and events go to the
  -- same one that have the same key, tenant or id, as the strategy says: with `RoundRobin` it is the
  -- id, whatever went before.
  resolve_partition-lt :
      (router : PartitionRouter) (a b : ChangeEvent)
      → SameRoute router.strategy a b
      → (resolve_partition print hash router a < max router.num_partitions 1)
        × (resolve_partition print hash router a ≡ resolve_partition print hash router b)
  unfolding resolve_partition
  resolve_partition-lt router a b same =
      let n = router.num_partitions in
      let text = routing_text print hash router.strategy in
      elim (Bool-cases (leb n 1)) [
        | inl few ↦ (ground (arith, few), rw few refl)
        | inr more ↦ (
          ground (arith, more, remainder-lt (hash (text a)) n more),
          rw more (ap (λ t. hash t % n) (same_text router.strategy a b same)),
        )
      ]
