-- ===== src/Snapshot/Partition.antt =====
-- The chunks of `new` cut the rows into consecutive ranges.
use mathlib.Core.Option
use mathlib.Core.Path.{ap₂}
use caminus.Prelude.{
  ℕ, zero, suc, ◌+◌, ◌%◌, ◌≡◌, ◌≤◌, ◌<◌, refl, ◌∙◌, ap, none, some, List, [], ◌∷◌, arith, leb, true,
  Bool-cases, inl, inr,
}
use caminus.Snapshot.Defs.{pending, ChunkRange, u64_mod, u32_mod, chunk_end, split_from, new}

-- The chunks are pending, numbered from `id`, at most `size` rows wide, not empty, and one begins
-- where the last one ends: together they have the rows from `min_key` to `total`.
abbrev pub Tiles : ℕ → ℕ → ℕ → ℕ → List ChunkRange → Type 0
Tiles size total id min_key [] = min_key ≡ total + 1
Tiles size total id min_key (c ∷ cs) =
    (c.chunk_id ≡ id)
    × (c.min_key ≡ min_key)
    × (min_key ≤ c.max_key)
    × (c.max_key ≤ total)
    × (c.max_key < min_key + size)
    × (c.status ≡ pending)
    × Tiles size total (id + 1) (c.max_key + 1) cs

abbrev first_chunk : ℕ → ℕ → ℕ → ℕ → ChunkRange
first_chunk id min_key total size = record {
  chunk_id = id;
  min_key = min_key;
  max_key = chunk_end min_key size total;
  status = pending;
}

split_from-more :
    (fuel id min_key total size : ℕ)
    → leb min_key total ≡ true
    → split_from (suc fuel) id min_key total size
      ≡ Option.map (◌∷◌ (first_chunk id min_key total size)) (
          split_from fuel
            ((id + 1) % u32_mod)
            ((chunk_end min_key size total + 1) % u64_mod)
            total
            size)
unfolding split_from
split_from-more fuel id min_key total size more = rw more

split_from-Tiles :
    (fuel id min_key total size : ℕ)
    → 0 < size
    → total + size < u64_mod
    → total < u32_mod
    → min_key ≤ total + 1
    → id < min_key
    → total + 1 < fuel + min_key
    → (cs : List ChunkRange) × (split_from fuel id min_key total size ≡ some cs)
      × Tiles size total id min_key cs
unfolding split_from
split_from-Tiles zero id min_key total size pos fits small start ids enough = absurd (omega arith)
split_from-Tiles (suc fuel) id min_key total size pos fits small start ids enough =
    elim (Bool-cases (leb min_key total)) [
      | inl more ↦
          let last : ℕ = chunk_end min_key size total in
          let below : min_key ≤ total = ground arith in
          let bounds : (min_key ≤ last) × (last ≤ total) × (last < min_key + size) =
            (omega arith, omega arith, omega arith) in
          let e : (last + 1) % u64_mod ≡ last + 1 = omega (arith, bounds) in
          let k : (id + 1) % u32_mod ≡ id + 1 = omega (arith, below) in
          let (cs, split, tiles) =
            split_from-Tiles fuel (id + 1) (last + 1) total size pos fits small
              (omega (arith, bounds)) (omega (arith, bounds)) (omega (arith, bounds)) in
          let c : ChunkRange = first_chunk id min_key total size in
          (
            c ∷ cs,
            split_from-more fuel id min_key total size more
                ∙ ap (Option.map (◌∷◌ c)) (ap₂ (λ i m. split_from fuel i m total size) k e ∙ split),
            (refl, refl, bounds.0, bounds.1, bounds.2, refl, tiles),
          )
      | inr done ↦ ([], rw done, ground arith)
    ]

-- For a chunk size that is not zero and a number of rows that leaves room in the machine integers,
-- the loop of `new` ends, within as many rounds as there are rows, and its chunks are pending,
-- numbered from zero in order, at most `size` rows wide, not empty, and together they have every
-- row from 1 to `total` once.
pub new-Tiles :
    (total size : ℕ)
    → 0 < size
    → total + size < u64_mod
    → total < u32_mod
    → (cs : List ChunkRange) × (new (total + 1) total size ≡ some cs) × Tiles size total 0 1 cs
unfolding new
new-Tiles total size pos fits small =
    split_from-Tiles (total + 1) 0 1 total size pos fits small (omega arith) (omega arith)
      (omega arith)

split_from_stuck : (fuel id total : ℕ) → 0 < total → split_from fuel id 1 total 0 ≡ none
unfolding split_from
split_from_stuck zero id total rows = refl
split_from_stuck (suc fuel) id total rows =
    let e : (chunk_end 1 0 total + 1) % u64_mod ≡ 1 = omega arith in
    let more : leb 1 total ≡ true = ground arith in
    rw more (rw e (rw (split_from_stuck fuel ((id + 1) % u32_mod) total rows)))

-- With a chunk size of zero and any rows at all, the loop of `new` never ends.
new_zero_size : (fuel total : ℕ) → 0 < total → new fuel total 0 ≡ none
unfolding new
new_zero_size fuel total rows = split_from_stuck fuel 0 total rows
