-- ===== src/Snapshot/Defs.antt =====
-- `ParallelSnapshotter`: the chunks of a table, and the workers that take them in turn. Arithmetic
-- is that of `u64` and `u32`, which wraps in a release build.
use caminus.Prelude.{
  ℕ, zero, suc, ◌+◌, ◌-◌, ◌%◌, ◌^◌, ◌≡◌, min, Option, none, some, List, [], ◌∷◌, ◌++◌, leb, nat_eq,
  if◌then◌else◌,
}
use mathlib.Core.Option

pub data ChunkStatus : Type 0 where
  pending in_progress completed : ChunkStatus

pub record ChunkRange : Type 0 where
  pub chunk_id : ℕ
  pub min_key : ℕ
  pub max_key : ℕ
  pub status : ChunkStatus

abbrev pub u64_mod : ℕ
u64_mod = 2 ^ 64

abbrev pub u32_mod : ℕ
u32_mod = 2 ^ 32

abbrev pub chunk_end : ℕ → ℕ → ℕ → ℕ
chunk_end min_key chunk_size total_rows =
    min (((min_key + chunk_size) % u64_mod + u64_mod - 1) % u64_mod) total_rows

-- The loop of `new`; `none` means that it has not ended within the fuel.
unfoldable pub split_from : ℕ → ℕ → ℕ → ℕ → ℕ → Option (List ChunkRange)
split_from zero chunk_id min_key total_rows chunk_size = none
split_from (suc fuel) chunk_id min_key total_rows chunk_size =
    let max_key = chunk_end min_key chunk_size total_rows in
    let rest =
      Option.map
        (◌∷◌
          (record { chunk_id = chunk_id; min_key = min_key; max_key = max_key; status = pending }))
        (split_from fuel ((chunk_id + 1) % u32_mod) ((max_key + 1) % u64_mod) total_rows
          chunk_size) in
    if leb min_key total_rows then rest else some []

unfoldable pub new : ℕ → ℕ → ℕ → Option (List ChunkRange)
unfolding split_from
new fuel total_rows chunk_size = split_from fuel 0 1 total_rows chunk_size

-- A worker's search under the lock: the first pending chunk, marked as in progress. What the worker
-- goes on with is the marked copy.
unfoldable pub claim : List ChunkRange → Option (ChunkRange × List ChunkRange)
claim [] = none
claim (chunk ∷ chunks) = elim chunk.status [
  | pending ↦
      some (record chunk { status = in_progress }, record chunk { status = in_progress } ∷ chunks)
  | _ ↦ Option.map (λ r. (r.0, chunk ∷ r.1)) (claim chunks)
]

-- `chunks.iter_mut().find(|c| c.chunk_id == chunk.chunk_id)` and the mark.
unfoldable pub complete : ℕ → List ChunkRange → List ChunkRange
complete id [] = []
complete id (chunk ∷ chunks) =
    if nat_eq chunk.chunk_id id
    then record chunk { status = completed } ∷ chunks
    else chunk ∷ complete id chunks

unfoldable pub completed_count : List ChunkRange → ℕ
completed_count [] = 0
completed_count (chunk ∷ chunks) = elim chunk.status [
  | completed ↦ suc (completed_count chunks)
  | _ ↦ completed_count chunks
]

-- A worker between two chunks, with a chunk, or after its loop.
pub data Worker : Type 0 where
  idle : Worker
  processing : ChunkRange → Worker
  finished : Worker

pub record Run : Type 0 where
  pub chunks : List ChunkRange
  pub workers : List Worker

-- One step of one worker: the lock is held for a claim or a completion, and the processing itself
-- runs beside the steps of the others.
pub data Step (s : Run) (t : Run) : Type 0 where
  take_chunk :
      (before after : List Worker) (c : ChunkRange) (rest : List ChunkRange)
      → s.workers ≡ before ++ idle ∷ after
      → claim s.chunks ≡ some (c, rest)
      → t ≡ record { chunks = rest; workers = before ++ processing c ∷ after }
      → Step s t
  finish_chunk :
      (before after : List Worker) (c : ChunkRange)
      → s.workers ≡ before ++ processing c ∷ after
      → t ≡ record { chunks = complete c.chunk_id s.chunks; workers = before ++ idle ∷ after }
      → Step s t
  stop :
      (before after : List Worker)
      → s.workers ≡ before ++ idle ∷ after
      → claim s.chunks ≡ none
      → t ≡ record { chunks = s.chunks; workers = before ++ finished ∷ after }
      → Step s t

-- A run of so many steps.
pub data Steps (s : Run) : ℕ → Run → Type 0 where
  here : Steps s 0 s
  next : {n : ℕ} {t u : Run} → Steps s n t → Step t u → Steps s (suc n) u

unfoldable pub spawn : ℕ → List Worker
spawn zero = []
spawn (suc n) = idle ∷ spawn n
