-- ===== src/Snapshot/Tests.antt =====
-- The chunks of a small table, and runs of workers on them.
use caminus.Prelude.{◌+◌, ◌≡◌, refl, some, List, [], ◌∷◌, arith}
use caminus.Snapshot.Defs.{
  ChunkRange, pending, in_progress, split_from, new, claim, complete, completed_count, spawn, idle,
  processing, Run, finished, completed, Steps, take_chunk, finish_chunk, stop, here, next,
}
use caminus.Snapshot.Partition.{Tiles, new-Tiles}
use caminus.Snapshot.Outcome.{Outcome, start, run-Outcome}

program : Unit {0}
unfolding split_from new claim complete completed_count spawn
program = tt

abbrev first : ChunkRange
first = record { chunk_id = 0; min_key = 1; max_key = 4; status = pending }

abbrev second : ChunkRange
second = record { chunk_id = 1; min_key = 5; max_key = 6; status = pending }

chunks_of_six : new 7 6 4 ≡ some (first ∷ second ∷ [])
unfolding program
chunks_of_six = refl

claimed :
    claim (first ∷ second ∷ [])
    ≡ some
        (record first { status = in_progress }, record first { status = in_progress } ∷ second ∷ [])
unfolding program
claimed = refl

two_workers : spawn 2 ≡ idle ∷ idle ∷ []
unfolding program
two_workers = refl

new-Tiles_example : (cs : List ChunkRange) × (new (6 + 1) 6 4 ≡ some cs) × Tiles 4 6 0 1 cs
new-Tiles_example = new-Tiles 6 4 (omega arith) (omega arith) (omega arith)

-- The second of two workers takes the first chunk.
abbrev after_one_step : Run
after_one_step = record {
  chunks = record first { status = in_progress } ∷ second ∷ [];
  workers = idle ∷ processing (record first { status = in_progress }) ∷ [];
}

run-Outcome_example : Outcome (first ∷ second ∷ []) 2 1 after_one_step
run-Outcome_example =
    run-Outcome 6 4 2 1 (first ∷ second ∷ []) after_one_step (omega arith) (omega arith)
      (omega arith) chunks_of_six (omega arith)
      (next here (take_chunk (idle ∷ []) [] _ _ two_workers claimed refl))

-- One worker on one chunk, to the end.
abbrev only_chunk : ChunkRange
only_chunk = record { chunk_id = 0; min_key = 1; max_key = 1; status = pending }

chunks_of_one : new 2 1 1 ≡ some (only_chunk ∷ [])
unfolding program
chunks_of_one = refl

abbrev ended : Run
ended = record { chunks = record only_chunk { status = completed } ∷ []; workers = finished ∷ [] }

to_the_end : Steps (start (only_chunk ∷ []) 1) 3 ended
unfolding program
to_the_end =
    next (next (next here (take_chunk [] [] _ _ refl refl refl)) (finish_chunk [] [] _ refl refl))
      (stop [] [] refl refl refl)
