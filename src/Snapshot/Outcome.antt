-- ===== src/Snapshot/Outcome.antt =====
-- The workers of `run` on the chunks of `new`, in whatever order they make their steps.
use caminus.Prelude.{
  ℕ, zero, suc, ◌+◌, ◌*◌, ◌≡◌, ◌≤◌, ◌<◌, refl, ◌∙◌, ap, sym, some, List, [], ◌∷◌, ◌++◌, arith,
  nat_eq, nat_eq_iff, Bool-cases, Option-cases, inl, inr, length, ◌⊎◌, true, subst,
}
use caminus.Snapshot.Defs.{
  ChunkRange, claim, completed_count, Worker, idle, processing, finished, Run, Step, take_chunk,
  finish_chunk, stop, Steps, here, next, spawn, u64_mod, u32_mod, new,
}
use caminus.Snapshot.Counts.{with_id, in_progress_with, pending_count}
use caminus.Snapshot.Partition.{Tiles, new-Tiles}
use caminus.Snapshot.Workers.{
  sum, sum-append, busy_bit, steps_left, finished_bit, measure, IsConsistent, Moved, Step-Moved,
}

-- The chunks that are neither pending nor in progress are completed.
none_left :
    (cs : List ChunkRange)
    → ((id : ℕ) → in_progress_with id cs ≡ 0)
    → pending_count cs ≡ 0
    → completed_count cs ≡ length cs
unfolding in_progress_with pending_count completed_count
none_left [] busy waiting = refl
none_left (c ∷ cs) busy waiting =
    let mine : nat_eq c.chunk_id c.chunk_id ≡ true = (nat_eq_iff _ _).1 refl in
    let rest = none_left cs (λ id. omega (arith, busy id)) (omega (arith, waiting)) in
    ground (arith, mine, busy c.chunk_id, waiting, rest)

record AreFresh (id : ℕ) (cs : List ChunkRange) : Type 0 where
  once : (k : ℕ) → with_id k cs ≤ 1
  later : (k : ℕ) → k < id → with_id k cs ≡ 0
  busy : (k : ℕ) → in_progress_with k cs ≡ 0
  waiting : pending_count cs ≡ length cs

Tiles-AreFresh :
    (size total id min_key : ℕ) (cs : List ChunkRange)
    → Tiles size total id min_key cs
    → AreFresh id cs
unfolding with_id in_progress_with pending_count
Tiles-AreFresh size total id m [] tiles = record {
  once = λ k. omega arith;
  later = λ k below. refl;
  busy = λ k. refl;
  waiting = refl;
}
Tiles-AreFresh size total id m (c ∷ cs) (e, _, _, _, _, st, tiles) =
    let f : AreFresh (id + 1) cs = Tiles-AreFresh size total (id + 1) (c.max_key + 1) cs tiles in
    record {
      once = λ k. elim (Bool-cases (nat_eq c.chunk_id k)) [
        | inl mine ↦
            let same : c.chunk_id ≡ k = (nat_eq_iff _ _).0 mine in
            ground (arith, mine, f.later k (omega (arith, same, e)))
        | inr other ↦ ground (arith, other, f.once k)
      ];
      later = λ k below. elim (Bool-cases (nat_eq c.chunk_id k)) [
        | inl mine ↦
            let same : c.chunk_id ≡ k = (nat_eq_iff _ _).0 mine in
            absurd (omega (arith, same, e, below))
        | inr other ↦ ground (arith, other, f.later k (omega (arith, below)))
      ];
      busy = λ k. ground (arith, st, f.busy k);
      waiting = ground (arith, st, f.waiting);
    }

record AreIdle (n : ℕ) (ws : List Worker) : Type 0 where
  free : (id : ℕ) → sum (busy_bit id) ws ≡ 0
  left : sum steps_left ws ≡ n
  over : sum finished_bit ws ≡ 0
  same_length : length ws ≡ n

spawn-AreIdle : (n : ℕ) → AreIdle n (spawn n)
unfolding spawn sum
spawn-AreIdle zero = record { free = λ id. refl; left = refl; over = refl; same_length = refl }
spawn-AreIdle (suc n) =
    let h : AreIdle n (spawn n) = spawn-AreIdle n in
    record {
      free = λ id. omega (arith, h.free id);
      left = omega (arith, h.left);
      over = omega (arith, h.over);
      same_length = omega (arith, h.same_length);
    }

-- Where a list of workers can go on.
data Turn (ws : List Worker) : Type 0 where
  free : (xs ys : List Worker) → ws ≡ xs ++ idle ∷ ys → Turn ws
  busy : (xs ys : List Worker) (c : ChunkRange) → ws ≡ xs ++ processing c ∷ ys → Turn ws
  over :
      sum steps_left ws ≡ 0
      → sum finished_bit ws ≡ length ws
      → ((id : ℕ) → sum (busy_bit id) ws ≡ 0)
      → Turn ws

finished-Turn : (ws : List Worker) → Turn ws → Turn (finished ∷ ws)
unfolding sum
finished-Turn ws (free xs ys e) = free (finished ∷ xs) ys (ap (◌∷◌ finished) e)
finished-Turn ws (busy xs ys c e) = busy (finished ∷ xs) ys c (ap (◌∷◌ finished) e)
finished-Turn ws (over l f b) =
    over (omega (arith, l)) (omega (arith, f)) (λ id. omega (arith, b id))

turn : (ws : List Worker) → Turn ws
unfolding sum
turn [] = over refl refl (λ id. refl)
turn (idle ∷ ws) = free [] ws refl
turn (processing c ∷ ws) = busy [] ws c refl
turn (finished ∷ ws) = finished-Turn ws (turn ws)

record Reached (s : Run) (k : ℕ) (t : Run) : Type 0 where
  valid : IsConsistent t
  so_far : k + measure t ≡ measure s
  chunks : length t.chunks ≡ length s.chunks
  workers : length t.workers ≡ length s.workers

Steps-Reached : (s t : Run) (k : ℕ) → Steps s k t → IsConsistent s → Reached s k t
Steps-Reached s t zero here v = record {
  valid = v;
  so_far = omega arith;
  chunks = refl;
  workers = refl;
}
Steps-Reached s t (suc k) (next {t = u} before step) v =
    let r : Reached s k u = Steps-Reached s u k before v in
    let m : Moved u t = Step-Moved u t step r.valid in
    record {
      valid = m.valid;
      so_far = omega (arith, r.so_far, m.shorter);
      chunks = m.chunks ∙ r.chunks;
      workers = m.workers ∙ r.workers;
    }

-- An idle worker has a step, whether it finds a chunk or not.
idle-Step : (s : Run) (xs ys : List Worker) → s.workers ≡ xs ++ idle ∷ ys → (t : Run) × Step s t
idle-Step s xs ys e = elim (Option-cases (claim s.chunks)) [
  | inl nothing ↦ (_, stop xs ys e nothing refl)
  | inr ((c, rest), found) ↦ (_, take_chunk xs ys c rest e found refl)
]

abbrev pub start : List ChunkRange → ℕ → Run
start cs n = record { chunks = cs; workers = spawn n }

module _ (total size n : ℕ) (cs : List ChunkRange) where
  start-IsConsistent : Tiles size total 0 1 cs → IsConsistent (start cs n)
  start-IsConsistent tiles =
      let f : AreFresh 0 cs = Tiles-AreFresh size total 0 1 cs tiles in
      let h : AreIdle n (spawn n) = spawn-AreIdle n in
      record { once = f.once; busy = λ id. f.busy id ∙ sym (h.free id); over = inl h.over }

  start-measure : Tiles size total 0 1 cs → measure (start cs n) ≡ 2 * length cs + n
  start-measure tiles =
      let f : AreFresh 0 cs = Tiles-AreFresh size total 0 1 cs tiles in
      let h : AreIdle n (spawn n) = spawn-AreIdle n in omega (arith, f.waiting, h.left)

abbrev pub Outcome : List ChunkRange → ℕ → ℕ → Run → Type 0
Outcome cs n k t =
    ((k < 2 * length cs + n) × ((u : Run) × Step t u))
    ⊎ ((k ≡ 2 * length cs + n)
        × (completed_count t.chunks ≡ length cs)
        × (length t.chunks ≡ length cs)
        × (sum finished_bit t.workers ≡ n))

-- With all workers stopped, and one of them at least, nothing is pending or in progress.
settled :
    (cs : List ChunkRange) (n k : ℕ) (t : Run)
    → 0 < n
    → Reached (start cs n) k t
    → measure (start cs n) ≡ 2 * length cs + n
    → sum steps_left t.workers ≡ 0
    → sum finished_bit t.workers ≡ length t.workers
    → ((id : ℕ) → sum (busy_bit id) t.workers ≡ 0)
    → Outcome cs n k t
settled cs n k t some_worker r m left all_over released =
    let h : AreIdle n (spawn n) = spawn-AreIdle n in
    let waiting : pending_count t.chunks ≡ 0 =
      omega (arith, r.valid.over, all_over, r.workers, h.same_length, some_worker) in
    let all_done = none_left t.chunks (λ id. r.valid.busy id ∙ released id) waiting in
    inr (
      omega (arith, r.so_far, m, waiting, left),
      all_done ∙ r.chunks,
      r.chunks,
      all_over ∙ r.workers ∙ h.same_length,
    )

unfinished :
    (cs : List ChunkRange) (n k : ℕ) (t : Run)
    → Reached (start cs n) k t
    → measure (start cs n) ≡ 2 * length cs + n
    → 1 ≤ sum steps_left t.workers
    → k < 2 * length cs + n
unfinished cs n k t r m left = omega (arith, r.so_far, m, left)

-- One worker or more on the chunks of `new`, after any number of steps in any order: as long as the
-- steps are fewer than two for each chunk and one for each worker, some worker has a next step, so
-- that no run is stuck; after exactly so many every chunk is completed,
-- none is lost, and every worker has stopped.
pub run-Outcome :
    (total size n k : ℕ) (cs : List ChunkRange) (t : Run)
    → 0 < size
    → total + size < u64_mod
    → total < u32_mod
    → new (total + 1) total size ≡ some cs
    → 0 < n
    → Steps (start cs n) k t
    → Outcome cs n k t
run-Outcome total size n k cs t pos fits small made some_worker steps =
    let (cs', made', tiles') = new-Tiles total size pos fits small in
    let same : cs' ≡ cs = cc (made, made') in
    let tiles : Tiles size total 0 1 cs = subst (Tiles size total 0 1) same tiles' in
    let r : Reached (start cs n) k t =
      Steps-Reached (start cs n) t k steps (start-IsConsistent total size n cs tiles) in
    let m = start-measure total size n cs tiles in
    elim (turn t.workers) [
      | free xs ys e ↦ inl (
        unfinished cs n k t r m
            (omega (arith, sum-append steps_left xs idle ys, ap (sum steps_left) e)),
        idle-Step t xs ys e,
      )
      | busy xs ys c e ↦ inl (
        unfinished cs n k t r m
            (omega (arith, sum-append steps_left xs (processing c) ys, ap (sum steps_left) e)),
        (_, finish_chunk xs ys c e refl),
      )
      | over left all_over released ↦ settled cs n k t some_worker r m left all_over released
    ]
