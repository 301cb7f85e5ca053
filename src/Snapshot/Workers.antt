-- ===== src/Snapshot/Workers.antt =====
-- What one step of one worker does to the chunks and the workers together.
use caminus.Prelude.{
  ℕ, ◌+◌, ◌*◌, ◌≡◌, ◌≤◌, refl, ◌∙◌, ap, sym, none, some, List, [], ◌∷◌, ◌++◌, arith, nat_eq,
  nat_eq_iff, inr, length, length-append, ◌⊎◌, true, subst,
}
use caminus.Snapshot.Defs.{
  ChunkRange, claim, complete, Worker, idle, processing, finished, Run, Step, take_chunk,
  finish_chunk, stop,
}
use caminus.Snapshot.Counts.{
  one_if, with_id, in_progress_with, pending_count, Claimed, claim-Claimed, claim-none, Finished,
  complete-Finished,
}

abbrev pub busy_bit : ℕ → Worker → ℕ
busy_bit id idle = 0
busy_bit id (processing c) = one_if (nat_eq c.chunk_id id)
busy_bit id finished = 0

-- The steps that a worker makes yet if it finds no further chunk.
abbrev pub steps_left : Worker → ℕ
steps_left idle = 1
steps_left (processing c) = 2
steps_left finished = 0

abbrev pub finished_bit : Worker → ℕ
finished_bit finished = 1
finished_bit _ = 0

module _ (f : Worker → ℕ) where
  unfoldable pub sum : List Worker → ℕ
  sum [] = 0
  sum (w ∷ ws) = f w + sum ws

  pub sum-append :
      (xs : List Worker) (w : Worker) (ys : List Worker)
      → sum (xs ++ w ∷ ys) ≡ sum xs + f w + sum ys
  unfolding sum
  sum-append [] w ys = omega arith
  sum-append (x ∷ xs) w ys = omega (arith, sum-append xs w ys)

  -- One worker in a list of them is replaced.
  sum-replace :
      (ws xs : List Worker) (v w : Worker) (ys : List Worker)
      → ws ≡ xs ++ v ∷ ys
      → sum ws + f w ≡ sum (xs ++ w ∷ ys) + f v
  sum-replace ws xs v w ys e =
      ap (λ l. sum l + f w) e ∙ omega (arith, sum-append xs v ys, sum-append xs w ys)

abbrev pub measure : Run → ℕ
measure s = 2 * pending_count s.chunks + sum steps_left s.workers

pub record IsConsistent (s : Run) : Type 0 where
  pub once : (id : ℕ) → with_id id s.chunks ≤ 1
  pub busy : (id : ℕ) → in_progress_with id s.chunks ≡ sum (busy_bit id) s.workers
  pub over : (sum finished_bit s.workers ≡ 0) ⊎ (pending_count s.chunks ≡ 0)

busy_alone :
    (id : ℕ) (xs : List Worker) (c : ChunkRange) (ys : List Worker) (ws : List Worker)
    → ws ≡ xs ++ processing c ∷ ys
    → 1 ≤ sum (busy_bit c.chunk_id) ws
busy_alone id xs c ys ws e =
    let mine : nat_eq c.chunk_id c.chunk_id ≡ true = (nat_eq_iff _ _).1 refl in
    ground (
      arith,
      ap (sum (busy_bit c.chunk_id)) e,
      sum-append (busy_bit c.chunk_id) xs (processing c) ys,
      mine,
    )

pub record Moved (s t : Run) : Type 0 where
  pub valid : IsConsistent t
  pub shorter : measure t + 1 ≡ measure s
  pub chunks : length t.chunks ≡ length s.chunks
  pub workers : length t.workers ≡ length s.workers

length-replace :
    (ws xs : List Worker) (v w : Worker) (ys : List Worker)
    → ws ≡ xs ++ v ∷ ys
    → length (xs ++ w ∷ ys) ≡ length ws
length-replace ws xs v w ys e =
    omega (arith, length-append xs (v ∷ ys), length-append xs (w ∷ ys), ap (length {A = Worker}) e)

take-Moved :
    (s : Run) (xs ys : List Worker) (c : ChunkRange) (rest : List ChunkRange)
    → s.workers ≡ xs ++ idle ∷ ys
    → claim s.chunks ≡ some (c, rest)
    → IsConsistent s
    → Moved s (record { chunks = rest; workers = xs ++ processing c ∷ ys })
take-Moved s xs ys c rest e found v =
    let k : Claimed c s.chunks rest = claim-Claimed s.chunks found in
    let left = sum-replace steps_left s.workers xs idle (processing c) ys e in
    let stopped = sum-replace finished_bit s.workers xs idle (processing c) ys e in
    record {
      valid = record {
        once = λ id. omega (arith, k.ids id, v.once id);
        busy = λ id. omega (
          arith,
          k.busy id,
          v.busy id,
          sum-replace (busy_bit id) s.workers xs idle (processing c) ys e,
        );
        over = omega (arith, v.over, stopped, k.waiting);
      };
      shorter = omega (arith, k.waiting, left);
      chunks = k.same_length;
      workers = length-replace s.workers xs idle (processing c) ys e;
    }

finish-Moved :
    (s : Run) (xs ys : List Worker) (c : ChunkRange)
    → s.workers ≡ xs ++ processing c ∷ ys
    → IsConsistent s
    → Moved s (record { chunks = complete c.chunk_id s.chunks; workers = xs ++ idle ∷ ys })
finish-Moved s xs ys c e v =
    let k : Finished c.chunk_id s.chunks =
      complete-Finished c.chunk_id s.chunks (v.once c.chunk_id)
        (omega (arith, v.busy c.chunk_id, busy_alone c.chunk_id xs c ys s.workers e)) in
    let left = sum-replace steps_left s.workers xs (processing c) idle ys e in
    let stopped = sum-replace finished_bit s.workers xs (processing c) idle ys e in
    record {
      valid = record {
        once = λ id. omega (arith, k.ids id, v.once id);
        busy = λ id. omega (
          arith,
          k.busy id,
          v.busy id,
          sum-replace (busy_bit id) s.workers xs (processing c) idle ys e,
        );
        over = omega (arith, v.over, stopped, k.waiting);
      };
      shorter = omega (arith, k.waiting, left);
      chunks = k.same_length;
      workers = length-replace s.workers xs (processing c) idle ys e;
    }

stop-Moved :
    (s : Run) (xs ys : List Worker)
    → s.workers ≡ xs ++ idle ∷ ys
    → claim s.chunks ≡ none
    → IsConsistent s
    → Moved s (record { chunks = s.chunks; workers = xs ++ finished ∷ ys })
stop-Moved s xs ys e nothing v =
    let left = sum-replace steps_left s.workers xs idle finished ys e in
    record {
      valid = record {
        once = v.once;
        busy = λ id.
            omega (arith, v.busy id, sum-replace (busy_bit id) s.workers xs idle finished ys e);
        over = inr (claim-none s.chunks nothing);
      };
      shorter = omega (arith, left);
      chunks = refl;
      workers = length-replace s.workers xs idle finished ys e;
    }

pub Step-Moved : (s t : Run) → Step s t → IsConsistent s → Moved s t
Step-Moved s t (take_chunk xs ys c rest e found to) v =
    subst (Moved s) (sym to) (take-Moved s xs ys c rest e found v)
Step-Moved s t (finish_chunk xs ys c e to) v = subst (Moved s) (sym to) (finish-Moved s xs ys c e v)
Step-Moved s t (stop xs ys e nothing to) v =
    subst (Moved s) (sym to) (stop-Moved s xs ys e nothing v)
