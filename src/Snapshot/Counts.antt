-- ===== src/Snapshot/Counts.antt =====
-- How a claim and a completion change the number of chunks in each state, id by id.
use mathlib.Core.Option
use caminus.Prelude.{
  ℕ, ◌+◌, ◌≡◌, ◌≤◌, refl, Option, none, some, List, [], ◌∷◌, arith, nat_eq, nat_eq_iff,
  if◌then◌else◌, Bool-cases, Option-cases, inl, inr, length, ◌⊎◌, true, false, Bool,
}
use caminus.Snapshot.Defs.{
  ChunkStatus, pending, in_progress, completed, ChunkRange, claim, complete,
}

abbrev pub one_if : Bool → ℕ
one_if true = 1
one_if false = 0

-- The chunks with the id; those of them in progress; the pending ones.
unfoldable pub with_id : ℕ → List ChunkRange → ℕ
with_id id [] = 0
with_id id (c ∷ cs) = one_if (nat_eq c.chunk_id id) + with_id id cs

abbrev in_progress_bit : ChunkStatus → ℕ
in_progress_bit in_progress = 1
in_progress_bit _ = 0

abbrev pending_bit : ChunkStatus → ℕ
pending_bit pending = 1
pending_bit _ = 0

unfoldable pub in_progress_with : ℕ → List ChunkRange → ℕ
in_progress_with id [] = 0
in_progress_with id (c ∷ cs) =
    (if nat_eq c.chunk_id id then in_progress_bit c.status else 0) + in_progress_with id cs

unfoldable pub pending_count : List ChunkRange → ℕ
pending_count [] = 0
pending_count (c ∷ cs) = pending_bit c.status + pending_count cs

-- A claim takes one pending chunk and adds it to those in progress.
pub record Claimed (c : ChunkRange) (cs rest : List ChunkRange) : Type 0 where
  pub ids : (id : ℕ) → with_id id rest ≡ with_id id cs
  pub busy :
      (id : ℕ) → in_progress_with id rest ≡ in_progress_with id cs + one_if (nat_eq c.chunk_id id)
  pub waiting : pending_count rest + 1 ≡ pending_count cs
  pub same_length : length rest ≡ length cs

map-some {ℓ κ} :
    {A : Type ℓ} {B : Type κ} (f : A → B) (o : Option A) {b : B}
    → Option.map f o ≡ some b
    → (a : A) × (o ≡ some a) × (f a ≡ b)
map-some f none h = absurd (cc h)
map-some f (some a) h = (a, refl, cc h)

claim_head :
    (c d : ChunkRange) (cs rest : List ChunkRange)
    → c.status ≡ pending
    → claim (c ∷ cs) ≡ some (d, rest)
    → Claimed d (c ∷ cs) rest
unfolding claim with_id in_progress_with pending_count
claim_head c d cs rest p h = record {
  ids = λ id. ground (arith, p, h);
  busy = λ id. ground (arith, p, h);
  waiting = ground (arith, p, h);
  same_length = ground (arith, p, h);
}

claim_later :
    (c d : ChunkRange) (cs rest : List ChunkRange)
    → pending_bit c.status ≡ 0
    → Claimed d cs rest
    → Claimed d (c ∷ cs) (c ∷ rest)
unfolding with_id in_progress_with pending_count
claim_later c d cs rest p h = record {
  ids = λ id. omega (arith, h.ids id);
  busy = λ id. omega (arith, h.busy id);
  waiting = omega (arith, h.waiting);
  same_length = omega (arith, h.same_length);
}

claim_skip :
    (c d : ChunkRange) (cs rest : List ChunkRange)
    → pending_bit c.status ≡ 0
    → claim (c ∷ cs) ≡ some (d, rest)
    → (rest' : List ChunkRange) × (claim cs ≡ some (d, rest')) × (rest ≡ c ∷ rest')
unfolding claim
claim_skip c d cs rest p h = elim (Option-cases (claim cs)) [
  | inl nothing ↦ absurd (ground (arith, p, nothing, h))
  | inr ((d', rest'), found) ↦ (rest', ground (arith, p, found, h), ground (arith, p, found, h))
]

pending-cases : (st : ChunkStatus) → (st ≡ pending) ⊎ (pending_bit st ≡ 0)
pending-cases pending = inl refl
pending-cases in_progress = inr refl
pending-cases completed = inr refl

pub claim-Claimed :
    (cs : List ChunkRange) {d : ChunkRange} {rest : List ChunkRange}
    → claim cs ≡ some (d, rest)
    → Claimed d cs rest
claim-Claimed [] h = absurd (unfold claim in cc h)
claim-Claimed (c ∷ cs) {d} {rest} h = elim (pending-cases c.status) [
  | inl e ↦ claim_head c d cs rest e h
  | inr p ↦
      let (rest', found, e) = claim_skip c d cs rest p h in
      rw e (claim_later c d cs rest' p (claim-Claimed cs found))
]

-- A claim finds nothing exactly if no chunk is pending.
pub claim-none : (cs : List ChunkRange) → claim cs ≡ none → pending_count cs ≡ 0
unfolding claim pending_count
claim-none [] h = refl
claim-none (c ∷ cs) h = elim (Option-cases (claim cs)) [
  | inl nothing ↦ ground (arith, h, claim-none cs nothing)
  | inr (r, found) ↦ absurd (ground (arith, found, h))
]

pub none-claim : (cs : List ChunkRange) → pending_count cs ≡ 0 → claim cs ≡ none
unfolding claim pending_count
none-claim [] h = refl
none-claim (c ∷ cs) h = ground (arith, h, none-claim cs (ground (arith, h)))

in_progress-le : (id : ℕ) (cs : List ChunkRange) → in_progress_with id cs ≤ with_id id cs
unfolding in_progress_with with_id
in_progress-le id [] = omega arith
in_progress-le id (c ∷ cs) = ground (arith, in_progress-le id cs)

-- A completion takes the chunk with the id out of those in progress, and touches no other.
pub record Finished (k : ℕ) (cs : List ChunkRange) : Type 0 where
  pub ids : (id : ℕ) → with_id id (complete k cs) ≡ with_id id cs
  pub busy :
      (id : ℕ) → in_progress_with id (complete k cs) + one_if (nat_eq k id) ≡ in_progress_with id cs
  pub waiting : pending_count (complete k cs) ≡ pending_count cs
  pub same_length : length (complete k cs) ≡ length cs

finish_here :
    (k : ℕ) (c : ChunkRange) (cs : List ChunkRange)
    → nat_eq c.chunk_id k ≡ true
    → with_id k (c ∷ cs) ≤ 1
    → 1 ≤ in_progress_with k (c ∷ cs)
    → Finished k (c ∷ cs)
unfolding complete with_id in_progress_with pending_count
finish_here k c cs mine once busy =
    let e : c.chunk_id ≡ k = (nat_eq_iff c.chunk_id k).0 mine in
    let st : c.status ≡ in_progress = ground (arith, mine, in_progress-le k cs) in
    record {
      ids = λ id. ground (arith, mine);
      busy = λ id. ground (arith, mine, e, st);
      waiting = ground (arith, mine, st);
      same_length = ground (arith, mine);
    }

finish_later :
    (k : ℕ) (c : ChunkRange) (cs : List ChunkRange)
    → nat_eq c.chunk_id k ≡ false
    → Finished k cs
    → Finished k (c ∷ cs)
unfolding complete with_id in_progress_with pending_count
finish_later k c cs other h = record {
  ids = λ id. ground (arith, other, h.ids id);
  busy = λ id. ground (arith, other, h.busy id);
  waiting = ground (arith, other, h.waiting);
  same_length = ground (arith, other, h.same_length);
}

pub complete-Finished :
    (k : ℕ) (cs : List ChunkRange) → with_id k cs ≤ 1 → 1 ≤ in_progress_with k cs → Finished k cs
unfolding with_id in_progress_with
complete-Finished k [] once busy = absurd (omega arith)
complete-Finished k (c ∷ cs) once busy = elim (Bool-cases (nat_eq c.chunk_id k)) [
  | inl mine ↦ finish_here k c cs mine once busy
  | inr other ↦
      finish_later k c cs other
        (complete-Finished k cs (ground (arith, other)) (ground (arith, other)))
]
