-- ===== src/Dedup/Invariant.antt =====
-- The set and the queue hold the same ids, each once, and never more than the capacity.
use caminus.Prelude.{
  ℕ, ◌≡◌, refl, ◌≤◌, ◌<◌, ◌+◌, false, ◌||◌, List, [], ◌∷◌, ◌++◌, ◌==◌, ltb, if◌then◌else◌, length,
  length-append, Bool-cases, inl, inr, arith, ◌∙◌, sym,
}
use caminus.Text.Defs.{Text, text_eq, text_beq_iff}
use caminus.Dedup.Defs.{
  contains, remove, DeduplicationFilter, new, pop_oldest, evict, track, check_and_track, run,
}

pub contains-append :
    (id : Text) (xs ys : List Text) → contains id (xs ++ ys) ≡ (contains id xs || contains id ys)
unfolding contains
contains-append id [] ys = refl
contains-append id (x ∷ xs) ys = ground (arith, contains-append id xs ys)

pub contains-remove :
    (id x : Text) (xs : List Text)
    → contains id (remove x xs) ≡ (if x == id then false else contains id xs)
unfolding contains remove
contains-remove id x [] = ground arith
contains-remove id x (y ∷ ys) =
    ground (arith, contains-remove id x ys, text_beq_iff y x, text_beq_iff y id, text_beq_iff x id)

abbrev pub IsDistinct : List Text → Type 0
IsDistinct [] = Unit
IsDistinct (x ∷ xs) = (contains x xs ≡ false) × IsDistinct xs

IsDistinct-snoc :
    (id : Text) (xs : List Text)
    → IsDistinct xs
    → contains id xs ≡ false
    → IsDistinct (xs ++ id ∷ [])
unfolding contains
IsDistinct-snoc id [] d h = (refl, tt)
IsDistinct-snoc id (x ∷ xs) d h = (
  ground (arith, contains-append x xs (id ∷ []), text_beq_iff x id, text_beq_iff id x),
  IsDistinct-snoc id xs d.1 (ground arith),
)

pub record IsValid (f : DeduplicationFilter) : Type 0 where
  pub agree : (id : Text) → contains id f.processed_ids ≡ contains id f.order
  pub distinct : IsDistinct f.order
  pub bounded : length f.order ≤ f.max_capacity

pub new-IsValid : (max_capacity : ℕ) → IsValid (new max_capacity)
new-IsValid max_capacity = record { agree = λ id. refl; distinct = tt; bounded = omega arith }

-- The queue after an eviction that is due.
pop_oldest-IsValid :
    (f : DeduplicationFilter) (xs : List Text)
    → f.order ≡ xs
    → ((id : Text) → contains id f.processed_ids ≡ contains id xs)
    → IsDistinct xs
    → length xs ≤ f.max_capacity + 1
    → f.max_capacity < length xs
    → IsValid (pop_oldest xs f)
unfolding pop_oldest
pop_oldest-IsValid f [] e agree d b full = absurd (omega arith)
pop_oldest-IsValid f (x ∷ xs) e agree d b full = record {
  agree = λ id.
      unfold contains in
      ground (arith, contains-remove id x f.processed_ids, agree id, text_beq_iff x id, d.0);
  distinct = d.1;
  bounded = omega arith;
}

evict-IsValid :
    (f : DeduplicationFilter)
    → ((id : Text) → contains id f.processed_ids ≡ contains id f.order)
    → IsDistinct f.order
    → length f.order ≤ f.max_capacity + 1
    → IsValid (evict f)
unfolding evict
evict-IsValid f agree d b = elim (Bool-cases (ltb f.max_capacity (length f.order))) [
  | inl full ↦ rw full (pop_oldest-IsValid f f.order refl agree d b (ground arith))
  | inr room ↦ rw room (record { agree = agree; distinct = d; bounded = ground arith })
]

-- Tracking an id, duplicate or not, keeps the set and the queue in step, the ids distinct and the
-- cache within its capacity.
pub check_and_track-IsValid :
    (f : DeduplicationFilter) (id : Text) → IsValid f → IsValid (check_and_track f id).0
unfolding check_and_track
check_and_track-IsValid f id v = elim (Bool-cases (contains id f.processed_ids)) [
  | inl known ↦ rw known v
  | inr fresh ↦ rw fresh (
      evict-IsValid (track id f)
        (λ j. unfold contains in ground (arith, v.agree j, contains-append j f.order (id ∷ [])))
        (IsDistinct-snoc id f.order v.distinct (sym (v.agree id) ∙ fresh))
        (omega (arith, v.bounded, length-append f.order (id ∷ []))))
]

pub run-IsValid : (f : DeduplicationFilter) (ids : List Text) → IsValid f → IsValid (run f ids).0
unfolding run
run-IsValid f [] v = v
run-IsValid f (id ∷ ids) v =
    run-IsValid (check_and_track f id).0 ids (check_and_track-IsValid f id v)
