-- ===== src/Dedup/Window.antt =====
-- The filter against the history: it remembers exactly the last `max_capacity` accepted ids.
use caminus.Prelude.{
  ℕ, ◌≡◌, refl, ◌≤◌, ◌<◌, ◌+◌, true, false, List, [], ◌∷◌, ◌++◌, leb, ltb, if◌then◌else◌, length,
  length-append, Bool-cases, inl, inr, arith, ◌∙◌, sym, ap, append-nil, append_assoc,
}
use caminus.Text.Defs.{Text}
use caminus.Dedup.Defs.{
  contains, DeduplicationFilter, new, pop_oldest, evict, track, check_and_track, run,
}
use caminus.Dedup.Invariant.{IsValid, new-IsValid, check_and_track-IsValid}

-- The last `n` elements.
unfoldable pub keep_last : ℕ → List Text → List Text
keep_last n [] = []
keep_last n (x ∷ xs) = let rest = keep_last n xs in if leb (length (x ∷ xs)) n then x ∷ xs else rest

keep_last_all : (n : ℕ) (xs : List Text) → length xs ≤ n → keep_last n xs ≡ xs
unfolding keep_last
keep_last_all n [] h = refl
keep_last_all n (x ∷ xs) h = ground arith

keep_last-append :
    (n : ℕ) (xs : List Text) (y : Text)
    → keep_last n (keep_last n xs ++ y ∷ []) ≡ keep_last n (xs ++ y ∷ [])
unfolding keep_last
keep_last-append n [] y = refl
keep_last-append n (x ∷ xs) y = ground (arith, keep_last-append n xs y, length-append xs (y ∷ []))

order-pop_oldest :
    (f : DeduplicationFilter) (xs : List Text)
    → f.order ≡ xs
    → f.max_capacity < length xs
    → length xs ≤ f.max_capacity + 1
    → (pop_oldest xs f).order ≡ keep_last f.max_capacity xs
unfolding pop_oldest keep_last
order-pop_oldest f [] e full b = absurd (omega arith)
order-pop_oldest f (x ∷ xs) e full b = ground (arith, keep_last_all f.max_capacity xs (omega arith))

order-evict :
    (f : DeduplicationFilter)
    → length f.order ≤ f.max_capacity + 1
    → (evict f).order ≡ keep_last f.max_capacity f.order
unfolding evict
order-evict f b = elim (Bool-cases (ltb f.max_capacity (length f.order))) [
  | inl full ↦ rw full (order-pop_oldest f f.order refl (ground arith) b)
  | inr room ↦ rw room (sym (keep_last_all f.max_capacity f.order (ground arith)))
]

pub max_capacity-check_and_track :
    (f : DeduplicationFilter) (id : Text) → (check_and_track f id).0.max_capacity ≡ f.max_capacity
unfolding check_and_track evict
max_capacity-check_and_track f id =
    ground (arith, capacity-pop_oldest (f.order ++ id ∷ []) (track id f))
  where
    capacity-pop_oldest :
        (xs : List Text) (g : DeduplicationFilter) → (pop_oldest xs g).max_capacity ≡ g.max_capacity
    capacity-pop_oldest xs g = unfold pop_oldest in ground arith

-- The ids of `order` are the last ones of a history of accepted ids.
abbrev Remembers : ℕ → DeduplicationFilter → List Text → Type 0
Remembers n f accepted = (f.order ≡ keep_last n accepted) × (f.max_capacity ≡ n) × IsValid f

check_fresh :
    (n : ℕ) (f : DeduplicationFilter) (accepted : List Text) (id : Text)
    → Remembers n f accepted
    → contains id f.processed_ids ≡ false
    → (check_and_track f id).0.order ≡ keep_last n (accepted ++ id ∷ [])
unfolding check_and_track
check_fresh n f accepted id r h = rw h (
    order-evict (track id f) (omega (arith, r.2.bounded, length-append f.order (id ∷ [])))
    ∙ rw (r.1, r.0) (keep_last-append n accepted id))

check_known :
    (f : DeduplicationFilter) (id : Text)
    → contains id f.processed_ids ≡ true
    → check_and_track f id ≡ (f, true)
unfolding check_and_track
check_known f id h = rw h

flag_fresh :
    (f : DeduplicationFilter) (id : Text)
    → contains id f.processed_ids ≡ false
    → (check_and_track f id).1 ≡ false
unfolding check_and_track
flag_fresh f id h = rw h

flag-order :
    (f : DeduplicationFilter) (id : Text)
    → IsValid f
    → (check_and_track f id).1 ≡ contains id f.order
unfolding check_and_track
flag-order f id v = ground (arith, v.agree id)

run-Remembers :
    (n : ℕ) (f : DeduplicationFilter) (accepted ids : List Text)
    → Remembers n f accepted
    → Remembers n (run f ids).0 (accepted ++ (run f ids).1)
unfolding run
run-Remembers n f accepted [] r = rw (append-nil accepted) r
run-Remembers n f accepted (id ∷ ids) r = elim (Bool-cases (contains id f.processed_ids)) [
  | inl known ↦ rw (check_known f id known) (run-Remembers n f accepted ids r)
  | inr fresh ↦
      let f' : DeduplicationFilter = (check_and_track f id).0 in
      let r' : Remembers n f' (accepted ++ id ∷ []) = (
        check_fresh n f accepted id r fresh,
        max_capacity-check_and_track f id ∙ r.1,
        check_and_track-IsValid f id r.2,
      ) in
      rw (flag_fresh f id fresh) (
        rw (append_assoc accepted (id ∷ []) (run f' ids).1) at
          (run-Remembers n f' (accepted ++ id ∷ []) ids r'))
]

-- Whatever ids were seen before, an id is reported as a duplicate exactly if it is among the last
-- `max_capacity` ids that were accepted: none is processed twice within that window, and one that
-- has left it is accepted anew.
pub duplicate_iff_recent :
    (max_capacity : ℕ) (ids : List Text) (id : Text)
    → (check_and_track (run (new max_capacity) ids).0 id).1
      ≡ contains id (keep_last max_capacity (run (new max_capacity) ids).1)
duplicate_iff_recent n ids id =
    let r : Remembers n (run (new n) ids).0 (run (new n) ids).1 =
      run-Remembers n (new n) [] ids (unfold keep_last in (refl, refl, new-IsValid n)) in
    flag-order (run (new n) ids).0 id r.2 ∙ ap (contains id) r.0
