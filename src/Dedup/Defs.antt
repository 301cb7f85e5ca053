-- ===== src/Dedup/Defs.antt =====
-- `DeduplicationFilter`: a set of ids for the lookup, and a queue of the same ids for the eviction.
use caminus.Prelude.{
  ℕ, Bool, true, false, ◌||◌, List, [], ◌∷◌, ◌++◌, ◌==◌, ltb, if◌then◌else◌, length,
}
use caminus.Text.Defs.{Text, text_eq}

-- `contains`, `insert` of an absent element, and `remove` of a `HashSet<String>`.
unfoldable pub contains : Text → List Text → Bool
contains id [] = false
contains id (x ∷ xs) = x == id || contains id xs

unfoldable pub remove : Text → List Text → List Text
remove id [] = []
remove id (x ∷ xs) = let rest = remove id xs in if x == id then rest else x ∷ rest

-- `order` has its front, the oldest id, at the head.
pub record DeduplicationFilter : Type 0 where
  pub processed_ids : List Text
  pub order : List Text
  pub max_capacity : ℕ

abbrev pub new : ℕ → DeduplicationFilter
new max_capacity = record { processed_ids = []; order = []; max_capacity = max_capacity }

-- `if let Some(oldest) = order.pop_front() { processed_ids.remove(&oldest) }`
unfoldable pub pop_oldest : List Text → DeduplicationFilter → DeduplicationFilter
pop_oldest [] f = f
pop_oldest (oldest ∷ rest) f = record f {
  processed_ids = remove oldest f.processed_ids;
  order = rest;
}

unfoldable pub evict : DeduplicationFilter → DeduplicationFilter
unfolding pop_oldest
evict f = if ltb f.max_capacity (length f.order) then pop_oldest f.order f else f

abbrev pub track : Text → DeduplicationFilter → DeduplicationFilter
track id f = record f { processed_ids = id ∷ f.processed_ids; order = f.order ++ id ∷ [] }

unfoldable pub check_and_track : DeduplicationFilter → Text → DeduplicationFilter × Bool
check_and_track f id =
    if contains id f.processed_ids then (f, true) else (evict (track id f), false)

-- The ids of a run that were not reported as duplicates, in order.
unfoldable pub run : DeduplicationFilter → List Text → DeduplicationFilter × List Text
run f [] = (f, [])
run f (id ∷ ids) =
    let (f', duplicate) = check_and_track f id in
    let (f'', accepted) = run f' ids in (f'', if duplicate then accepted else id ∷ accepted)
