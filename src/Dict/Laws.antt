-- ===== src/Dict/Laws.antt =====
-- What a lookup finds after each operation, and how the operations change the keys.
use caminus.Prelude.{
  ◌+◌, ◌≡◌, refl, true, none, some, [], ◌∷◌, arith, PartialEq, ◌==◌, if◌then◌else◌, length,
  Bool-cases, inl, inr,
}
use mathlib.Core.Option
use mathlib.Core.Option.{some-injective}
use caminus.Dict.Defs.{Dict, keys, get, contains_key, insert, remove, update}

module _ {ℓ} {K V : Type ℓ} ⦃e : PartialEq K⦄ where
  pub get-insert :
      (k j : K) (v : V) (m : Dict K V) → get j (insert k v m) ≡ (if k == j then some v else get j m)
  unfolding get insert
  get-insert k j v [] = refl
  get-insert k j v ((i, w) ∷ m) =
      ground (arith, e.eq_iff k j, e.eq_iff i k, e.eq_iff i j, get-insert k j v m)

  pub get-remove :
      (k j : K) (m : Dict K V) → get j (remove k m) ≡ (if k == j then none else get j m)
  unfolding get remove
  get-remove k j [] = ground arith
  get-remove k j ((i, w) ∷ m) =
      ground (arith, e.eq_iff k j, e.eq_iff i k, e.eq_iff i j, get-remove k j m)

  pub get-update :
      (k j : K) (f : V → V) (m : Dict K V)
      → get j (update k f m) ≡ (if k == j then Option.map f (get j m) else get j m)
  unfolding get update
  get-update k j f [] = ground arith
  get-update k j f ((i, w) ∷ m) =
      ground (arith, e.eq_iff k j, e.eq_iff i k, e.eq_iff i j, get-update k j f m)

  pub keys-update : (k : K) (f : V → V) (m : Dict K V) → keys (update k f m) ≡ keys m
  unfolding update
  keys-update k f [] = refl
  keys-update k f ((i, w) ∷ m) = ground (arith, keys-update k f m)

  pub contains_key-get : (k : K) (m : Dict K V) (v : V) → get k m ≡ some v → contains_key k m ≡ true
  unfolding contains_key
  contains_key-get k m v h = rw h

  -- Each key stands once.
  abbrev pub IsMap : Dict K V → Type ℓ
  IsMap [] = Unit
  IsMap ((k, v) ∷ m) = (get k m ≡ none) × IsMap m

  pub insert-IsMap : (k : K) (v : V) (m : Dict K V) → IsMap m → IsMap (insert k v m)
  unfolding insert get
  insert-IsMap k v [] h = (refl, tt)
  insert-IsMap k v ((j, w) ∷ m) h = elim (Bool-cases (j == k)) [
    | inl same ↦ rw same h
    | inr other ↦
        rw other
          (ground (arith, get-insert k j v m, e.eq_iff k j, e.eq_iff j k), insert-IsMap k v m h.1)
  ]

  pub remove-IsMap : (k : K) (m : Dict K V) → IsMap m → IsMap (remove k m)
  unfolding remove
  remove-IsMap k [] h = tt
  remove-IsMap k ((j, w) ∷ m) h = elim (Bool-cases (j == k)) [
    | inl same ↦ rw same (remove-IsMap k m h.1)
    | inr other ↦ rw other (ground (arith, get-remove k j m), remove-IsMap k m h.1)
  ]

  pub update-IsMap : (k : K) (f : V → V) (m : Dict K V) → IsMap m → IsMap (update k f m)
  unfolding update
  update-IsMap k f [] h = tt
  update-IsMap k f ((j, w) ∷ m) h = elim (Bool-cases (j == k)) [
    | inl same ↦ rw same h
    | inr other ↦
        rw other
          (ground (arith, get-update k j f m, e.eq_iff k j, e.eq_iff j k), update-IsMap k f m h.1)
  ]

  pub length-insert :
      (k : K) (v : V) (m : Dict K V)
      → length (insert k v m) ≡ (if contains_key k m then length m else length m + 1)
  unfolding insert contains_key get
  length-insert k v [] = omega arith
  length-insert k v ((j, w) ∷ m) = ground (arith, length-insert k v m)
