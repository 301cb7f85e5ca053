-- ===== src/Schema/Entries.antt =====
-- Walking the entries of a map against looking its keys up.
use caminus.Prelude.{
  ◌≡◌, true, some, [], ◌∷◌, PartialEq, ◌==◌, All, Bool-cases, Option-cases, inl, inr, arith,
  beq_refl, ◌↔◌,
}
use mathlib.Core.Path.{subst₂}
use caminus.Dict.Defs.{Dict, keys, get, contains_key}
use caminus.Dict.Laws.{IsMap}

module _ {ℓ κ} {K V : Type ℓ} ⦃e : PartialEq K⦄ (P : K → V → Type κ) where
  -- What holds of every entry holds of what a lookup finds.
  pub get-All : (m : Dict K V) (k : K) (v : V) → All (λ x. P x.0 x.1) m → get k m ≡ some v → P k v
  unfolding get
  get-All [] k v h found = cc
  get-All ((j, w) ∷ m) k v h found = elim (Bool-cases (j == k)) [
    | inl same ↦
        let value : w ≡ v = ground (arith, same, found) in
        subst₂ P ((e.eq_iff j k).0 same) value h.0
    | inr other ↦ get-All m k v h.1 (rw other at found)
  ]

  -- In a map with each key once, every entry is found by its key.
  pub All-get :
      (m : Dict K V)
      → IsMap m
      → ((k : K) (v : V) → get k m ≡ some v → P k v)
      → All (λ x. P x.0 x.1) m
  unfolding get
  All-get [] d h = tt
  All-get ((j, w) ∷ m) d h = (
    h j w (rw (beq_refl j)),
    All-get m d.1 (λ k v found. h k v (ground (arith, d.0, found, e.eq_iff j k))),
  )

-- What holds of the keys holds of the keys of the entries, and the other way round.
module _ {ℓ κ} {K V : Type ℓ} (Q : K → Type κ) where
  pub All-keys : (m : Dict K V) → All Q (keys m) → All (λ x. Q x.0) m
  All-keys [] h = tt
  All-keys ((k, v) ∷ m) h = (h.0, All-keys m h.1)

  pub keys-All : (m : Dict K V) → All (λ x. Q x.0) m → All Q (keys m)
  keys-All [] h = tt
  keys-All ((k, v) ∷ m) h = (h.0, keys-All m h.1)

-- A key is contained exactly if a lookup finds something.
pub contains_key_iff {ℓ} :
    {K V : Type ℓ} ⦃e : PartialEq K⦄ (k : K) (m : Dict K V)
    → (contains_key k m ≡ true) ↔ ((v : V) × (get k m ≡ some v))
unfolding contains_key
contains_key_iff k m = elim (Option-cases (get k m)) [
  | inl missing ↦ (λ h. absurd (cc (missing, h)), λ h. absurd (cc (missing, h.1)))
  | inr (v, found) ↦ (λ _. (v, found), λ _. rw found)
]
