-- ===== src/Schema/Compatibility.antt =====
-- The compatibility modes against what they mean for the fields of the two schemas.
use caminus.Prelude.Fallible.{then-eq-ok, Result, ok, ◌>>◌}
use caminus.Prelude.{
  ◌≡◌, refl, ◌∙◌, sym, true, some, List, [], ◌∷◌, ◌↔◌, All, Option-cases, inl, inr, arith,
}
use caminus.Text.Defs.{Text, text_eq}
use caminus.Dict.Defs.{Dict, keys, get, contains_key}
use caminus.Dict.Laws.{IsMap}
use caminus.Json.Value.{Value, value_eq}
use caminus.Schema.Defs.{
  SchemaCompatibility, backward, forward, full, Incompatibility, field_deleted, field_added,
  schema_fields, check_types, check_contained, check_mode, check_fields, check_compatibility,
}
use caminus.Schema.Entries.{get-All, All-get, All-keys, keys-All, contains_key_iff}

abbrev Fine : Result Incompatibility (Unit {0})
Fine = ok tt

-- If the field is in the new schema too, its type is the same.
abbrev pub Agrees : Dict Text Value → Text → Value → Type 0
Agrees new n t = (t' : Value) → get n new ≡ some t' → value_eq t t' ≡ true

-- Every field of the first schema is in the second one, with the same type.
abbrev pub IsKept : Dict Text Value → Dict Text Value → Type 0
IsKept old new =
    (n : Text) (t : Value)
    → get n old ≡ some t
    → (t' : Value) × (get n new ≡ some t') × (value_eq t t' ≡ true)

-- Every field of the second schema is in the first one, with the same type.
abbrev pub IsKnown : Dict Text Value → Dict Text Value → Type 0
IsKnown old new =
    (n : Text) (t' : Value)
    → get n new ≡ some t'
    → (t : Value) × (get n old ≡ some t) × (value_eq t t' ≡ true)

check_types-All :
    (old new : Dict Text Value) → check_types old new ≡ Fine → All (λ x. Agrees new x.0 x.1) old
unfolding check_types
check_types-All [] new h = tt
check_types-All ((n, t) ∷ old) new h = elim (Option-cases (get n new)) [
  | inl missing ↦ (
    λ t' found. absurd (cc (missing, found)),
    check_types-All old new (ground (arith, missing, h)),
  )
  | inr (s, found) ↦ (
    λ t' found'. ground (arith, found, found', h),
    check_types-All old new (ground (arith, found, h)),
  )
]

All-check_types :
    (old new : Dict Text Value) → All (λ x. Agrees new x.0 x.1) old → check_types old new ≡ Fine
unfolding check_types
All-check_types [] new h = refl
All-check_types ((n, t) ∷ old) new h = elim (Option-cases (get n new)) [
  | inl missing ↦ ground (arith, missing, All-check_types old new h.1)
  | inr (s, found) ↦ ground (arith, found, h.0 s found, All-check_types old new h.1)
]

module _ (refusal : Text → Incompatibility) where
  check_contained-All :
      (names : List Text) (fields : Dict Text Value)
      → check_contained refusal names fields ≡ Fine
      → All (λ n. contains_key n fields ≡ true) names
  unfolding check_contained
  check_contained-All [] fields h = tt
  check_contained-All (n ∷ names) fields h =
      (ground (arith, h), check_contained-All names fields (ground (arith, h)))

  All-check_contained :
      (names : List Text) (fields : Dict Text Value)
      → All (λ n. contains_key n fields ≡ true) names
      → check_contained refusal names fields ≡ Fine
  unfolding check_contained
  All-check_contained [] fields h = refl
  All-check_contained (n ∷ names) fields h = rw h.0 (All-check_contained names fields h.1)

Fine-both : (a b : Result Incompatibility (Unit {0})) → a ≡ Fine → b ≡ Fine → (a >> b) ≡ Fine
Fine-both a b p q = rw p q

-- Two schemas that have their fields.
module _ (old_schema new_schema : Value) (old new : Dict Text Value)
    (of_old : schema_fields old_schema ≡ some old)
    (of_new : schema_fields new_schema ≡ some new) where
  check-types-mode :
      (mode : SchemaCompatibility)
      → check_fields mode old_schema new_schema ≡ (check_types old new >> check_mode mode old new)
  unfolding check_fields
  check-types-mode mode = rw (of_old, of_new)

  contained-get :
      (fields : Dict Text Value) (n : Text)
      → contains_key n fields ≡ true
      → (t : Value) × (get n fields ≡ some t)
  contained-get fields n h = (contains_key_iff n fields).0 h

  accepted_parts :
      (mode : SchemaCompatibility)
      → check_fields mode old_schema new_schema ≡ Fine
      → All (λ x. Agrees new x.0 x.1) old × (check_mode mode old new ≡ Fine)
  accepted_parts mode h =
      let (types, rest) = then-eq-ok _ _ (sym (check-types-mode mode) ∙ h) in
      (check_types-All old new types, rest)

  parts_accepted :
      (mode : SchemaCompatibility)
      → All (λ x. Agrees new x.0 x.1) old
      → check_mode mode old new ≡ Fine
      → check_fields mode old_schema new_schema ≡ Fine
  parts_accepted mode types rest =
      check-types-mode mode ∙ Fine-both _ _ (All-check_types old new types) rest

  names_contained :
      (xs ys : Dict Text Value) (refusal : Text → Incompatibility)
      → check_contained refusal (keys xs) ys ≡ Fine
      → (n : Text) (t : Value) → get n xs ≡ some t
      → (t' : Value) × (get n ys ≡ some t')
  names_contained xs ys refusal h n t found = contained-get ys n (
      get-All (λ m _. contains_key m ys ≡ true) xs n t
        (All-keys (λ m. contains_key m ys ≡ true) xs (check_contained-All refusal (keys xs) ys h))
        found)

  contained_names :
      (xs ys : Dict Text Value) (refusal : Text → Incompatibility)
      → IsMap xs
      → ((n : Text) (t : Value) → get n xs ≡ some t → (t' : Value) × (get n ys ≡ some t'))
      → check_contained refusal (keys xs) ys ≡ Fine
  contained_names xs ys refusal d h = All-check_contained refusal (keys xs) ys (
      keys-All (λ m. contains_key m ys ≡ true) xs
        (All-get (λ m _. contains_key m ys ≡ true) xs d
          (λ n t found. (contains_key_iff n ys).1 (h n t found))))

  -- Backward compatibility is accepted exactly if no field is deleted and none has changed its type.
  pub backward_iff :
      IsMap old → (check_compatibility old_schema new_schema backward ≡ Fine) ↔ IsKept old new
  unfolding check_compatibility check_mode
  backward_iff d = (kept, accepted)
    where
      kept : check_fields backward old_schema new_schema ≡ Fine → IsKept old new
      kept h n t found =
          let (types, names) = accepted_parts backward h in
          let (t', found') = names_contained old new field_deleted names n t found in
          (t', found', get-All (Agrees new) old n t types found t' found')

      accepted : IsKept old new → check_fields backward old_schema new_schema ≡ Fine
      accepted h =
          parts_accepted backward
            (All-get (Agrees new) old d (λ n t found t' found'.
              let (s, found_s, same) = h n t found in ground (arith, found', found_s, same)))
            (contained_names old new field_deleted d
              (λ n t found. let (s, found_s, same) = h n t found in (s, found_s)))

  -- Forward compatibility is accepted exactly if no field is added and none has changed its type.
  pub forward_iff :
      IsMap old
      → IsMap new
      → (check_compatibility old_schema new_schema forward ≡ Fine) ↔ IsKnown old new
  unfolding check_compatibility check_mode
  forward_iff d d' = (known, accepted)
    where
      known : check_fields forward old_schema new_schema ≡ Fine → IsKnown old new
      known h n t' found' =
          let (types, names) = accepted_parts forward h in
          let (t, found) = names_contained new old field_added names n t' found' in
          (t, found, get-All (Agrees new) old n t types found t' found')

      accepted : IsKnown old new → check_fields forward old_schema new_schema ≡ Fine
      accepted h =
          parts_accepted forward
            (All-get (Agrees new) old d (λ n t found t' found'.
              let (s, found_s, same) = h n t' found' in ground (arith, found, found_s, same)))
            (contained_names new old field_added d'
              (λ n t' found'. let (s, found_s, same) = h n t' found' in (s, found_s)))

  -- Full compatibility is accepted exactly where both backward and forward compatibility are.
  pub full_iff : (check_compatibility old_schema new_schema full ≡ Fine) ↔ (
      (check_compatibility old_schema new_schema backward ≡ Fine)
      × (check_compatibility old_schema new_schema forward ≡ Fine))
  unfolding check_compatibility check_mode
  full_iff = (parts, whole)
    where
      parts :
          check_fields full old_schema new_schema ≡ Fine
          → (check_fields backward old_schema new_schema ≡ Fine)
            × (check_fields forward old_schema new_schema ≡ Fine)
      parts h =
          let (types, names) = accepted_parts full h in
          let (deleted, added) = then-eq-ok _ _ names in
          (parts_accepted backward types deleted, parts_accepted forward types added)

      whole :
          (check_fields backward old_schema new_schema ≡ Fine)
            × (check_fields forward old_schema new_schema ≡ Fine)
          → check_fields full old_schema new_schema ≡ Fine
      whole h =
          let (types, deleted) = accepted_parts backward h.0 in
          let (types', added) = accepted_parts forward h.1 in
          parts_accepted full types (Fine-both _ _ deleted added)
