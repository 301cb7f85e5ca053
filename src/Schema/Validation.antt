-- ===== src/Schema/Validation.antt =====
-- What the validation of an event accepts.
use caminus.Prelude.Fallible.{Result, ok, err, ok_or, bind-eq-ok, then-eq-ok}
use caminus.Prelude.{
  ◌≡◌, refl, Bool, true, false, Option, none, some, [], ◌∷◌, ◌↔◌, ◌⊎◌, All, Bool-cases, inl, inr,
  arith,
}
use caminus.Text.Defs.{Text, codes, text_eq, text_beq, text_beq_iff}
use caminus.Dict.Defs.{Dict, get}
use caminus.Json.Number.{Number, is_integral}
use caminus.Json.Value.{
  Value, bool, number, string, as_object, as_str, is_string, is_boolean, is_number,
}
use caminus.Event.{ChangeEvent, operation_eq}
use caminus.Schema.Defs.{
  Validation, schema_without_fields, schema_fields, is_integer, check_value, check_field,
  check_payload, check_after, is_validated, validate_against,
}

-- The values of each type that a schema can name.
pub data HasType : Text → Value → Type 0 where
  integer :
      {t : Text} (n : Number) → t ≡ codes "integer" → is_integral n ≡ true → HasType t (number n)
  text : {t : Text} (s : Text) → t ≡ codes "string" → HasType t (string s)
  boolean : {t : Text} (b : Bool) → t ≡ codes "boolean" → HasType t (bool b)
  float : {t : Text} (n : Number) → t ≡ codes "float" → HasType t (number n)

-- The payload has a value of the type that the schema names for the field.
abbrev pub Conforms : Dict Text Value → Text → Value → Type 0
Conforms payload name type_val =
    (t : Text) × (v : Value) × (as_str type_val ≡ some t)
    × (get name payload ≡ some v)
    × HasType t v

abbrev Fine : Result Validation (Unit {0})
Fine = ok tt

check_value-HasType : (n t : Text) (v : Value) → check_value n t v ≡ Fine → HasType t v
unfolding check_value
check_value-HasType n t v h = elim (Bool-cases (text_beq t (codes "integer"))) [
  | inl i ↦ as_integer v ((text_beq_iff _ _).0 i) (ground (arith, i, h))
  | inr ni ↦ elim (Bool-cases (text_beq t (codes "string"))) [
    | inl s ↦ as_string v ((text_beq_iff _ _).0 s) (ground (arith, ni, s, h))
    | inr ns ↦ elim (Bool-cases (text_beq t (codes "boolean"))) [
      | inl b ↦ as_boolean v ((text_beq_iff _ _).0 b) (ground (arith, ni, ns, b, h))
      | inr nb ↦
          as_float v ((text_beq_iff _ _).0 (ground (arith, ni, ns, nb, h)))
            (ground (arith, ni, ns, nb, h))
    ]
  ]
]
  where
    as_integer : (w : Value) → t ≡ codes "integer" → is_integer w ≡ true → HasType t w
    as_integer (number m) e k = integer m e (unfold is_integer in k)
    as_integer w e k = absurd (unfold is_integer in cc k)

    as_string : (w : Value) → t ≡ codes "string" → is_string w ≡ true → HasType t w
    as_string (Value.string s) e k = text s e
    as_string w e k = absurd (unfold is_string in cc k)

    as_boolean : (w : Value) → t ≡ codes "boolean" → is_boolean w ≡ true → HasType t w
    as_boolean (bool b) e k = boolean b e
    as_boolean w e k = absurd (unfold is_boolean in cc k)

    as_float : (w : Value) → t ≡ codes "float" → is_number w ≡ true → HasType t w
    as_float (number m) e k = float m e
    as_float w e k = absurd (unfold is_number in cc k)

HasType-check_value : (n t : Text) (v : Value) → HasType t v → check_value n t v ≡ Fine
unfolding check_value is_integer is_string is_boolean is_number text_beq
HasType-check_value n t v (integer m e i) = rw e (rw i)
HasType-check_value n t v (text s e) = rw e
HasType-check_value n t v (boolean b e) = rw e
HasType-check_value n t v (float m e) = rw e

ok_or-eq {ℓ} : {E A : Type ℓ} (e : E) (o : Option A) {a : A} → ok_or e o ≡ ok a → o ≡ some a
ok_or-eq e none h = cc
ok_or-eq e (some b) h = cc

check_field_iff :
    (n : Text) (type_val : Value) (payload : Dict Text Value)
    → (check_field n type_val payload ≡ Fine) ↔ Conforms payload n type_val
unfolding check_field
check_field_iff n type_val payload = (conforms, accepted)
  where
    conforms : check_field n type_val payload ≡ Fine → Conforms payload n type_val
    conforms h =
        let (t, typed, rest) = bind-eq-ok _ _ h in
        let (v, found, checked) = bind-eq-ok _ _ rest in
        (t, v, ok_or-eq _ _ typed, ok_or-eq _ _ found, check_value-HasType n t v checked)

    accepted : Conforms payload n type_val → check_field n type_val payload ≡ Fine
    accepted (t, v, typed, found, has) = rw (typed, found) (HasType-check_value n t v has)

check_payload-All :
    (fields payload : Dict Text Value)
    → check_payload fields payload ≡ Fine
    → All (λ x. Conforms payload x.0 x.1) fields
unfolding check_payload
check_payload-All [] payload h = tt
check_payload-All ((n, t) ∷ fields) payload h =
    let (one, rest) = then-eq-ok _ _ h in
    ((check_field_iff n t payload).0 one, check_payload-All fields payload rest)

All-check_payload :
    (fields payload : Dict Text Value)
    → All (λ x. Conforms payload x.0 x.1) fields
    → check_payload fields payload ≡ Fine
unfolding check_payload
All-check_payload [] payload h = refl
All-check_payload ((n, t) ∷ fields) payload h =
    rw ((check_field_iff n t payload).1 h.0) (All-check_payload fields payload h.1)

-- There is a payload, it is an object, and every field of the schema stands in it as it should.
pub data HasPayload (fields : Dict Text Value) : Option Value → Type 0 where
  payload :
      (v : Value) (members : Dict Text Value)
      → as_object v ≡ some members
      → All (λ x. Conforms members x.0 x.1) fields
      → HasPayload fields (some v)

check_after-HasPayload :
    (fields : Dict Text Value) (after : Option Value)
    → check_after fields after ≡ Fine
    → HasPayload fields after
check_after-HasPayload fields none h = absurd (cc h)
check_after-HasPayload fields (some v) h =
    let (members, is_object, checked) = bind-eq-ok _ _ h in
    payload v members (ok_or-eq _ _ is_object) (check_payload-All fields members checked)

HasPayload-check_after :
    (fields : Dict Text Value) (after : Option Value)
    → HasPayload fields after
    → check_after fields after ≡ Fine
HasPayload-check_after fields none h = elim h [ ]
HasPayload-check_after fields (some _) (payload v members is_object h) =
    rw is_object (All-check_payload fields members h)

-- Against a schema that has its fields, an event is accepted exactly if its operation is neither a
-- create nor an update, or it has a payload that is an object and in which every field of the
-- schema stands with a value of the type that the schema names.
pub validate_iff :
    (schema : Value) (fields : Dict Text Value) (event : ChangeEvent)
    → schema_fields schema ≡ some fields
    → (validate_against schema event ≡ Fine)
      ↔ ((is_validated event.operation ≡ false) ⊎ HasPayload fields event.after)
unfolding validate_against
validate_iff schema fields event has = elim (Bool-cases (is_validated event.operation)) [
  | inl yes' ↦
      rw (has, yes')
        (λ h. inr (check_after-HasPayload fields event.after h), λ h. accepted_payload h)
  | inr no' ↦ rw (has, no') (λ _. inl refl, λ _. refl)
]
  where
    accepted_payload :
        (true ≡ false) ⊎ HasPayload fields event.after → check_after fields event.after ≡ Fine
    accepted_payload (inl e) = absurd (cc e)
    accepted_payload (inr h) = HasPayload-check_after fields event.after h

-- Against a schema without fields, which the registry accepts as the first schema of a source and
-- in the mode that checks nothing, every event is refused, commits and deletes too.
validate_without_fields :
    (schema : Value) (event : ChangeEvent)
    → schema_fields schema ≡ none
    → validate_against schema event ≡ err schema_without_fields
unfolding validate_against
validate_without_fields schema event h = rw h
