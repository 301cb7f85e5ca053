-- ===== src/Confluent/Ids.antt =====
-- The ids of the subjects.
use caminus.Prelude.{
  ℕ, ◌+◌, ◌%◌, ◌^◌, ◌<◌, ◌≡◌, ◌≢◌, refl, sym, subst, none, some, Option-cases, if◌then◌else◌, arith,
  inl, inr, beq_refl,
}
use caminus.Text.Defs.{Text, text_eq, text_beq, text_beq_iff}
use caminus.Dict.Defs.{get}
use caminus.Dict.Laws.{get-insert}
use caminus.Confluent.Defs.{ConfluentRegistryClient, new, cached, assign, register_schema}

-- Every id that is given is less than the next one, and none is given to two subjects.
pub record IsValid (s : ConfluentRegistryClient) : Type 0 where
  pub below : (subject : Text) (id : ℕ) → cached subject s ≡ some id → id < s.next_schema_id
  pub unique : (a b : Text) (id : ℕ) → cached a s ≡ some id → cached b s ≡ some id → a ≡ b

pub new-IsValid : (url : Text) → IsValid (new url)
unfolding get
new-IsValid url = record {
  below = λ subject id h. absurd (cc h);
  unique = λ a b id h k. absurd (cc h);
}

pub cached-assign :
    (subject other : Text) (s : ConfluentRegistryClient)
    → cached other (assign subject s).1
      ≡ (if text_beq subject other then some s.next_schema_id else cached other s)
cached-assign subject other s = get-insert subject other s.next_schema_id s.schema_cache

pub assign-IsValid :
    (subject : Text) (s : ConfluentRegistryClient)
    → s.next_schema_id + 1 < 2 ^ 32
    → IsValid s
    → IsValid (assign subject s).1
assign-IsValid subject s room v =
    let grows : (s.next_schema_id + 1) % 2 ^ 32 ≡ s.next_schema_id + 1 = omega arith in
    record {
      below =
          λ other id h. ground (arith, grows, cached-assign subject other s, h, v.below other id);
      unique = λ a b id h k. ground (
        arith,
        cached-assign subject a s,
        cached-assign subject b s,
        h,
        k,
        v.below a id,
        v.below b id,
        v.unique a b id,
        text_beq_iff subject a,
        text_beq_iff subject b,
      );
    }

register_schema-miss :
    (subject : Text) (s : ConfluentRegistryClient)
    → cached subject s ≡ none
    → register_schema subject s ≡ assign subject s
unfolding register_schema
register_schema-miss subject s miss = rw (register_schema, miss) refl

register_schema-hit :
    (subject : Text) (s : ConfluentRegistryClient) (id : ℕ)
    → cached subject s ≡ some id
    → register_schema subject s ≡ (id, s)
unfolding register_schema
register_schema-hit subject s id hit = rw (register_schema, hit) refl

-- What a registration in the second state has come to, from the first.
abbrev pub Registered : Text → ConfluentRegistryClient → ℕ × ConfluentRegistryClient → Type 0
Registered subject s (id, t) =
    IsValid t
    × (cached subject t ≡ some id)
    × ((other : Text) (i : ℕ) → cached other s ≡ some i → cached other t ≡ some i)

-- A registration, while there is room for one more id: the subject has the id that is returned, in
-- the cache too, all ids that subjects had are kept, and no id belongs to two subjects.
pub register_schema-IsValid :
    (subject : Text) (s : ConfluentRegistryClient)
    → s.next_schema_id + 1 < 2 ^ 32
    → IsValid s
    → Registered subject s (register_schema subject s)
register_schema-IsValid subject s room v = elim (Option-cases (cached subject s)) [
  | inl miss ↦ subst (Registered subject s) (sym (register_schema-miss subject s miss)) (
    assign-IsValid subject s room v,
    ground (arith, cached-assign subject subject s, beq_refl subject),
    λ other id h.
        ground (arith, cached-assign subject other s, text_beq_iff subject other, miss, h),
  )
  | inr (id, hit) ↦
      subst (Registered subject s) (sym (register_schema-hit subject s id hit))
        (v, hit, λ other i h. h)
]

pub register_schema-lt :
    (subject : Text) (s : ConfluentRegistryClient)
    → s.next_schema_id < 2 ^ 32
    → IsValid s
    → (register_schema subject s).0 < 2 ^ 32
register_schema-lt subject s room v = elim (Option-cases (cached subject s)) [
  | inl miss ↦ subst (λ r. r.0 < 2 ^ 32) (sym (register_schema-miss subject s miss)) room
  | inr (id, hit) ↦
      subst (λ r. r.0 < 2 ^ 32) (sym (register_schema-hit subject s id hit))
        (omega (arith, v.below subject id hit))
]

-- Two calls for a subject without an id that both read the cache before either writes it get
-- different ids, and the cache keeps the id of the second.
raced_ids :
    (subject : Text) (s : ConfluentRegistryClient)
    → s.next_schema_id < 2 ^ 32
    → cached subject s ≡ none
    → ((assign subject s).0 ≢ (assign subject (assign subject s).1).0)
      × (cached subject (assign subject (assign subject s).1).1
          ≡ some (assign subject (assign subject s).1).0)
raced_ids subject s small miss = (
  λ same. absurd (omega (arith, same)),
  ground (arith, cached-assign subject subject (assign subject s).1, beq_refl subject),
)
