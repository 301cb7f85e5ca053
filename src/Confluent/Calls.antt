-- ===== src/Confluent/Calls.antt =====
-- Calls of `register_schema` by several tasks at once: the look-up under the read lock and the
-- assignment under the write locks are steps of their own, between which other calls may run.
use caminus.Prelude.{
  ℕ, zero, suc, ◌+◌, ◌^◌, ◌≤◌, ◌<◌, ◌≡◌, refl, sym, subst, Bool-cases, inl, inr, none, some, List,
  [], ◌∷◌, ◌++◌, All, All-map, arith,
}
use caminus.Text.Defs.{Text, text_eq, text_beq, text_beq_iff}
use caminus.Dict.Defs.{get}
use caminus.Confluent.Defs.{ConfluentRegistryClient, new, cached, assign}
use caminus.Confluent.Ids.{IsValid, new-IsValid, cached-assign, assign-IsValid}

-- The client, the subjects of the calls that have not found an id and not yet assigned one, and the
-- ids that calls have returned, the last one first.
pub record Calls : Type 0 where
  pub client : ConfluentRegistryClient
  pub waiting : List Text
  pub returned : List (Text × ℕ)

abbrev pub no_calls : Text → Calls
no_calls url = record { client = new url; waiting = []; returned = [] }

pub data Step (c d : Calls) : Type 0 where
  found :
      (subject : Text) (id : ℕ)
      → cached subject c.client ≡ some id
      → d ≡ record c { returned = (subject, id) ∷ c.returned }
      → Step c d
  not_found :
      (subject : Text)
      → cached subject c.client ≡ none
      → d ≡ record c { waiting = subject ∷ c.waiting }
      → Step c d
  assigned :
      (before after : List Text) (subject : Text)
      → c.waiting ≡ before ++ subject ∷ after
      → d ≡ record {
        client = (assign subject c.client).1;
        waiting = before ++ after;
        returned = (subject, (assign subject c.client).0) ∷ c.returned;
      }
      → Step c d

pub data Steps (c : Calls) : ℕ → Calls → Type 0 where
  here : Steps c 0 c
  next : {n : ℕ} {d e : Calls} → Steps c n d → Step d e → Steps c (suc n) e

-- An id that is also given elsewhere is given to the same subject there.
abbrev pub Distinct : List (Text × ℕ) → Type 0
Distinct [] = Unit {0}
Distinct ((a, i) ∷ rest) = All (λ r. r.1 ≡ i → r.0 ≡ a) rest × Distinct rest

-- No id was returned for two subjects, and each subject that an id was returned for has an id in the
-- cache, which was not returned for another.
pub record AreConsistent (c : Calls) : Type 0 where
  pub valid : IsValid c.client
  pub below : All (λ (r : Text × ℕ). r.1 < c.client.next_schema_id) c.returned
  pub distinct : Distinct c.returned
  pub own :
      (a : Text) (i : ℕ)
      → cached a c.client ≡ some i
      → All (λ (r : Text × ℕ). r.1 ≡ i → r.0 ≡ a) c.returned
  pub held : All (λ (r : Text × ℕ). (i : ℕ) × (cached r.0 c.client ≡ some i)) c.returned

found-AreConsistent :
    (c : Calls) (subject : Text) (id : ℕ)
    → cached subject c.client ≡ some id
    → AreConsistent c
    → AreConsistent (record c { returned = (subject, id) ∷ c.returned })
found-AreConsistent c subject id hit h = record {
  valid = h.valid;
  below = (h.valid.below subject id hit, h.below);
  distinct = (h.own subject id hit, h.distinct);
  own = λ a i there. (
    λ same.
        h.valid.unique subject a i (subst (λ k. cached subject c.client ≡ some k) same hit) there,
    h.own a i there,
  );
  held = ((id, hit), h.held);
}

module _ (c : Calls) (subject : Text) (room : c.client.next_schema_id + 1 < 2 ^ 32)
    (h : AreConsistent c) where
  abbrev made : ℕ × ConfluentRegistryClient
  made = assign subject c.client

  fresh : All (λ (r : Text × ℕ). r.1 ≡ made.0 → r.0 ≡ subject) c.returned
  fresh = All-map (λ r small same. absurd (omega (arith, small, same))) c.returned h.below

  assigned-own :
      (a : Text) (i : ℕ)
      → cached a made.1 ≡ some i
      → All (λ (r : Text × ℕ). r.1 ≡ i → r.0 ≡ a) ((subject, made.0) ∷ c.returned)
  assigned-own a i there = elim (Bool-cases (text_beq subject a)) [
    | inl same ↦
        let e : subject ≡ a = (text_beq_iff subject a).0 same in
        let at : made.0 ≡ i = ground (arith, cached-assign subject a c.client, same, there) in
        (
          λ k. e,
          subst (λ b. All (λ (r : Text × ℕ). r.1 ≡ i → r.0 ≡ b) c.returned) e
              (subst (λ k. All (λ (r : Text × ℕ). r.1 ≡ k → r.0 ≡ subject) c.returned) at fresh),
        )
    | inr other ↦
        let before : cached a c.client ≡ some i =
          ground (arith, cached-assign subject a c.client, other, there) in
        (λ k. absurd (omega (arith, k, h.valid.below a i before)), h.own a i before)
  ]

  assigned-held :
      (r : Text × ℕ)
      → (i : ℕ) × (cached r.0 c.client ≡ some i)
      → (i : ℕ) × (cached r.0 made.1 ≡ some i)
  assigned-held r (i, there) = elim (Bool-cases (text_beq subject r.0)) [
    | inl same ↦ (made.0, ground (arith, cached-assign subject r.0 c.client, same))
    | inr other ↦ (i, ground (arith, cached-assign subject r.0 c.client, other, there))
  ]

  assigned-AreConsistent :
      (waiting : List Text)
      → AreConsistent
          record { client = made.1; waiting = waiting; returned = (subject, made.0) ∷ c.returned }
  assigned-AreConsistent waiting =
      let grows : made.1.next_schema_id ≡ c.client.next_schema_id + 1 = omega (arith, room) in
      record {
        valid = assign-IsValid subject c.client room h.valid;
        below = (
          omega (arith, grows),
          All-map (λ r small. omega (arith, small, grows)) c.returned h.below,
        );
        distinct = (fresh, h.distinct);
        own = assigned-own;
        held = (
          (
            made.0,
            ground (
              arith,
              cached-assign subject subject c.client,
              (text_beq_iff subject subject).1 refl,
            ),
          ),
          All-map assigned-held c.returned h.held,
        );
      }

Step-AreConsistent :
    (c d : Calls)
    → c.client.next_schema_id + 1 < 2 ^ 32
    → Step c d
    → AreConsistent c
    → AreConsistent d × (d.client.next_schema_id ≤ c.client.next_schema_id + 1)
Step-AreConsistent c d room (found subject id hit e) h =
    subst (λ x. AreConsistent x × (x.client.next_schema_id ≤ c.client.next_schema_id + 1)) (sym e)
      (found-AreConsistent c subject id hit h, omega arith)
Step-AreConsistent c d room (not_found subject miss e) h =
    subst (λ x. AreConsistent x × (x.client.next_schema_id ≤ c.client.next_schema_id + 1)) (sym e)
      (
        record {
          valid = h.valid;
          below = h.below;
          distinct = h.distinct;
          own = h.own;
          held = h.held;
        },
        omega arith,
      )
Step-AreConsistent c d room (assigned before after subject at e) h =
    subst (λ x. AreConsistent x × (x.client.next_schema_id ≤ c.client.next_schema_id + 1)) (sym e)
      (assigned-AreConsistent c subject room h (before ++ after), omega arith)

no_calls-AreConsistent : (url : Text) → AreConsistent (no_calls url)
unfolding get
no_calls-AreConsistent url = record {
  valid = new-IsValid url;
  below = tt;
  distinct = tt;
  own = λ a i there. tt;
  held = tt;
}

-- Calls of `register_schema` from a new client, any number of them at once, however their look-ups and
-- their assignments come in between each other: while the steps are too few for the ids to wrap around,
-- every id that a call has returned is below the next one, none was returned for two subjects, and each
-- subject that an id was returned for has an id in the cache, so that a later look-up finds one, and
-- the ids in the cache were returned for no other subject. A subject may have had several ids.
pub Steps-AreConsistent :
    (url : Text) (n : ℕ) (c : Calls)
    → n + 101 < 2 ^ 32
    → Steps (no_calls url) n c
    → AreConsistent c × (c.client.next_schema_id ≤ 100 + n)
Steps-AreConsistent url zero c few here = (no_calls-AreConsistent url, omega arith)
Steps-AreConsistent url (suc n) c few (next {d = d} steps step) =
    let (before, small) = Steps-AreConsistent url n d (omega (arith, few)) steps in
    let (after, more) = Step-AreConsistent d c (omega (arith, small, few)) step before in
    (after, omega (arith, small, more))
