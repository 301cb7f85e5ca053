-- ===== src/Sync/Conflicts.antt =====
-- What is forwarded, and how conflicts are resolved.
use caminus.Prelude.{
  ℕ, ◌≤◌, ◌<◌, ◌≡◌, ◌↔◌, ◌⊎◌, inl, inr, refl, sym, ap, ◌∙◌, true, false, some, Option-cases, ◌++◌,
  leb, arith,
}
use caminus.Text.Defs.{Text, codes, starts_with_iff}
use caminus.Event.{ChangeEvent}
use caminus.Sync.Defs.{SyncCoordinator, should_forward, resolve_conflict}

-- An event is held back exactly if the id of its transaction goes on from `remote-` and the name of
-- the local cluster, with anything after it: the rest of a longer cluster's name too.
should_forward_iff :
    (s : SyncCoordinator) (event : ChangeEvent)
    → (should_forward s event ≡ false) ↔ (
        (rest : Text) × (event.transaction_id
          ≡ some ((codes "remote-" ++ s.local_cluster_id) ++ rest)))
unfolding should_forward
should_forward_iff s event = elim (Option-cases event.transaction_id) [
  | inl nothing ↦ (λ h. absurd (ground (arith, nothing, h)), λ h. absurd (cc (nothing, h.1)))
  | inr (tx, e) ↦
      let prefix : Text = codes "remote-" ++ s.local_cluster_id in
      let k = starts_with_iff tx prefix in
      (
        λ h. let (rest, split) = k.0 (ground (arith, e, h)) in (rest, e ∙ ap some split),
        λ h. let split : tx ≡ prefix ++ h.0 = cc (e, h.1) in ground (arith, e, k.1 (h.0, split)),
      )
]

module _ (s : SyncCoordinator) where
  kept_first : (a b : ChangeEvent) → b.timestamp ≤ a.timestamp → resolve_conflict s a b ≡ a
  unfolding resolve_conflict
  kept_first a b h = let e : leb b.timestamp a.timestamp ≡ true = ground arith in rw e refl

  kept_second : (a b : ChangeEvent) → a.timestamp < b.timestamp → resolve_conflict s a b ≡ b
  unfolding resolve_conflict
  kept_second a b h = let e : leb b.timestamp a.timestamp ≡ false = ground arith in rw e refl

  order : (m n : ℕ) → (m ≤ n) ⊎ (n < m)
  order m n = omega arith

  -- The winner of two events is one of them and is as late as both. For different times it does not
  -- depend on which event comes first; for equal times the first argument wins, whichever it is.
  pub resolve_conflict_latest :
      (a b : ChangeEvent)
      → ((resolve_conflict s a b ≡ a) ⊎ (resolve_conflict s a b ≡ b))
        × (a.timestamp ≤ (resolve_conflict s a b).timestamp)
        × (b.timestamp ≤ (resolve_conflict s a b).timestamp)
        × ((resolve_conflict s a b ≡ resolve_conflict s b a)
            ⊎ ((a.timestamp ≡ b.timestamp)
                × (resolve_conflict s a b ≡ a)
                × (resolve_conflict s b a ≡ b)))
  resolve_conflict_latest a b = elim (order b.timestamp a.timestamp) [
    | inl later ↦
        let e = kept_first a b later in
        let t : (resolve_conflict s a b).timestamp ≡ a.timestamp = ap (λ x. x.timestamp) e in
        (
          inl e,
          omega (arith, t),
          omega (arith, t),
          elim (order a.timestamp b.timestamp) [
            | inl tie ↦ inr (omega arith, e, kept_first b a tie)
            | inr before ↦ inl (e ∙ sym (kept_second b a before))
          ],
        )
    | inr before ↦
        let e = kept_second a b before in
        let t : (resolve_conflict s a b).timestamp ≡ b.timestamp = ap (λ x. x.timestamp) e in
        (inr e, omega (arith, t), omega (arith, t), inl (e ∙ sym (kept_first b a (omega arith))))
  ]
