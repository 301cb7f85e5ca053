-- ===== src/Consensus/Lease.antt =====
-- When the lease is held, and from where a stream resumes.
use caminus.Prelude.{
  ℕ, ◌-◌, ◌*◌, ◌<◌, ◌≡◌, ◌↔◌, ◌⊎◌, inl, inr, refl, sym, ap, ◌∙◌, true, false, Bool-cases, some,
  List, [], ◌∷◌, ◌++◌, ltb, ok, arith,
}
use caminus.Text.Defs.{Text}
use caminus.Text.Utf8.{is_utf8}
use caminus.Storage.Database.{Database, Serde}
use caminus.Storage.Store.{save_offset}
use caminus.Storage.Laws.{get-save_offset}
use caminus.Consensus.Failover.{
  FailoverController, record_heartbeat, check_and_claim_lease, resume_checkpoint_offset, Call,
  heartbeat, check, run,
}

-- The reading at the last heartbeat of the calls.
unfoldable pub last_heartbeat : ℕ → List Call → ℕ
last_heartbeat last [] = last
last_heartbeat last (heartbeat now ∷ calls) = last_heartbeat now calls
last_heartbeat last (check now ∷ calls) = last_heartbeat last calls

-- Among the calls there is a check that comes more than two intervals after the heartbeat before it.
abbrev pub Lapsed : ℕ → ℕ → List Call → Type 0
Lapsed interval last calls =
    (before : List Call) × (now : ℕ) × (after : List Call) × (calls ≡ before ++ check now ∷ after)
    × (interval * 2 < now - last_heartbeat last before)

Lapsed-later :
    (interval last now : ℕ) (c : Call) (calls : List Call)
    → last_heartbeat last (c ∷ []) ≡ now
    → Lapsed interval now calls
    → Lapsed interval last (c ∷ calls)
unfolding last_heartbeat
Lapsed-later interval last now (heartbeat at) calls e (before, t, after, split, long) =
    (heartbeat at ∷ before, t, after, ap (◌∷◌ (heartbeat at)) split, rw e long)
Lapsed-later interval last now (check at) calls e (before, t, after, split, long) =
    (check at ∷ before, t, after, ap (◌∷◌ (check at)) split, rw e long)

Lapsed-cons :
    (interval last : ℕ) (c : Call) (calls : List Call)
    → Lapsed interval last (c ∷ calls)
    → ((now : ℕ) × (c ≡ check now) × (interval * 2 < now - last))
      ⊎ Lapsed interval (last_heartbeat last (c ∷ [])) calls
unfolding last_heartbeat
Lapsed-cons interval last c calls ([], t, after, split, long) = inl (t, cc split, long)
Lapsed-cons interval last c calls (heartbeat at ∷ before, t, after, split, long) =
    let e : c ≡ heartbeat at = cc split in inr (before, t, after, cc split, rw e long)
Lapsed-cons interval last c calls (check at ∷ before, t, after, split, long) =
    let e : c ≡ check at = cc split in inr (before, t, after, cc split, rw e long)

check_at : (now t : ℕ) → check now ≡ check t → now ≡ t
check_at now t e = cc e

claimed :
    (now : ℕ) (s : FailoverController)
    → ltb (s.heartbeat_interval * 2) (now - s.last_leader_heartbeat) ≡ true
    → (check_and_claim_lease now s).1 ≡ record s { active_lease = true }
unfolding check_and_claim_lease
claimed now s over = rw over refl

not_claimed :
    (now : ℕ) (s : FailoverController)
    → ltb (s.heartbeat_interval * 2) (now - s.last_leader_heartbeat) ≡ false
    → (check_and_claim_lease now s).1 ≡ s
unfolding check_and_claim_lease
not_claimed now s under = rw under refl

-- The lease is held after any calls exactly if it was held before them, or one of them is a check
-- more than two intervals after the last heartbeat at that time: a heartbeat never ends the lease.
pub lease_iff :
    (s : FailoverController) (calls : List Call)
    → ((run s calls).active_lease ≡ true)
      ↔ ((s.active_lease ≡ true) ⊎ Lapsed s.heartbeat_interval s.last_leader_heartbeat calls)
unfolding run last_heartbeat
lease_iff s [] = (
  inl,
  λ h. elim h [
    | inl held ↦ held
    | inr ([], t, after, split, long) ↦ absurd (cc split)
    | inr (c ∷ before, t, after, split, long) ↦ absurd (cc split)
  ],
)
lease_iff s (heartbeat now ∷ calls) =
    let interval = s.heartbeat_interval in
    let last = s.last_leader_heartbeat in
    let ih = lease_iff (record_heartbeat now s) calls in
    (
      λ h. elim (ih.0 h) [
        | inl held ↦ inl held
        | inr later ↦ inr (Lapsed-later interval last now (heartbeat now) calls refl later)
      ],
      λ h. elim h [
        | inl held ↦ ih.1 (inl held)
        | inr lapsed ↦ elim (Lapsed-cons interval last (heartbeat now) calls lapsed) [
          | inl (t, e, long) ↦ absurd (cc e)
          | inr later ↦ ih.1 (inr later)
        ]
      ],
    )
lease_iff s (check now ∷ calls) =
    elim (Bool-cases (ltb (s.heartbeat_interval * 2) (now - s.last_leader_heartbeat))) [
      | inl over ↦
          let ih = lease_iff (record s { active_lease = true }) calls in
          let e = ap (λ u. (run u calls).active_lease) (claimed now s over) in
          (λ h. inr ([], now, calls, refl, ground (arith, over)), λ h. e ∙ ih.1 (inl refl))
      | inr under ↦
          let ih = lease_iff s calls in
          let e = ap (λ u. (run u calls).active_lease) (not_claimed now s under) in
          (
            λ h. elim (ih.0 (sym e ∙ h)) [
              | inl held ↦ inl held
              | inr later ↦ inr (
                  Lapsed-later s.heartbeat_interval s.last_leader_heartbeat s.last_leader_heartbeat
                    (check now) calls refl later)
            ],
            λ h. elim h [
              | inl held ↦ e ∙ ih.1 (inl held)
              | inr lapsed ↦
                  elim (Lapsed-cons s.heartbeat_interval s.last_leader_heartbeat (check now) calls
                    lapsed) [
                      | inl (t, same, long) ↦
                          absurd (ground (arith, under, long, check_at now t same))
                      | inr later ↦ e ∙ ih.1 (inr later)
                    ]
            ],
          )
    ]

module _ (d : Database) (j : Serde) where
  -- A controller resumes from the offset that was saved last.
  pub resume-save_offset :
      (s s' : d.State) (source_id offset : Text)
      → is_utf8 offset ≡ true
      → save_offset d j s source_id offset ≡ ok s'
      → resume_checkpoint_offset d j s' source_id ≡ some offset
  unfolding resume_checkpoint_offset
  resume-save_offset s s' source_id offset valid saved =
      rw (resume_checkpoint_offset, (get-save_offset d j s s' source_id offset valid saved).0) refl
