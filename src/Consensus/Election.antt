-- ===== src/Consensus/Election.antt =====
-- What holds in every state that the two threads reach, and that a node is elected.
use caminus.Prelude.{
  ℕ, zero, suc, ◌+◌, ◌*◌, ◌%◌, ◌^◌, ◌<◌, ◌≡◌, ◌≢◌, Bool, true, false, refl, sym, subst, ap, arith,
  inl, inr, ◌⊎◌,
}
use caminus.Consensus.Defs.{
  StateRole, follower, candidate, leader, asleep, checked, terminated, flag_set, Cluster, new,
  election_timeout, next_phase, tick, Step, start_loop, check_flag, tick_role, set_flag, release,
  Steps, here, next,
}

-- The term counts the candidacies, of which there is at most one; the leader flag is only set for a
-- node in the role of leader; the caller is between its writes only after the first.
abbrev term_of : StateRole → ℕ
term_of follower = 0
term_of candidate = 1
term_of leader = 1

pub record IsValid (s : Cluster) : Type 0 where
  pub term_ok : s.term ≡ term_of s.role
  pub flag_ok : s.is_leader ≡ true → s.role ≡ leader
  pub caller_ok : s.caller ≡ flag_set → s.shutdown ≡ true
  pub ended_ok : s.phase ≡ terminated → s.shutdown ≡ true

pub role-cases : (r : StateRole) → (r ≡ follower) ⊎ (r ≡ candidate) ⊎ (r ≡ leader)
role-cases follower = inl refl
role-cases candidate = inr (inl refl)
role-cases leader = inr (inr refl)

tick-IsValid : (s : Cluster) → IsValid s → s.phase ≡ checked → IsValid (tick s)
unfolding tick
tick-IsValid s v at = elim (role-cases s.role) [
  | inl e ↦
      let off : s.is_leader ≢ true = λ on. absurd (cc (e, v.flag_ok on)) in
      record {
        term_ok = ground (arith, e, v.term_ok);
        flag_ok = λ h. absurd (off (ground (arith, e, h)));
        caller_ok = λ h. ground (arith, e, h, v.caller_ok);
        ended_ok = λ h. absurd (ground (arith, e, h));
      }
  | inr (inl e) ↦ record {
    term_ok = ground (arith, e, v.term_ok);
    flag_ok = λ h. ground (arith, e);
    caller_ok = λ h. ground (arith, e, h, v.caller_ok);
    ended_ok = λ h. absurd (ground (arith, e, h));
  }
  | inr (inr e) ↦ record {
    term_ok = ground (arith, e, v.term_ok);
    flag_ok = λ h. ground (arith, e);
    caller_ok = λ h. ground (arith, e, h, v.caller_ok);
    ended_ok = λ h. absurd (ground (arith, e, h));
  }
]

ended-next_phase : (b : Bool) → next_phase b ≡ terminated → b ≡ true
ended-next_phase true h = refl
ended-next_phase false h = absurd (cc h)

-- Every step of either thread keeps the state valid.
pub Step-IsValid : (s t : Cluster) → Step s t → IsValid s → IsValid t
Step-IsValid s t (start_loop at e) v = subst IsValid (sym e) (record {
  term_ok = v.term_ok;
  flag_ok = v.flag_ok;
  caller_ok = v.caller_ok;
  ended_ok = λ h. absurd (cc h);
})
Step-IsValid s t (check_flag at e) v = subst IsValid (sym e) (record {
  term_ok = v.term_ok;
  flag_ok = v.flag_ok;
  caller_ok = v.caller_ok;
  ended_ok = ended-next_phase s.shutdown;
})
Step-IsValid s t (tick_role at e) v = subst IsValid (sym e) (tick-IsValid s v at)
Step-IsValid s t (set_flag at e) v = subst IsValid (sym e) (record {
  term_ok = v.term_ok;
  flag_ok = v.flag_ok;
  caller_ok = λ h. refl;
  ended_ok = λ h. refl;
})
Step-IsValid s t (release at e) v = subst IsValid (sym e) (record {
  term_ok = v.term_ok;
  flag_ok = λ h. absurd (cc h);
  caller_ok = λ h. absurd (cc h);
  ended_ok = v.ended_ok;
})

new-IsValid : (id : ℕ) → IsValid (new id)
new-IsValid id = record {
  term_ok = refl;
  flag_ok = λ h. absurd (cc h);
  caller_ok = λ h. absurd (cc h);
  ended_ok = λ h. absurd (cc h);
}

-- In every state that a node reaches from its creation, whatever the order of the steps of the
-- election loop and of the callers of `shutdown`: the leader flag is set only in the role of leader,
-- the term is 0 for a follower and 1 for a candidate or leader, and the loop has ended only if a
-- shutdown was asked for.
pub Steps-IsValid : (id n : ℕ) (t : Cluster) → Steps (new id) n t → IsValid t
Steps-IsValid id zero t here = new-IsValid id
Steps-IsValid id (suc n) t (next {t = u} before step) =
    Step-IsValid u t step (Steps-IsValid id n u before)

pub Steps-append : (s t u : Cluster) (m n : ℕ) → Steps s m t → Steps t n u → (k : ℕ) × Steps s k u
Steps-append s t u m zero left here = (m, left)
Steps-append s t u m (suc n) left (next {t = v} right step) =
    let (k, both) = Steps-append s t v m n left right in (suc k, next both step)

-- The state after a round of the loop in which the shutdown flag is not set.
unfoldable pub round : Cluster → Cluster
unfolding tick
round s = tick (record s { phase = checked })

pub round-Steps : (s : Cluster) → s.phase ≡ asleep → s.shutdown ≡ false → Steps s 2 (round s)
unfolding round
round-Steps s at running =
    next (next here (check_flag at (ap (λ b. record s { phase = next_phase b }) (sym running))))
      (tick_role refl refl)

record IsRunning (s : Cluster) : Type 0 where
  at : s.phase ≡ asleep
  running : s.shutdown ≡ false

round-IsRunning : (s : Cluster) → s.shutdown ≡ false → IsRunning (round s)
unfolding round tick
round-IsRunning s running = elim (role-cases s.role) [
  | inl e ↦ record { at = rw e refl; running = rw e running }
  | inr (inl e) ↦ record { at = rw e refl; running = rw e running }
  | inr (inr e) ↦ record { at = rw e refl; running = rw e running }
]

two_rounds : (s : Cluster) → (round (round s)).is_leader ≡ true
unfolding round tick
two_rounds s = elim (role-cases s.role) [
  | inl e ↦ rw e refl
  | inr (inl e) ↦ rw e refl
  | inr (inr e) ↦ rw e refl
]

-- A node that is asleep, with no shutdown asked for, is leader after two rounds of its own loop, in
-- which it hears of no other node.
pub elected :
    (s : Cluster)
    → s.phase ≡ asleep
    → s.shutdown ≡ false
    → ((k : ℕ) × Steps s k (round (round s))) × ((round (round s)).is_leader ≡ true)
elected s at running =
    let once : IsRunning (round s) = round-IsRunning s running in
    (
      Steps-append s (round s) (round (round s)) 2 2 (round-Steps s at running)
          (round-Steps (round s) once.at once.running),
      two_rounds s,
    )

-- The timeout is 150, 200 or 250 milliseconds, by the remainder of the node's number by three, as
-- long as fifty times the number fits 64 bits: nodes with equal remainders have equal timeouts.
pub election_timeout-mod : (id : ℕ) → id * 50 < 2 ^ 64 → election_timeout id ≡ 150 + 50 * (id % 3)
unfolding election_timeout
election_timeout-mod id small = omega arith
