-- ===== src/Consensus/Shutdown.antt =====
-- What `shutdown` achieves, and when it does not.
use caminus.Prelude.{ℕ, zero, suc, ◌≡◌, ◌≢◌, Bool, true, false, refl, sym, subst, ap, inl, inr}
use caminus.Consensus.Election.{role-cases}
use caminus.Consensus.Defs.{
  follower, asleep, checked, terminated, outside, Cluster, next_phase, tick, Step, start_loop,
  check_flag, tick_role, set_flag, release, Steps, here, next,
}

record Released (s : Cluster) : Type 0 where
  asked : s.shutdown ≡ true
  follows : s.is_leader ≡ false
  outside_round : s.phase ≢ checked

ended : (b : Bool) → b ≡ true → next_phase b ≢ checked
ended true h e = absurd (cc e)
ended false h e = absurd (cc h)

Step-Released : (s t : Cluster) → Step s t → Released s → Released t
Step-Released s t (start_loop at e) r =
    subst Released (sym e)
      (record { asked = r.asked; follows = r.follows; outside_round = λ h. absurd (cc h) })
Step-Released s t (check_flag at e) r =
    subst Released (sym e)
      (record { asked = r.asked; follows = r.follows; outside_round = ended s.shutdown r.asked })
Step-Released s t (tick_role at e) r = absurd (r.outside_round at)
Step-Released s t (set_flag at e) r =
    subst Released (sym e)
      (record { asked = refl; follows = r.follows; outside_round = r.outside_round })
Step-Released s t (release at e) r =
    subst Released (sym e)
      (record { asked = r.asked; follows = refl; outside_round = r.outside_round })

Steps-Released : (s t : Cluster) (n : ℕ) → Steps s n t → Released s → Released t
Steps-Released s t zero here r = r
Steps-Released s t (suc n) (next {t = u} before step) r =
    Step-Released u t step (Steps-Released s u n before r)

-- Once the shutdown flag is set and the leader flag is not, and the election loop is not in the
-- midst of a round, the leader flag stays unset whatever steps follow.
pub released_for_good :
    (s t : Cluster) (n : ℕ)
    → s.shutdown ≡ true
    → s.is_leader ≡ false
    → s.phase ≢ checked
    → Steps s n t
    → t.is_leader ≡ false
released_for_good s t n asked off between steps =
    (Steps-Released s t n steps
      (record { asked = asked; follows = off; outside_round = between })).follows

record Ticked (s : Cluster) : Type 0 where
  at : (tick s).phase ≡ asleep
  asked : (tick s).shutdown ≡ s.shutdown
  out : (tick s).caller ≡ s.caller
  leads : s.role ≢ follower → (tick s).is_leader ≡ true

tick-Ticked : (s : Cluster) → Ticked s
unfolding tick
tick-Ticked s = elim (role-cases s.role) [
  | inl e ↦ record { at = rw e refl; asked = rw e refl; out = rw e refl; leads = λ h. absurd (h e) }
  | inr (inl e) ↦ record {
    at = rw e refl;
    asked = rw e refl;
    out = rw e refl;
    leads = λ h. rw e refl;
  }
  | inr (inr e) ↦ record {
    at = rw e refl;
    asked = rw e refl;
    out = rw e refl;
    leads = λ h. rw e refl;
  }
]

-- If a call of `shutdown` falls between the test of the shutdown flag and the end of a round in
-- which the node is candidate or leader, then there is an order of the steps in which the call has
-- returned, the election loop has ended, and the leader flag is set.
pub shutdown_overtaken :
    (s : Cluster)
    → s.phase ≡ checked
    → s.caller ≡ outside
    → s.role ≢ follower
    → (t : Cluster) × Steps s 4 t
      × (t.phase ≡ terminated)
      × (t.caller ≡ outside)
      × (t.shutdown ≡ true)
      × (t.is_leader ≡ true)
shutdown_overtaken s at out elected =
    let off : Cluster = record s { shutdown = true; is_leader = false; caller = outside } in
    let k : Ticked off = tick-Ticked off in
    (
      record (tick off) { phase = next_phase (tick off).shutdown },
      next (next (next (next here (set_flag out refl)) (release refl refl)) (tick_role at refl))
          (check_flag k.at refl),
      ap next_phase k.asked,
      k.out,
      k.asked,
      k.leads elected,
    )
