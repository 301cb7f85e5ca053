-- ===== src/Consensus/Tests.antt =====
-- Runs of the election loop and of the controller, and the theorems about them.
use caminus.Prelude.{ℕ, ◌≡◌, ◌↔◌, ◌⊎◌, refl, true, false, List, [], ◌∷◌}
use caminus.Consensus.Defs.{
  candidate, asleep, terminated, checked, outside, Cluster, new, tick, start_loop, set_flag,
  flag_set, Steps, here, next,
}
use caminus.Consensus.Election.{IsValid, Steps-IsValid, round, elected}
use caminus.Consensus.Shutdown.{released_for_good, shutdown_overtaken}
use caminus.Consensus.Failover.{
  FailoverController, Call, heartbeat, check, check_and_claim_lease, run,
}
use caminus.Consensus.Lease.{Lapsed, lease_iff}

program : Unit {0}
unfolding tick round check_and_claim_lease run
program = tt

abbrev waiting : Cluster
waiting = record (new 1) { phase = asleep }

abbrev voting : Cluster
voting = record (new 1) { phase = checked; role = candidate; term = 1 }

abbrev stopped : Cluster
stopped = record (new 1) { phase = terminated; shutdown = true }

Steps-IsValid_example : IsValid waiting
Steps-IsValid_example = Steps-IsValid 1 1 waiting (next here (start_loop refl refl))

elected_example :
    ((k : ℕ) × Steps waiting k (round (round waiting))) × ((round (round waiting)).is_leader ≡ true)
elected_example = elected waiting refl refl

abbrev asked_again : Cluster
asked_again = record stopped { shutdown = true; caller = flag_set }

released_for_good_example : asked_again.is_leader ≡ false
released_for_good_example =
    released_for_good stopped asked_again 1 refl refl (λ e. absurd (cc e))
      (next here (set_flag refl refl))

shutdown_overtaken_example :
    (t : Cluster) × Steps voting 4 t
    × (t.phase ≡ terminated)
    × (t.caller ≡ outside)
    × (t.shutdown ≡ true)
    × (t.is_leader ≡ true)
shutdown_overtaken_example = shutdown_overtaken voting refl refl (λ e. absurd (cc e))

abbrev controller : FailoverController
controller = record {
  node_id = 2;
  heartbeat_interval = 50;
  last_leader_heartbeat = 0;
  active_lease = false;
}

abbrev calls : List Call
calls = check 90 ∷ heartbeat 100 ∷ check 201 ∷ heartbeat 210 ∷ check 220 ∷ []

lease_kept : (run controller calls).active_lease ≡ true
unfolding program
lease_kept = refl

lease_iff_example :
    ((run controller calls).active_lease ≡ true) ↔ ((false ≡ true) ⊎ Lapsed 50 0 calls)
lease_iff_example = lease_iff controller calls
