-- ===== src/Consensus/Failover.antt =====
-- `FailoverController`. The clock's readings are arguments, in nanoseconds.
use caminus.Prelude.{
  ℕ, ◌-◌, ◌*◌, Bool, true, false, Option, none, some, List, [], ◌∷◌, ltb, if◌then◌else◌, ok,
}
use caminus.Text.Defs.{Text}
use caminus.Storage.Database.{Database, Serde}
use caminus.Storage.Store.{get_offset}

pub record FailoverController : Type 0 where
  pub node_id : ℕ
  pub heartbeat_interval : ℕ
  pub last_leader_heartbeat : ℕ
  pub active_lease : Bool

abbrev pub new : ℕ → ℕ → ℕ → FailoverController
new now node_id heartbeat_millis = record {
  node_id = node_id;
  heartbeat_interval = heartbeat_millis * 1000000;
  last_leader_heartbeat = now;
  active_lease = false;
}

abbrev pub record_heartbeat : ℕ → FailoverController → FailoverController
record_heartbeat now s = record s { last_leader_heartbeat = now }

-- `elapsed` is zero for a reading that is later than the clock.
unfoldable pub check_and_claim_lease : ℕ → FailoverController → Bool × FailoverController
check_and_claim_lease now s =
    let elapsed = now - s.last_leader_heartbeat in
    if ltb (s.heartbeat_interval * 2) elapsed
    then (true, record s { active_lease = true })
    else (s.active_lease, s)

module _ (d : Database) (j : Serde) where
  unfoldable pub resume_checkpoint_offset : d.State → Text → Option Text
  resume_checkpoint_offset store source_id = elim (get_offset d j store source_id) [
    | ok (some offset) ↦ some offset
    | _ ↦ none
  ]

-- A call of the controller, with the clock's reading.
pub data Call : Type 0 where
  heartbeat : ℕ → Call
  check : ℕ → Call

unfoldable pub run : FailoverController → List Call → FailoverController
run s [] = s
run s (heartbeat now ∷ calls) = run (record_heartbeat now s) calls
run s (check now ∷ calls) = run (check_and_claim_lease now s).1 calls
