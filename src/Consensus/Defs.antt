-- ===== src/Consensus/Defs.antt =====
-- `ClusterCoordinator`: the election loop and the caller of `shutdown` as two threads on the shared
-- flags. A step is one access to a flag; the accesses are taken to be sequentially consistent.
use caminus.Prelude.{ℕ, suc, ◌+◌, ◌*◌, ◌%◌, ◌^◌, ◌≡◌, Bool, true, false}

pub data StateRole : Type 0 where
  follower candidate leader : StateRole

-- Where the loop is: before its start, in its sleep, between the test of the shutdown flag and the
-- end of the round, or ended.
pub data Phase : Type 0 where
  not_started asleep checked terminated : Phase

-- Where the caller of `shutdown` is: outside, or between its two writes.
pub data Caller : Type 0 where
  outside flag_set : Caller

pub record Cluster : Type 0 where
  pub node_id : ℕ
  pub is_leader : Bool
  pub shutdown : Bool
  pub role : StateRole
  pub term : ℕ
  pub phase : Phase
  pub caller : Caller

abbrev pub new : ℕ → Cluster
new node_id = record {
  node_id = node_id;
  is_leader = false;
  shutdown = false;
  role = follower;
  term = 0;
  phase = not_started;
  caller = outside;
}

-- In milliseconds, in the arithmetic of `u64`.
unfoldable pub election_timeout : ℕ → ℕ
election_timeout node_id = 150 + (node_id * 50) % 2 ^ 64 % 150

abbrev pub next_phase : Bool → Phase
next_phase true = terminated
next_phase false = checked

-- A round of the loop, after the test of the flag.
unfoldable pub tick : Cluster → Cluster
tick s = elim s.role [
  | follower ↦ record s { role = candidate; term = s.term + 1; phase = asleep }
  | candidate ↦ record s { role = leader; is_leader = true; phase = asleep }
  | leader ↦ record s { is_leader = true; phase = asleep }
]

pub data Step (s t : Cluster) : Type 0 where
  start_loop : s.phase ≡ not_started → t ≡ record s { phase = asleep } → Step s t
  check_flag : s.phase ≡ asleep → t ≡ record s { phase = next_phase s.shutdown } → Step s t
  tick_role : s.phase ≡ checked → t ≡ tick s → Step s t
  set_flag : s.caller ≡ outside → t ≡ record s { shutdown = true; caller = flag_set } → Step s t
  release : s.caller ≡ flag_set → t ≡ record s { is_leader = false; caller = outside } → Step s t

pub data Steps (s : Cluster) : ℕ → Cluster → Type 0 where
  here : Steps s 0 s
  next : {n : ℕ} {t u : Cluster} → Steps s n t → Step t u → Steps s (suc n) u
