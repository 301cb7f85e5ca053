-- ===== src/Sync/Defs.antt =====
-- `SyncCoordinator`: which events go on to the other clusters, and which of two events wins.
use caminus.Prelude.{Bool, true, false, none, some, List, [], ◌∷◌, ◌++◌, leb, if◌then◌else◌}
use caminus.Text.Defs.{Text, codes, starts_with}
use caminus.Event.{ChangeEvent}

pub record ClusterNode : Type 0 where
  pub cluster_id : Text
  pub endpoint_url : Text
  pub is_active : Bool

pub record SyncCoordinator : Type 0 where
  pub local_cluster_id : Text
  pub remote_peers : List ClusterNode

abbrev pub new : Text → SyncCoordinator
new local_cluster_id = record { local_cluster_id = local_cluster_id; remote_peers = [] }

unfoldable pub register_peer : Text → Text → SyncCoordinator → SyncCoordinator
register_peer cluster_id endpoint_url s = record s {
  remote_peers =
      s.remote_peers
      ++ record { cluster_id = cluster_id; endpoint_url = endpoint_url; is_active = true } ∷ [];
}

unfoldable pub should_forward : SyncCoordinator → ChangeEvent → Bool
should_forward s event = elim event.transaction_id [
  | some tx_id ↦ if starts_with tx_id (codes "remote-" ++ s.local_cluster_id) then false else true
  | none ↦ true
]

unfoldable pub resolve_conflict : SyncCoordinator → ChangeEvent → ChangeEvent → ChangeEvent
resolve_conflict s event_a event_b =
    if leb event_b.timestamp event_a.timestamp then event_a else event_b
