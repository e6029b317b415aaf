-- ===== src/Cluster/Replication.antt =====
-- internal/cluster/replication.go: the requests that a local write sends to the peers, and the lag
-- that a peer's answer gives. The request and its JSON are the record.
use high_performance_kv_stor.Prelude.{
  ℕ, ◌+◌, ◌-◌, ◌%◌, ◌^◌, ◌||◌, List, [], ◌∷◌, ltb, Bytes, String, string_eq, ◌==◌, if◌then◌else◌,
}
use high_performance_kv_stor.Prelude.Int.{ℤ, pos, negsuc, ltb_ℤ}
use high_performance_kv_stor.Store.Entry.{Time}
use high_performance_kv_stor.Store.Wal.{expiry_nanos}
use high_performance_kv_stor.Cluster.Peer.{Peer, PeerManager, get_all, update_lag, state_dead}

pub record ReplicateRequest : Type 0 where
  pub key : Bytes
  pub value : Bytes
  pub version : ℕ
  pub expires_at : ℕ
  pub action : String

pub record Replicator : Type 0 where
  pub node_id : String
  pub last_served : ℕ

abbrev pub new_replicator : String → Replicator
new_replicator node_id = record { node_id = node_id; last_served = 0 }

pub update_last_served : ℕ → Replicator → Replicator
update_last_served version r =
    if ltb r.last_served version then record r { last_served = version } else r

-- `int64(u)` of a uint64
unfoldable pub to_int64 : ℕ → ℤ
to_int64 u = if ltb u (2 ^ 63) then pos u else negsuc (2 ^ 64 - u - 1)

unfoldable pub requests : Replicator → ReplicateRequest → List Peer → List (Peer × ReplicateRequest)
requests r request [] = []
requests r request (p ∷ peers) =
    let rest = requests r request peers in
    if p.node_id == r.node_id || p.state == state_dead then rest else (p, request) ∷ rest

-- The new replicator, and the requests that go out, each in a goroutine of its own.
unfoldable pub replicate :
    Bytes
    → Bytes
    → ℕ
    → Time
    → String
    → PeerManager
    → Replicator
    → Replicator × List (Peer × ReplicateRequest)
unfolding update_last_served requests
replicate key value version expires_at action pm r =
    let r' = update_last_served version r in
    let request : ReplicateRequest = record {
      key = key;
      value = value;
      version = version;
      expires_at = expiry_nanos expires_at;
      action = action;
    } in
    (r', requests r' request (get_all pm))

-- How the request to a peer ends; one whose JSON or URL cannot be made is not sent.
data Answer : Type 0 where
  unsent no_answer status_ok status_other : Answer

-- `int64(lastServed) - int64(version)`, which wraps around like any int64
lag_difference : Replicator → ℕ → ℤ
unfolding to_int64
lag_difference r version = to_int64 ((r.last_served + 2 ^ 64 - version) % 2 ^ 64)

measured_lag : Answer → ℤ → ℤ
measured_lag status_ok lag = if ltb_ℤ lag (pos 0) then pos 0 else lag
measured_lag _ lag = lag

-- The end of `replicateToPeer`: the peer's lag, by the last version served at that time, unless
-- nothing was sent.
unfoldable record_answer : Replicator → Peer → ReplicateRequest → Answer → PeerManager → PeerManager
unfolding lag_difference measured_lag update_lag
record_answer r p request unsent pm = pm
record_answer r p request answer pm =
    update_lag p.node_id (measured_lag answer (lag_difference r request.version)) pm
