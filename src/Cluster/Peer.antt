-- ===== src/Cluster/Peer.antt =====
-- internal/cluster/peer.go: the table of known peers. Each method holds the table's lock from its
-- first to its last line; the two readings of the clock in one AddOrUpdate are taken as one.
pub mod Laws
use high_performance_kv_stor.Prelude.{
  ℕ, List, [], ◌∷◌, Option, none, some, String, string_eq, ◌==◌, if◌then◌else◌,
}
use high_performance_kv_stor.Prelude.Int.{ℤ, pos}
use high_performance_kv_stor.Prelude.Table.{Table, lookup, insert}
use high_performance_kv_stor.Store.Entry.{Time, zero_time, instant}

abbrev pub state_alive : String
state_alive = "alive"

abbrev pub state_suspect : String
state_suspect = "suspect"

abbrev pub state_dead : String
state_dead = "dead"

pub record Peer : Type 0 where
  pub node_id : String
  pub address : String
  pub state : String
  pub last_seen : Time
  pub rtt : ℤ
  pub replication_lag : ℤ
  pub suspicious_at : Time

abbrev pub PeerManager : Type 0
PeerManager = Table String Peer

abbrev pub new_peer_manager : PeerManager
new_peer_manager = []

abbrev pub new_peer : String → String → Peer
new_peer node_id address = record {
  node_id = node_id;
  address = address;
  state = "";
  last_seen = zero_time;
  rtt = pos 0;
  replication_lag = pos 0;
  suspicious_at = zero_time;
}

-- The peer that `AddOrUpdate` goes on with: the one in the table, or a new one.
unfoldable pub known_or_new : Option Peer → String → String → Peer
known_or_new none node_id address = new_peer node_id address
known_or_new (some p) node_id address = p

unfoldable pub mark : ℕ → String → Peer → Peer
mark now state p =
    let seen = record p { state = state; last_seen = instant now } in
    if state == state_suspect then record seen { suspicious_at = instant now } else seen

unfoldable pub add_or_update : ℕ → String → String → String → PeerManager → PeerManager
unfolding known_or_new mark
add_or_update now node_id address state pm =
    insert node_id (mark now state (known_or_new (lookup node_id pm) node_id address)) pm

abbrev pub get : String → PeerManager → Option Peer
get node_id pm = lookup node_id pm

unfoldable pub get_all : PeerManager → List Peer
get_all [] = []
get_all ((k, p) ∷ pm) = p ∷ get_all pm

unfoldable pub update_rtt : ℕ → String → ℤ → PeerManager → PeerManager
update_rtt now node_id rtt pm = elim (lookup node_id pm) [
  | none ↦ pm
  | some p ↦ insert node_id (record p { rtt = rtt; last_seen = instant now }) pm
]

unfoldable pub update_lag : String → ℤ → PeerManager → PeerManager
update_lag node_id lag pm = elim (lookup node_id pm) [
  | none ↦ pm
  | some p ↦ insert node_id (record p { replication_lag = lag }) pm
]
