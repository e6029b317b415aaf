-- ===== src/Api/Members.antt =====
-- internal/api/handlers.go: the handlers of the cluster's members, of the status and of pings.
use high_performance_kv_stor.Prelude.{
  ℕ, suc, ◌≡◌, refl, ◌&&◌, not, List, [], ◌∷◌, ◌++◌, map, String, string_eq, ◌==◌, if◌then◌else◌,
  arith,
}
use high_performance_kv_stor.Prelude.Int.{pos}
use high_performance_kv_stor.Store.Entry.{zero_time, instant}
use high_performance_kv_stor.Store.State.{size}
use high_performance_kv_stor.Cluster.Peer.{Peer, add_or_update, get_all, state_alive}
use high_performance_kv_stor.Config.{Config}
use high_performance_kv_stor.Metrics.Requests.{occurrences, state_of}
use high_performance_kv_stor.Api.{Node, Response, peer_list, cluster_status, text}

-- What JSON keeps of a peer: all but the time of its suspicion.
abbrev pub on_wire : Peer → Peer
on_wire p = record p { suspicious_at = zero_time }

unfoldable pub handle_cluster_peers : Node → Response
handle_cluster_peers node = record {
  status = 200;
  body = peer_list (map on_wire (get_all node.peers));
}

count_alive : List Peer → ℕ
count_alive [] = 0
count_alive (p ∷ peers) =
    let rest = count_alive peers in if p.state == state_alive then suc rest else rest

-- `uptime` is the collector's.
unfoldable pub handle_cluster_status : Config → ℕ → Node → Response
unfolding count_alive
handle_cluster_status cfg uptime node = record {
  status = 200;
  body = cluster_status (record {
    node_id = cfg.node_id;
    role = if cfg.seed_address == "" then "seed" else "peer";
    uptime = uptime;
    store_size = size node.store;
    wal_size_bytes = 1024;
    peers_count = count_alive (get_all node.peers);
  });
}

unfoldable pub handle_healthz : Response
handle_healthz = record { status = 200; body = text "OK" }

-- The node as a peer of its own list.
abbrev pub self_peer : Config → ℕ → Peer
self_peer cfg now = record {
  node_id = cfg.node_id;
  address = cfg.advertise_addr;
  state = state_alive;
  last_seen = instant now;
  rtt = pos 0;
  replication_lag = pos 0;
  suspicious_at = zero_time;
}

unfoldable pub handle_internal_ping : Config → ℕ → ℕ → String → String → Node → Node × Response
handle_internal_ping cfg now later sender_id sender_addr node =
    let seen =
      if not (sender_id == "") && not (sender_addr == "")
      then add_or_update now sender_id sender_addr state_alive node.peers
      else node.peers in
    (
      record node { peers = seen },
      record {
        status = 200;
        body = peer_list (map on_wire (get_all seen) ++ self_peer cfg later ∷ []);
      },
    )

count_alive-occurrences :
    (peers : List Peer) → count_alive peers ≡ occurrences state_alive (map state_of peers)
unfolding count_alive
count_alive-occurrences [] = refl
count_alive-occurrences (p ∷ peers) = ground (arith, count_alive-occurrences peers)

-- The status counts the peers that are alive, and gives 1024 bytes for the log, whatever its size.
pub handle_cluster_status_lem :
    (cfg : Config) (uptime : ℕ) (node : Node)
    → handle_cluster_status cfg uptime node ≡ record {
      status = 200;
      body = cluster_status (record {
        node_id = cfg.node_id;
        role = if cfg.seed_address == "" then "seed" else "peer";
        uptime = uptime;
        store_size = node.store.key_count;
        wal_size_bytes = 1024;
        peers_count = occurrences state_alive (map state_of (get_all node.peers));
      });
    }
unfolding handle_cluster_status
handle_cluster_status_lem cfg uptime node = rw (count_alive-occurrences (get_all node.peers)) refl
