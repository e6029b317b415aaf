-- ===== src/Examples/Pings.antt =====
-- Runs of the theorems on pings, answered or not.
use high_performance_kv_stor.Prelude.{
  ℕ, ◌≡◌, ◌≢◌, refl, List, [], ◌∷◌, none, arith, string_eq, bytes_eq, map,
}
use high_performance_kv_stor.Prelude.Int.{pos}
use high_performance_kv_stor.Prelude.Table.{lookup, insert}
use text.Mathlib.TextEquality.{eq_iff}
use high_performance_kv_stor.Cluster.Peer.{
  Peer, get_all, state_dead, state_alive, add_or_update, mark, known_or_new, new_peer,
}
use high_performance_kv_stor.Cluster.Gossip.{GossipManager, ping_peer, answered as answered_with}
use high_performance_kv_stor.Metrics.{request_eq, histogram_eq}
use high_performance_kv_stor.Api.{peer_list}
use high_performance_kv_stor.Api.Members.{handle_internal_ping, self_peer}
use high_performance_kv_stor.Api.Exchange.{IsAlive, ping_exchange}
use high_performance_kv_stor.Examples.Data.{a_peer}
use high_performance_kv_stor.Examples.Servers.{server, server-IsSound}

abbrev pinging : GossipManager
pinging = record {
  node_id = "n2";
  address = "10.0.0.2:8080";
  seed_addr = "10.0.0.1:8080";
  suspicion_window = pos 50;
}

abbrev pinged_peer : Peer
pinged_peer = a_peer "n1" state_dead 100

abbrev ping_answer : List (ℕ × Peer)
ping_answer =
    (1005, mark 1001 state_alive (new_peer "n2" "10.0.0.2:8080"))
    ∷ (1006, self_peer server.cfg 1002)
    ∷ []

n2-named_well : pinging.node_id ≢ ""
n2-named_well h = ground (arith, h, eq_iff "n2" "")

n2-addressed : pinging.address ≢ ""
n2-addressed h = ground (arith, h, eq_iff "10.0.0.2:8080" "")

n2-not_n1 : pinging.node_id ≢ server.cfg.node_id
n2-not_n1 h = ground (arith, h, eq_iff "n2" "n1")

n1-not_seed : server.cfg.node_id ≢ "seed"
n1-not_seed h = ground (arith, h, eq_iff "n1" "seed")

n1-unlisted : lookup "n1" server.node.peers ≡ none
unfolding lookup
n1-unlisted = refl

ping_answer-body :
    (handle_internal_ping server.cfg 1001 1002 "n2" "10.0.0.2:8080" server.node).1.body
    ≡ peer_list (map (λ e. e.1) ping_answer)
unfolding handle_internal_ping get_all add_or_update mark known_or_new lookup insert
ping_answer-body = refl

ping_exchange_example :
    IsAlive "n2"
      (handle_internal_ping server.cfg 1001 1002 "n2" "10.0.0.2:8080" server.node).0.peers
    × IsAlive "n1" (ping_peer pinging 1004 (pos 3) pinged_peer (answered_with ping_answer) [])
ping_exchange_example =
    ping_exchange server.cfg 1001 1002 pinging server.node n2-named_well n2-addressed
      server-IsSound.peers_valid n2-not_n1 n1-unlisted 1004 (pos 3) pinged_peer ping_answer [] refl
      n1-not_seed ping_answer-body
