-- ===== src/Examples/Nodes.antt =====
-- Runs of the theorems on the peers and on the handlers.
use high_performance_kv_stor.Prelude.{
  ◌≡◌, ◌≢◌, ◌⊎◌, refl, [], ◌∷◌, none, some, arith, bytes_eq, bytes_beq, string_eq, ◌==◌,
  if◌then◌else◌, Bytes,
}
use high_performance_kv_stor.Prelude.Int.{pos}
use high_performance_kv_stor.Prelude.Table.{lookup, insert}
use high_performance_kv_stor.Store.Entry.{Time, zero_time}
use high_performance_kv_stor.Store.Hash.{fnv32a}
use high_performance_kv_stor.Store.Wal.{healthy}
use high_performance_kv_stor.Store.State.{
  shard_index, get_shard, set_shard, entry_of, next_version, choose_version, log_record,
  store_entry, set,
}
use high_performance_kv_stor.Store.State.Writes.{merge}
use high_performance_kv_stor.Cluster.Peer.{Peer, state_alive, state_suspect}
use high_performance_kv_stor.Cluster.Peer.Laws.{IsPeerTable}
use high_performance_kv_stor.Cluster.Gossip.{merge_peer, check_suspicious}
use high_performance_kv_stor.Cluster.Gossip.Merge.Rank.{IsAllowed, merge_peer-rank}
use high_performance_kv_stor.Cluster.Gossip.Suspicion.{checked?, check_suspicious-lookup}
use high_performance_kv_stor.Api.{
  Node, PutRequest, ttl_of, handle_put, handle_internal_replicate, put_body, published, replicated,
}
use high_performance_kv_stor.Api.Received.{replicated_put}
use high_performance_kv_stor.Api.Put.{put_request, IsPut, handle_put_effect, handle_put-long_ttl}
use high_performance_kv_stor.Examples.Data.{
  key_a, noon, old_store, far_store, old_store-IsValid, far_store-IsValid, a_peer, gossip,
  peer_table,
}

peer_table-IsPeerTable : IsPeerTable peer_table
unfolding lookup
peer_table-IsPeerTable = record { distinct = (refl, (refl, tt)); named = (refl, (refl, tt)) }

n2_suspect : lookup "n2" peer_table ≡ some (a_peer "n2" state_suspect 100)
unfolding lookup
n2_suspect = refl

merge_peer-rank_example :
    let rp = a_peer "n2" state_alive 290 in
    let p = a_peer "n2" state_suspect 100 in
    (q : Peer) × (lookup "n2" (merge_peer gossip 301 rp peer_table) ≡ some q)
    × (q.address ≡ p.address)
    × ((q.state ≡ p.state) ⊎ IsAllowed gossip p rp q.state)
merge_peer-rank_example =
    merge_peer-rank gossip 301 (a_peer "n2" state_alive 290) peer_table
      (a_peer "n2" state_suspect 100) n2_suspect

check_suspicious-lookup_example :
    lookup "n2" (check_suspicious gossip 200 peer_table)
    ≡ checked? gossip 200 (lookup "n2" peer_table)
check_suspicious-lookup_example =
    check_suspicious-lookup gossip 200 peer_table "n2" peer_table-IsPeerTable

abbrev old_node : Node
old_node = record {
  store = old_store;
  peers = peer_table;
  replicator = record { node_id = "n1"; last_served = 0 };
}

abbrev far_node : Node
far_node = record {
  store = far_store;
  peers = peer_table;
  replicator = record { node_id = "n1"; last_served = 0 };
}

abbrev put_eight : PutRequest
put_eight = record { value = 8 ∷ []; ttl_seconds = none }

-- 292 years and a little more, in seconds.
abbrev put_long : PutRequest
put_long = record { value = 8 ∷ []; ttl_seconds = some (pos 9300000000) }

key_a-named : key_a ≢ []
key_a-named h = cc h

put_eight-status : (handle_put healthy noon 1002 key_a (some put_eight) old_node).1.status ≡ 200
unfolding handle_put put_body published bytes_beq set choose_version next_version log_record
    store_entry get_shard set_shard lookup insert shard_index fnv32a
put_eight-status = refl

handle_put_effect_example :
    IsPut noon 1002 key_a put_eight old_node
      (handle_put healthy noon 1002 key_a (some put_eight) old_node)
handle_put_effect_example =
    handle_put_effect healthy noon 1002 key_a put_eight old_node old_store-IsValid.shard_number
      key_a-named put_eight-status

put_long-status : (handle_put healthy noon 1002 key_a (some put_long) old_node).1.status ≡ 200
unfolding handle_put put_body published bytes_beq set choose_version next_version log_record
    store_entry get_shard set_shard lookup insert shard_index fnv32a
put_long-status = refl

handle_put-long_ttl_example :
    entry_of (handle_put healthy noon 1002 key_a (some put_long) old_node).0.store key_a
    ≡ some (
        merge (entry_of old_store key_a) (record {
          value = 8 ∷ [];
          version = (choose_version 1001 0 old_store).1;
          expires_at = zero_time;
        }))
handle_put-long_ttl_example =
    handle_put-long_ttl healthy noon 1002 key_a (8 ∷ []) 9300000000 old_node
      old_store-IsValid.shard_number key_a-named (omega arith) (omega arith) put_long-status

sent_far-status :
    (handle_internal_replicate healthy 1003 noon
      (some (put_request key_a (8 ∷ []) 5000 1002 (ttl_of none)))
      far_node).1.status
    ≡ 200
unfolding handle_internal_replicate replicated ttl_of bytes_beq set choose_version log_record
    store_entry get_shard set_shard lookup insert shard_index fnv32a
sent_far-status = refl

replicated_put_example :
    (t : Time) × ((j : Bytes)
      → entry_of
          (handle_internal_replicate healthy 1003 noon
            (some (put_request key_a (8 ∷ []) 5000 1002 (ttl_of none)))
            far_node).0.store
          j
        ≡ (if key_a == j
            then some (
                merge
                  (entry_of far_store key_a)
                  (record { value = 8 ∷ []; version = 5000; expires_at = t }))
            else entry_of far_store j))
replicated_put_example =
    replicated_put healthy 1003 noon key_a (8 ∷ []) 5000 1002 (ttl_of none) far_node
      far_store-IsValid.shard_number (omega arith) sent_far-status
