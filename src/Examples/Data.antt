-- ===== src/Examples/Data.antt =====
-- The keys, records, stores and peers of the concrete runs.
use high_performance_kv_stor.Prelude.{ℕ, List, [], ◌∷◌, none, some, String, Bytes, arith}
use high_performance_kv_stor.Prelude.Int.{pos}
use high_performance_kv_stor.Store.Entry.{Entry, zero_time, instant}
use high_performance_kv_stor.Store.Wal.{Record, Wal}
use high_performance_kv_stor.Store.Wal.Read.RoundTrip.{IsEncodable}
use high_performance_kv_stor.Store.Wal.Read.Replay.{encode_all}
use high_performance_kv_stor.Store.State.{
  Store, Times, new_store, store_entry, set_record, delete_record,
}
use high_performance_kv_stor.Store.State.Shards.{IsValid}
use high_performance_kv_stor.Store.State.Invariant.{new_store-IsValid, store_entry-IsValid}
use high_performance_kv_stor.Cluster.Peer.{
  Peer, PeerManager, state_alive, state_suspect, state_dead,
}
use high_performance_kv_stor.Cluster.Gossip.{GossipManager}

abbrev pub key_a : Bytes
key_a = 97 ∷ []

abbrev pub key_b : Bytes
key_b = 98 ∷ []

abbrev pub noon : Times
noon = record { for_expiry = 1000; for_version = 1001 }

abbrev pub old_entry : Entry
old_entry = record { value = 1 ∷ 2 ∷ []; version = 5; expires_at = zero_time }

abbrev pub new_entry : Entry
new_entry = record { value = 3 ∷ []; version = 7; expires_at = zero_time }

-- A later version than the clock of `noon` reads.
abbrev pub far_entry : Entry
far_entry = record { value = 9 ∷ []; version = 5000; expires_at = zero_time }

abbrev pub short_entry : Entry
short_entry = record { value = 4 ∷ []; version = 6; expires_at = instant 900 }

abbrev pub first_record : Record
first_record = set_record key_a short_entry

abbrev pub second_record : Record
second_record = delete_record key_b 8

pub first_record-IsEncodable : IsEncodable first_record
first_record-IsEncodable = record {
  key_fits = omega arith;
  payload_fits = omega arith;
  version_fits = omega arith;
  timely = omega arith;
}

pub second_record-IsEncodable : IsEncodable second_record
second_record-IsEncodable = record {
  key_fits = omega arith;
  payload_fits = omega arith;
  version_fits = omega arith;
  timely = tt;
}

abbrev pub first_wal : Wal
first_wal = record { path = "store.wal"; bytes = encode_all (first_record ∷ []); size = 29 }

abbrev pub empty_store : Store
empty_store = new_store none

abbrev pub logged_store : Store
logged_store = new_store (some (record { path = "store.wal"; bytes = []; size = 0 }))

abbrev pub old_store : Store
old_store = (store_entry key_a old_entry empty_store).0

abbrev pub far_store : Store
far_store = (store_entry key_a far_entry empty_store).0

pub old_store-IsValid : IsValid old_store
old_store-IsValid = store_entry-IsValid (new_store-IsValid none) key_a old_entry

pub far_store-IsValid : IsValid far_store
far_store-IsValid = store_entry-IsValid (new_store-IsValid none) key_a far_entry

abbrev pub a_peer : String → String → ℕ → Peer
a_peer node_id state seen = record {
  node_id = node_id;
  address = "10.0.0.2:8080";
  state = state;
  last_seen = instant seen;
  rtt = pos 0;
  replication_lag = pos 0;
  suspicious_at = instant seen;
}

abbrev pub gossip : GossipManager
gossip = record {
  node_id = "n1";
  address = "10.0.0.1:8080";
  seed_addr = "";
  suspicion_window = pos 50;
}

abbrev pub peer_table : PeerManager
peer_table = ("n2", a_peer "n2" state_suspect 100) ∷ ("n3", a_peer "n3" state_dead 100) ∷ []

abbrev pub remote_list : List (ℕ × Peer)
remote_list =
    (300, a_peer "n1" state_dead 290)
    ∷ (301, a_peer "n2" state_alive 290)
    ∷ (302, a_peer "n3" state_alive 290)
    ∷ []
