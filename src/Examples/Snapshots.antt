-- ===== src/Examples/Snapshots.antt =====
-- Runs of the theorems on snapshots and on a node's history.
use high_performance_kv_stor.Prelude.{
  ◌≡◌, ◌⊎◌, refl, [], ◌∷◌, none, some, arith, true, false, bytes_beq, Bytes,
}
use high_performance_kv_stor.Prelude.Int.{pos}
use high_performance_kv_stor.Prelude.Table.{lookup, insert}
use high_performance_kv_stor.Store.Entry.{passed}
use high_performance_kv_stor.Store.Hash.{fnv32a}
use high_performance_kv_stor.Store.Wal.{healthy, append, write_sync}
use high_performance_kv_stor.Store.State.{
  shard_index, get_shard, set_shard, entry_of, choose_version, expiry, log_record, store_entry, set,
}
use high_performance_kv_stor.Store.State.Effects.{offered}
use high_performance_kv_stor.Store.State.Writes.{merge}
use high_performance_kv_stor.Store.Snapshot.{
  Files, Volume, create_snapshot, truncate_log, commit, write_snapshot, write_shards, write_shard,
  write_file,
}
use high_performance_kv_stor.Store.Snapshot.Outcome.{
  IsKept, IsCommitted, IsSound, create_snapshot_outcome,
}
use high_performance_kv_stor.Store.Snapshot.Restore.{
  IsReloaded, IsStorable, load_snapshot-create_snapshot,
}
use high_performance_kv_stor.Store.Start.History.{
  Node, History, start, wrote, compacted, start_again,
}
use high_performance_kv_stor.Store.Start.Restored.{IsRestarted}
use high_performance_kv_stor.Store.Start.Recoverable.{
  store-IsLasting, History-IsRecoverable, start_again-History,
}
use high_performance_kv_stor.Store.Start.Lost.{IsLost, set_around_snapshot, set-IsLost}
use high_performance_kv_stor.Examples.Data.{key_a, key_b, noon, old_entry}
use high_performance_kv_stor.Examples.Restarts.{evening, one_put, one_put_wal, wal-one_put}

abbrev pub good_volume : Volume
good_volume = record {
  opens = true;
  header_kept = none;
  record_kept = λ i. none;
  syncs = true;
  closes = true;
  renames = true;
  truncates = true;
  seeks = true;
  removes = true;
}

-- The rename works, and the truncate after it does not.
abbrev stuck_volume : Volume
stuck_volume = record good_volume { truncates = false }

abbrev pub no_files : Files
no_files = record { tmp = none; snapshot = none }

create_snapshot_outcome_example :
    IsKept no_files one_put (create_snapshot stuck_volume 2000 no_files one_put)
    ⊎ IsCommitted 2000 one_put_wal one_put (create_snapshot stuck_volume 2000 no_files one_put)
create_snapshot_outcome_example =
    create_snapshot_outcome stuck_volume 2000 no_files one_put one_put_wal wal-one_put

pub good_volume-IsSound : IsSound good_volume
good_volume-IsSound = record {
  opens = refl;
  header_kept = refl;
  record_kept = λ i. refl;
  syncs = refl;
  closes = refl;
  renames = refl;
  truncates = refl;
  seeks = refl;
}

abbrev pub one_node : Node
one_node = record { files = no_files; store = one_put }

abbrev stuck_node : Node
stuck_node = record {
  files = (create_snapshot stuck_volume 2000 no_files one_put).0;
  store = (create_snapshot stuck_volume 2000 no_files one_put).1;
}

pub one_node-History : History "store.wal" one_node
unfolding choose_version expiry
one_node-History =
    wrote start noon key_a old_entry.value (pos 0) 5 refl
      (record {
        encodable = record {
          key_fits = omega arith;
          payload_fits = omega arith;
          version_fits = omega arith;
          timely = tt;
        };
        numbered = omega arith;
      })
      one_node refl

stuck_node-History : History "store.wal" stuck_node
stuck_node-History = compacted one_node-History stuck_volume 2000 stuck_node refl

one_put-IsStorable : IsStorable one_put
one_put-IsStorable j e at = (store-IsLasting (History-IsRecoverable one_node-History) j e at).0

load_snapshot-create_snapshot_example :
    IsReloaded 2000 one_put (create_snapshot good_volume 2000 no_files one_put)
load_snapshot-create_snapshot_example =
    load_snapshot-create_snapshot good_volume 2000 no_files one_put one_put_wal wal-one_put
      good_volume-IsSound (History-IsRecoverable one_node-History).durable.valid one_put-IsStorable

wal-stuck_node : stuck_node.store.wal ≡ some one_put_wal
unfolding create_snapshot write_snapshot commit truncate_log write_shards write_shard write_file set
    choose_version log_record append write_sync store_entry get_shard set_shard lookup insert
    shard_index fnv32a expiry passed
wal-stuck_node = refl

start_again-History_example :
    IsRestarted stuck_node.store one_put_wal (start_again evening one_put_wal stuck_node.files)
start_again-History_example =
    start_again-History evening one_put_wal stuck_node-History wal-stuck_node

pub key_b-absent : entry_of one_put key_b ≡ none
unfolding entry_of set choose_version log_record append write_sync store_entry get_shard set_shard
    lookup insert shard_index fnv32a expiry bytes_beq
key_b-absent = refl

key_b-wins :
    merge (entry_of one_put key_b) (offered noon (3 ∷ []) (pos 0) 7 one_put)
    ≡ offered noon (3 ∷ []) (pos 0) 7 one_put
key_b-wins = rw key_b-absent refl

no_error :
    (set_around_snapshot good_volume 2000 healthy noon key_b (3 ∷ []) (pos 0) 7 no_files one_put).2
    ≡ none
unfolding set_around_snapshot create_snapshot write_snapshot commit truncate_log write_shards
    write_shard write_file set choose_version log_record append write_sync store_entry get_shard
    set_shard lookup insert shard_index fnv32a expiry passed
no_error = refl

set-IsLost_example :
    IsLost evening one_put key_b
      (offered noon (3 ∷ []) (pos 0) 7 one_put)
      (set_around_snapshot good_volume 2000 healthy noon key_b (3 ∷ []) (pos 0) 7 no_files one_put)
set-IsLost_example =
    set-IsLost one_node-History evening good_volume 2000 noon key_b (3 ∷ []) (pos 0) 7 (omega arith)
      key_b-wins no_error

-- The header of a snapshot, and a record's header that says a payload of 7 bytes, which are not
-- there.
abbrev pub torn_snapshot : Bytes
torn_snapshot = 75 ∷ 86 ∷ 83 ∷ 78 ∷ 0 ∷ 1 ∷ 0 ∷ 0 ∷ 0 ∷ 7 ∷ 1 ∷ 2 ∷ 3 ∷ 4 ∷ []
