-- ===== src/Store/Start/History.antt =====
-- What can happen to a node's data: writes (internal/store/store.go), snapshots
-- (internal/store/snapshot.go) and restarts (cmd/server/main.go), in any order.
use high_performance_kv_stor.Prelude.{ℕ, ◌≡◌, false, none, some, String, Bytes}
use high_performance_kv_stor.Prelude.Int.{ℤ}
use high_performance_kv_stor.Store.Entry.{zero_time}
use high_performance_kv_stor.Store.Wal.{Wal, healthy}
use high_performance_kv_stor.Store.Wal.Read.{good_reads}
use high_performance_kv_stor.Store.State.{
  Store, new_store, Times, set, delete_key, choose_version, expiry,
}
use high_performance_kv_stor.Store.Recovery.{Reading}
use high_performance_kv_stor.Store.Recovery.Durable.{put, remove}
use high_performance_kv_stor.Store.Recovery.Session.{IsLogged, empty_wal}
use high_performance_kv_stor.Store.Snapshot.{
  Files, SnapshotFile, missing, opened, Volume, create_snapshot,
}
use high_performance_kv_stor.Store.Start.{contents, Started, running, start_up}

-- The data directory and the store of a node; the log's bytes are in the store.
pub record Node : Type 0 where
  pub files : Files
  pub store : Store

-- snapshot.bin as a start finds it on a disk that reads well
abbrev pub snapshot_of : Files → SnapshotFile
snapshot_of files = elim files.snapshot [ none ↦ missing | some bytes ↦ opened false bytes ]

-- A start with the files of a node whose log is this.
abbrev pub start_again : (ℕ → Reading) → Wal → Files → Started
start_again clock w files = start_up clock good_reads w.path (snapshot_of files) (contents w.bytes)

abbrev pub first_node : String → Node
first_node path = record {
  files = record { tmp = none; snapshot = none };
  store = new_store (some (empty_wal path));
}

-- The nodes that are reached from an empty data directory by Sets without an expiry and Deletes
-- whose records the disk takes and the format holds, by snapshots on a disk that may fail at any
-- step, and by restarts, each of which may follow a crash.
pub data History (path : String) : Node → Type 0 where
  start : History path (first_node path)
  wrote :
      {n : Node}
      → History path n
      → (now : Times) (key value : Bytes) (ttl : ℤ) (version : ℕ)
      → expiry now.for_expiry ttl ≡ zero_time
      → IsLogged (put key value (choose_version now.for_version version n.store).1)
      → (m : Node) → m ≡ record n { store = (set healthy now key value ttl version n.store).0 }
      → History path m
  erased :
      {n : Node}
      → History path n
      → (now : ℕ) (key : Bytes) (version : ℕ)
      → IsLogged (remove key (choose_version now version n.store).1)
      → (m : Node) → m ≡ record n { store = (delete_key healthy now key version n.store).0 }
      → History path m
  compacted :
      {n : Node}
      → History path n
      → (vol : Volume) (now : ℕ) (m : Node)
      → m ≡ record {
        files = (create_snapshot vol now n.files n.store).0;
        store = (create_snapshot vol now n.files n.store).1;
      }
      → History path m
  restarted :
      {n : Node}
      → History path n
      → (clock : ℕ → Reading) (w : Wal) → n.store.wal ≡ some w
      → (s : Store) → start_again clock w n.files ≡ running s
      → (m : Node) → m ≡ record n { store = s }
      → History path m
