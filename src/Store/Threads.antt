-- ===== src/Store/Threads.antt =====
-- internal/store/store.go and internal/store/snapshot.go: the calls of several goroutines on one
-- store. A goroutine goes from one critical section of its call to the next, and between two of them
-- any other may go. A section under a lock, or an atomic draw of a version, is one step.
pub mod Writes
pub mod Sets
pub mod Fitting
pub mod Undone
pub mod Sound
pub mod Alone
use high_performance_kv_stor.Prelude.{
  ℕ, zero, suc, Bool, true, false, List, [], ◌∷◌, ◌++◌, ◌≡◌, Option, none, some, ltb, get_or,
  set as set_at, Bytes, bytes_eq, if◌then◌else◌,
}
use high_performance_kv_stor.Prelude.Int.{ℤ}
use high_performance_kv_stor.Prelude.Table.{lookup}
use high_performance_kv_stor.Store.Entry.{Entry, is_expired}
use high_performance_kv_stor.Store.Wal.{Disk, WalError}
use high_performance_kv_stor.Store.State.{
  Store, Times, Result, ok, err, get_shard, choose_version, expiry, log_record, set_record,
  delete_record, store_entry, remove_entry, reap_key, shard_count,
}
use high_performance_kv_stor.Store.Reap.{reap_shard}
use high_performance_kv_stor.Store.Snapshot.{Files, Volume, CreateError, create_snapshot}

-- Where a goroutine stands in its call, with what its local variables hold.
pub data Point : Type 0 where
  set_called : Bytes → Bytes → ℤ → ℕ → Point
  set_logging set_storing : Bytes → Entry → Point
  set_returned : Result ℕ → Point
  delete_called delete_logging delete_removing : Bytes → ℕ → Point
  delete_returned : Result (ℕ × Bool) → Point
  get_called get_reaping : Bytes → Point
  get_returned : Option (Bytes × ℕ) → Point
  reap_called : Point
  reaping : ℕ → ℕ → Point
  reap_returned : Point
  snapshot_called : Point
  snapshot_returned : Option CreateError → Point

-- What the machine does in one step: the disks of the log and of the snapshot, and the clock.
pub record Machine : Type 0 where
  pub disk : Disk
  pub volume : Volume
  pub now : Times

-- The store and the files, which the goroutines share.
pub record Shared : Type 0 where
  pub files : Files
  pub store : Store

abbrev set_logged : Bytes → Entry → Files → Store × Option WalError → Shared × Point
set_logged key e files (s, some failure) =
    (record { files = files; store = s }, set_returned (err failure))
set_logged key e files (s, none) = (record { files = files; store = s }, set_storing key e)

abbrev delete_logged : Bytes → ℕ → Files → Store × Option WalError → Shared × Point
delete_logged key version files (s, some failure) =
    (record { files = files; store = s }, delete_returned (err failure))
delete_logged key version files (s, none) =
    (record { files = files; store = s }, delete_removing key version)

-- The section of `Get` under the read lock, and the test of the entry that it found.
unfoldable pub get_looked : ℕ → Bytes → Option Entry → Point
get_looked now key none = get_returned none
get_looked now key (some entry) =
    if is_expired now entry
    then get_reaping key
    else get_returned (some (entry.value, entry.version))

-- The section of `reap` for one shard.
unfoldable pub reap_at : ℕ → ℕ → Store → Store
reap_at now i s =
    let (sh, left) = reap_shard now (get_or s.shards i []) s.key_count in
    record s { shards = set_at s.shards i sh; key_count = left }

-- The next section of a call.
unfoldable pub advance : Machine → Point → Shared → Shared × Point
unfolding get_looked reap_at
advance m (set_called key value ttl version) sh =
    let (s, chosen) = choose_version m.now.for_version version sh.store in
    (
      record sh { store = s },
      set_logging key
          (record { value = value; version = chosen; expires_at = expiry m.now.for_expiry ttl }),
    )
advance m (set_logging key e) sh =
    set_logged key e sh.files (log_record m.disk (set_record key e) sh.store)
advance m (set_storing key e) sh =
    let (s, version) = store_entry key e sh.store in
    (record sh { store = s }, set_returned (ok version))
advance m (delete_called key version) sh =
    let (s, chosen) = choose_version m.now.for_version version sh.store in
    (record sh { store = s }, delete_logging key chosen)
advance m (delete_logging key version) sh =
    delete_logged key version sh.files (log_record m.disk (delete_record key version) sh.store)
advance m (delete_removing key version) sh =
    let (s, reply) = remove_entry key version sh.store in
    (record sh { store = s }, delete_returned (ok reply))
advance m (get_called key) sh =
    (sh, get_looked m.now.for_version key (lookup key (get_shard sh.store key)))
advance m (get_reaping key) sh =
    (record sh { store = reap_key m.now.for_version key sh.store }, get_returned none)
advance m reap_called sh = (sh, reaping m.now.for_version 0)
advance m (reaping now i) sh =
    if ltb i shard_count
    then (record sh { store = reap_at now i sh.store }, reaping now (suc i))
    else (sh, reap_returned)
advance m snapshot_called sh =
    let (files, s, error) = create_snapshot m.volume m.now.for_version sh.files sh.store in
    (record { files = files; store = s }, snapshot_returned error)
advance m (set_returned result) sh = (sh, set_returned result)
advance m (delete_returned result) sh = (sh, delete_returned result)
advance m (get_returned result) sh = (sh, get_returned result)
advance m reap_returned sh = (sh, reap_returned)
advance m (snapshot_returned error) sh = (sh, snapshot_returned error)

-- One goroutine with the store to itself, for as many steps as there are machines.
abbrev pub alone : List Machine → Shared × Point → Shared × Point
alone [] at = at
alone (m ∷ ms) (sh, p) = alone ms (advance m p sh)

-- Two goroutines: each turn says whether the first one goes.
abbrev pub race : List (Bool × Machine) → Shared × Point × Point → Shared × Point × Point
race [] at = at
race ((true, m) ∷ turns) (sh, p, q) = let (sh', p') = advance m p sh in race turns (sh', p', q)
race ((false, m) ∷ turns) (sh, p, q) = let (sh', q') = advance m q sh in race turns (sh', p, q')

-- The points at which a call begins.
abbrev pub is_call : Point → Bool
is_call (set_called key value ttl version) = true
is_call (delete_called key version) = true
is_call (get_called key) = true
is_call reap_called = true
is_call snapshot_called = true
is_call _ = false

pub record System : Type 0 where
  pub shared : Shared
  pub points : List Point

-- The states that goroutines reach: any number of calls, begun at any time, in any interleaving of
-- their steps. `Allowed` is what the steps are known to meet.
pub data Run (Allowed : Machine → Point → Store → Type 0) (shared : Shared) : System → Type 0 where
  start : (t : System) → t ≡ record { shared = shared; points = [] } → Run Allowed shared t
  calls :
      {s : System}
      → Run Allowed shared s
      → (p : Point) → is_call p ≡ true
      → (t : System) → t ≡ record s { points = p ∷ s.points }
      → Run Allowed shared t
  goes :
      {s : System}
      → Run Allowed shared s
      → (m : Machine) (ps qs : List Point) (p : Point) → s.points ≡ ps ++ p ∷ qs
      → Allowed m p s.shared.store
      → (t : System)
      → t
        ≡ record { shared = (advance m p s.shared).0; points = ps ++ (advance m p s.shared).1 ∷ qs }
      → Run Allowed shared t
