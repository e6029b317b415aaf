-- ===== src/Store/Snapshot.antt =====
-- internal/store/snapshot.go: writing the store to snapshot.bin and emptying the log, and loading
-- such a file. The two locks that CreateSnapshot takes are held to its end, so it is one function.
pub mod Loading
pub mod Written
pub mod Outcome
pub mod Restore
pub mod Ends
use high_performance_kv_stor.Prelude.{
  ℕ, zero, suc, ◌+◌, Bool, true, false, not, List, [], ◌∷◌, ◌++◌, Option, none, some, ltb, nat_beq,
  length, take, drop, Bytes, bytes_eq, ◌==◌, if◌then◌else◌,
}
use high_performance_kv_stor.Prelude.Int.{ℤ, pos, ◌+ℤ◌}
use high_performance_kv_stor.Prelude.Table.{lookup, insert}
use high_performance_kv_stor.Store.Entry.{Entry, passed}
use high_performance_kv_stor.Store.Wal.{Record, Wal, WalError, put_uint, encode, record_type_set}
use high_performance_kv_stor.Store.Wal.Read.{
  ReadFull, full, eof, unexpected_eof, failed, read_full, get_uint, Round, finished, fault, parsed,
  read_round,
}
use high_performance_kv_stor.Store.State.{Shard, Store, get_shard, set_shard, set_record}

-- "KVSN"
abbrev pub snapshot_magic : Bytes
snapshot_magic = 75 ∷ 86 ∷ 83 ∷ 78 ∷ []

abbrev pub snapshot_version : ℕ
snapshot_version = 1

-- The files beside the log: snapshot.bin.tmp and snapshot.bin.
pub record Files : Type 0 where
  pub tmp : Option Bytes
  pub snapshot : Option Bytes

-- The errors of CreateSnapshot, in the order of its steps.
pub data CreateError : Type 0 where
  unconfigured tmp_unopened header_unwritten record_unwritten : CreateError
  unsynced unclosed uncommitted untruncated unsought : CreateError

-- What the disk does in one CreateSnapshot. A write that fails has put some first bytes into the
-- file: how many, if it fails. The records are numbered from 0.
pub record Volume : Type 0 where
  pub opens : Bool
  pub header_kept : Option ℕ
  pub record_kept : ℕ → Option ℕ
  pub syncs : Bool
  pub closes : Bool
  pub renames : Bool
  pub truncates : Bool
  pub seeks : Bool
  pub removes : Bool

-- A write to the end of a file: the file, and whether it worked.
unfoldable pub write_file : Option ℕ → Bytes → Bytes → Bytes × Bool
write_file none file buf = (file ++ buf, true)
write_file (some n) file buf = (file ++ take n buf, false)

unfoldable pub snapshot_header : Bytes
snapshot_header = snapshot_magic ++ put_uint 2 snapshot_version

-- The loop over the map of one shard: the number of records written, and the file.
unfoldable pub write_shard : (ℕ → Option ℕ) → ℕ → Shard → ℕ × Bytes → (ℕ × Bytes) × Bool
write_shard kept now [] (i, file) = ((i, file), true)
write_shard kept now ((k, e) ∷ sh) (i, file) =
    let (file', worked) = write_file (kept i) file (encode (set_record k e)) in
    let skipped = write_shard kept now sh (i, file) in
    let rest = write_shard kept now sh (suc i, file') in
    if passed now e.expires_at then skipped else if worked then rest else ((i, file'), false)

unfoldable pub write_shards : (ℕ → Option ℕ) → ℕ → List Shard → ℕ × Bytes → (ℕ × Bytes) × Bool
unfolding write_shard
write_shards kept now [] at = (at, true)
write_shards kept now (sh ∷ shards) at =
    let (next, worked) = write_shard kept now sh at in
    let rest = write_shards kept now shards next in if worked then rest else (next, false)

-- An error before the rename: the deferred function removes the temporary file, if it can.
unfoldable pub abandon :
    Volume → Files → Bytes → Store → CreateError → Files × Store × Option CreateError
abandon vol files file s error =
    (record files { tmp = if vol.removes then none else some file }, s, some error)

-- After the rename: the log is emptied.
unfoldable pub truncate_log : Volume → Wal → Files → Store → Files × Store × Option CreateError
truncate_log vol w files s =
    if not vol.truncates
    then (files, s, some untruncated)
    else if not vol.seeks
    then (files, record s { wal = some (record w { bytes = [] }) }, some unsought)
    else (files, record s { wal = some (record w { bytes = []; size = 0 }) }, none)

-- After the last write: sync, close, rename.
unfoldable pub commit : Volume → Wal → Files → Bytes → Store → Files × Store × Option CreateError
unfolding abandon truncate_log
commit vol w files file s =
    if not vol.syncs
    then abandon vol files file s unsynced
    else if not vol.closes
    then abandon vol files file s unclosed
    else if not vol.renames
    then abandon vol files file s uncommitted
    else truncate_log vol w (record { tmp = none; snapshot = some file }) s

unfoldable pub write_snapshot :
    Volume → ℕ → Wal → Files → Store → Files × Store × Option CreateError
unfolding commit write_file write_shards abandon
write_snapshot vol now w files s =
    let (start, headed) = write_file vol.header_kept [] snapshot_header in
    let ((n, file), worked) = write_shards vol.record_kept now s.shards (0, start) in
    if not vol.opens
    then (files, s, some tmp_unopened)
    else if not headed
    then abandon vol files start s header_unwritten
    else if worked
    then commit vol w files file s
    else abandon vol files file s record_unwritten

unfoldable pub create_snapshot : Volume → ℕ → Files → Store → Files × Store × Option CreateError
unfolding write_snapshot
create_snapshot vol now files s = elim s.wal [
  | none ↦ (files, s, some unconfigured)
  | some w ↦ write_snapshot vol now w files s
]

-- What opening and reading a snapshot file gives: no file, an error, or its bytes, after which a
-- read may fail.
pub data SnapshotFile : Type 0 where
  missing unreadable : SnapshotFile
  opened : Bool → Bytes → SnapshotFile

pub data LoadError : Type 0 where
  unopened header_missing bad_magic unsupported_version : LoadError
  bad_record : WalError → LoadError
  out_of_fuel : LoadError

-- The `(bool, error)` of LoadSnapshot.
pub data Load : Type 0 where
  absent loaded : Load
  load_failed : LoadError → Load

-- The body of the loop for a record of a set; the number is `loadedCount`.
unfoldable pub load_entry : Bytes → Entry → Store × ℤ → Store × ℤ
load_entry key e (s, n) =
    let written = set_shard key (insert key e (get_shard s key)) s in
    let served = record written {
      last_version = if ltb s.last_version e.version then e.version else s.last_version;
    } in
    elim (lookup key (get_shard s key)) [
      | none ↦ (served, n +ℤ pos 1)
      | some current ↦ if ltb current.version e.version then (served, n) else (s, n)
    ]

unfoldable pub load_record : Record → Store × ℤ → Store × ℤ
unfolding load_entry
load_record r at =
    if nat_beq r.rec_type record_type_set
    then load_entry r.key
        (record { value = r.value; version = r.version; expires_at = r.expires_at }) at
    else at

unfoldable pub load_loop : Bool → ℕ → Bytes → Store × ℤ → Store × Load
load_loop broken zero input (s, n) = (s, load_failed out_of_fuel)
load_loop broken (suc fuel) input (s, n) = elim (read_round broken input) [
  | finished ↦ (record s { key_count = n }, loaded)
  | fault e ↦ (s, load_failed (bad_record e))
  | parsed r rest ↦ load_loop broken fuel rest (load_record r (s, n))
]

unfoldable pub load_body : Bool → Bytes → Bytes → Store → Store × Load
unfolding load_loop
load_body broken header rest s =
    if not (take 4 header == snapshot_magic)
    then (s, load_failed bad_magic)
    else if not (nat_beq (get_uint (drop 4 header)) snapshot_version)
    then (s, load_failed unsupported_version)
    else load_loop broken (suc (length rest)) rest (s, pos 0)

unfoldable pub load_snapshot : SnapshotFile → Store → Store × Load
unfolding load_body
load_snapshot missing s = (s, absent)
load_snapshot unreadable s = (s, load_failed unopened)
load_snapshot (opened broken bytes) s = elim (read_full broken 6 bytes) [
  | full header rest ↦ load_body broken header rest s
  | _ ↦ (s, load_failed header_missing)
]
