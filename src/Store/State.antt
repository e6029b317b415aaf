-- ===== src/Store/State.antt =====
-- internal/store/store.go: the sharded store and the operations on one key. A lock is held from the
-- first to the last line of a critical section, so each of these is one function on the state.
pub mod Invariant
pub mod Shards
pub mod Effects
pub mod Reads
pub mod Versions
pub mod Writes
pub mod Converge
pub mod Repeats
use high_performance_kv_stor.Prelude.{
  ℕ, zero, suc, ◌+◌, ◌%◌, ◌^◌, bytes_eq, Bool, true, false, List, [], ◌∷◌, Option, none, some, ltb,
  leb, get_or, set as set_at, replicate, Bytes, if◌then◌else◌,
}
use high_performance_kv_stor.Prelude.Int.{ℤ, pos, negsuc, ◌+ℤ◌, ◌-ℤ◌}
use high_performance_kv_stor.Prelude.Table.{Table, lookup, insert, delete}
use high_performance_kv_stor.Store.Entry.{Time, zero_time, instant, Entry, is_expired}
use high_performance_kv_stor.Store.Hash.{fnv32a}
use high_performance_kv_stor.Store.Wal.{
  Record, Wal, WalError, Disk, append, record_type_set, record_type_delete,
}

abbrev pub shard_count : ℕ
shard_count = 32

abbrev pub Shard : Type 0
Shard = Table Bytes Entry

pub record Store : Type 0 where
  pub shards : List Shard
  pub wal : Option Wal
  pub last_version : ℕ
  pub key_count : ℤ

abbrev pub new_store : Option Wal → Store
new_store wal = record {
  shards = replicate shard_count [];
  wal = wal;
  last_version = 0;
  key_count = pos 0;
}

abbrev pub size : Store → ℤ
size s = s.key_count

abbrev pub set_wal : Wal → Store → Store
set_wal wal s = record s { wal = some wal }

unfoldable pub shard_index : Bytes → ℕ
shard_index key = fnv32a key % shard_count

unfoldable pub get_shard : Store → Bytes → Shard
get_shard s key = get_or s.shards (shard_index key) []

-- `s.db[key]` in the key's shard.
unfoldable pub entry_of : Store → Bytes → Option Entry
entry_of s key = lookup key (get_shard s key)

-- The write to the map of the key's shard.
unfoldable pub set_shard : Bytes → Shard → Store → Store
set_shard key sh s = record s { shards = set_at s.shards (shard_index key) sh }

-- `now` is `time.Now().UnixNano()`.
unfoldable pub next_version : ℕ → Store → Store × ℕ
next_version now s =
    let v = now % 2 ^ 64 in
    let version = if leb v s.last_version then (s.last_version + 1) % 2 ^ 64 else v in
    (record s { last_version = version }, version)

-- The delete of an expired entry under the write lock, which `Get` checks once more.
unfoldable pub reap_key : ℕ → Bytes → Store → Store
reap_key now key s = elim (lookup key (get_shard s key)) [
  | none ↦ s
  | some e ↦
      if is_expired now e
      then record (set_shard key (delete key (get_shard s key)) s) {
        key_count = s.key_count -ℤ pos 1;
      }
      else s
]

-- The two numbers are the times of the check under the read lock and of that under the write lock.
unfoldable pub get : ℕ → ℕ → Bytes → Store → Store × Option (Bytes × ℕ)
get now later key s = elim (lookup key (get_shard s key)) [
  | none ↦ (s, none)
  | some entry ↦
      if is_expired now entry
      then (reap_key later key s, none)
      else (s, some (entry.value, entry.version))
]

pub data Result {ℓ} (A : Type ℓ) : Type ℓ where
  ok : A → Result A
  err : WalError → Result A

-- `if s.wal != nil { s.wal.Append(…) }`
unfoldable pub log_record : Disk → Record → Store → Store × Option WalError
log_record disk r s = elim s.wal [
  | none ↦ (s, none)
  | some w ↦ let (w', error) = append disk w r in (record s { wal = some w' }, error)
]

unfoldable pub choose_version : ℕ → ℕ → Store → Store × ℕ
choose_version now version s = elim version [ zero ↦ next_version now s | suc v ↦ (s, suc v) ]

-- A ttl is a time.Duration, in nanoseconds.
unfoldable pub expiry : ℕ → ℤ → Time
expiry now (pos (suc n)) = instant (now + suc n)
expiry now ttl = zero_time

-- The critical section of `Set`: the map and the count, and the version that is returned.
unfoldable pub store_entry : Bytes → Entry → Store → Store × ℕ
store_entry key e s =
    let written = set_shard key (insert key e (get_shard s key)) s in
    elim (lookup key (get_shard s key)) [
      | none ↦ (record written { key_count = s.key_count +ℤ pos 1 }, e.version)
      | some current ↦
          if ltb e.version current.version then (s, current.version) else (written, e.version)
    ]

abbrev pub set_record : Bytes → Entry → Record
set_record key e = record {
  rec_type = record_type_set;
  key = key;
  value = e.value;
  version = e.version;
  expires_at = e.expires_at;
}

abbrev pub delete_record : Bytes → ℕ → Record
delete_record key version = record {
  rec_type = record_type_delete;
  key = key;
  value = [];
  version = version;
  expires_at = zero_time;
}

-- An error of the log ends the operation before its critical section.
abbrev pub unless_failed {ℓ} : {A : Type ℓ} → Option WalError → Store → Store × A → Store × Result A
unless_failed (some failure) s after = (s, err failure)
unless_failed none s (s', a) = (s', ok a)

-- When `Set` reads the clock: for the expiry and for the version.
pub record Times : Type 0 where
  pub for_expiry : ℕ
  pub for_version : ℕ

unfoldable pub set : Disk → Times → Bytes → Bytes → ℤ → ℕ → Store → Store × Result ℕ
set disk now key value ttl version s =
    let (s₁, chosen) = choose_version now.for_version version s in
    let e : Entry = record {
      value = value;
      version = chosen;
      expires_at = expiry now.for_expiry ttl;
    } in
    let (s₂, error) = log_record disk (set_record key e) s₁ in
    unless_failed error s₂ (store_entry key e s₂)

-- The critical section of `Delete`.
unfoldable pub remove_entry : Bytes → ℕ → Store → Store × (ℕ × Bool)
remove_entry key version s = elim (lookup key (get_shard s key)) [
  | none ↦ (s, (version, false))
  | some current ↦ if ltb version current.version then (s, (current.version, false)) else (
    record (set_shard key (delete key (get_shard s key)) s) { key_count = s.key_count -ℤ pos 1 },
    (version, true),
  )
]

unfoldable pub delete_key : Disk → ℕ → Bytes → ℕ → Store → Store × Result (ℕ × Bool)
delete_key disk now key version s =
    let (s₁, chosen) = choose_version now version s in
    let (s₂, error) = log_record disk (delete_record key chosen) s₁ in
    unless_failed error s₂ (remove_entry key chosen s₂)
