-- ===== src/Store/Recovery/Durable.antt =====
-- Durability: what internal/store/store.go wrote to the log without an expiry, the replay of
-- cmd/server/main.go brings back.
use high_performance_kv_stor.Prelude.{
  ℕ, zero, suc, ◌<◌, ◌≡◌, refl, ◌∙◌, ap, true, List, [], ◌∷◌, map, Option, none, some, arith, Bytes,
  bytes_eq, ◌==◌, All, if◌then◌else◌,
}
use mathlib.Core.Path.{fun_ext}
use high_performance_kv_stor.Store.Entry.{Entry, zero_time}
use high_performance_kv_stor.Store.Wal.{Record, Disk, healthy}
use high_performance_kv_stor.Store.Wal.Read.{Replayed, done}
use high_performance_kv_stor.Store.Wal.Read.Replay.{apply_all}
use high_performance_kv_stor.Store.State.{
  Store, set_shard, entry_of, set_record, delete_record, store_entry, remove_entry, set, delete_key,
  choose_version, log_record, expiry,
}
use high_performance_kv_stor.Store.State.Shards.{IsValid}
use high_performance_kv_stor.Store.State.Invariant.{store_entry-IsValid, remove_entry-IsValid}
use high_performance_kv_stor.Store.State.Writes.{
  merge, survivor, entry_of-store_entry, entry_of-remove_entry,
}
use high_performance_kv_stor.Store.Recovery.{Reading, replay_record, callback}

-- A logged write without an expiry.
pub data Mutation : Type 0 where
  put : Bytes → Bytes → ℕ → Mutation
  remove : Bytes → ℕ → Mutation

abbrev pub lasting : Bytes → ℕ → Entry
lasting value version = record { value = value; version = version; expires_at = zero_time }

abbrev pub record_of : Mutation → Record
record_of (put key value version) = set_record key (lasting value version)
record_of (remove key version) = delete_record key version

-- The specification of a store: a map from keys to entries, and what a write does to it.
abbrev pub Map : Type 0
Map = Bytes → Option Entry

abbrev pub change : Mutation → Map → Map
change (put key value version) m j =
    if key == j then some (merge (m key) (lasting value version)) else m j
change (remove key version) m j = if key == j then survivor (m key) version else m j

abbrev pub change_all : List Mutation → Map → Map
change_all [] m = m
change_all (c ∷ cs) m = change_all cs (change c m)

-- A version of 0 stands for none: Set and Delete would draw another.
abbrev pub HasVersion : Mutation → Type 0
HasVersion (put key value version) = 0 < version
HasVersion (remove key version) = 0 < version

-- The critical section of a write.
abbrev pub perform : Mutation → Store → Store
perform (put key value version) s = (store_entry key (lasting value version) s).0
perform (remove key version) s = (remove_entry key version s).0

pub wal-store_entry : (s : Store) (key : Bytes) (e : Entry) → (store_entry key e s).0.wal ≡ s.wal
unfolding store_entry set_shard
wal-store_entry s key e = ground arith

pub wal-remove_entry :
    (s : Store) (key : Bytes) (version : ℕ) → (remove_entry key version s).0.wal ≡ s.wal
unfolding remove_entry set_shard
wal-remove_entry s key version = ground arith

pub perform-IsValid : (c : Mutation) {s : Store} → IsValid s → IsValid (perform c s)
perform-IsValid (put key value version) v = store_entry-IsValid v key (lasting value version)
perform-IsValid (remove key version) v = remove_entry-IsValid v key version

wal-perform : (c : Mutation) (s : Store) → (perform c s).wal ≡ s.wal
wal-perform (put key value version) s = wal-store_entry s key (lasting value version)
wal-perform (remove key version) s = wal-remove_entry s key version

pub entry_of-perform :
    (c : Mutation) {s : Store} (j : Bytes)
    → IsValid s
    → entry_of (perform c s) j ≡ change c (entry_of s) j
entry_of-perform (put key value version) {s} j v =
    entry_of-store_entry s v.shard_number key (lasting value version) j
entry_of-perform (remove key version) {s} j v = entry_of-remove_entry s v.shard_number key version j

log_record-unlinked :
    (disk : Disk) (r : Record) (s : Store) → s.wal ≡ none → log_record disk r s ≡ (s, none)
unfolding log_record
log_record-unlinked disk r s h = ground arith

-- Replaying a record of a write into a store with no log is the write's critical section.
replay_record-perform :
    (now : Reading) (c : Mutation) (s : Store)
    → s.wal ≡ none
    → HasVersion c
    → replay_record now (record_of c) s ≡ (perform c s, true)
unfolding replay_record set delete_key choose_version expiry
replay_record-perform now (put key value zero) s unlinked h = absurd (omega arith)
replay_record-perform now (put key value (suc v)) s unlinked h =
    rw (log_record-unlinked healthy (set_record key (lasting value (suc v))) s unlinked, set)
replay_record-perform now (remove key zero) s unlinked h = absurd (omega arith)
replay_record-perform now (remove key (suc v)) s unlinked h =
    rw (log_record-unlinked healthy (delete_record key (suc v)) s unlinked, delete_key)

-- Replaying the records of writes into a store with no log succeeds, and gives a well-formed store
-- whose map is what the writes make of the map before.
pub record IsReplayOf (cs : List Mutation) (s : Store) (out : Replayed (ℕ × Store)) : Type 0 where
  pub count : ℕ
  pub store : Store
  pub finished : out ≡ done (count, store)
  pub valid : IsValid store
  pub entries : (j : Bytes) → entry_of store j ≡ change_all cs (entry_of s) j

change_all-ext :
    (cs : List Mutation) (m n : Map)
    → ((j : Bytes) → m j ≡ n j)
    → (j : Bytes) → change_all cs m j ≡ change_all cs n j
change_all-ext cs m n h j = ap (λ f. change_all cs f j) (fun_ext h)

pub apply_all-records :
    (clock : ℕ → Reading) (cs : List Mutation) (n : ℕ) (s : Store)
    → IsValid s
    → s.wal ≡ none
    → All HasVersion cs
    → IsReplayOf cs s (apply_all (callback clock) (map record_of cs) (n, s))
apply_all-records clock [] n s v unlinked ok = record {
  count = n;
  store = s;
  finished = refl;
  valid = v;
  entries = λ j. refl;
}
apply_all-records clock (c ∷ cs) n s v unlinked ok =
    let first = replay_record-perform (clock n) c s unlinked ok.0 in
    let rest =
      apply_all-records clock cs (suc n) (perform c s) (perform-IsValid c v)
        (wal-perform c s ∙ unlinked) ok.1 in
    record {
      count = rest.count;
      store = rest.store;
      finished = rw first rest.finished;
      valid = rest.valid;
      entries = λ j.
          rest.entries j
          ∙ change_all-ext cs (entry_of (perform c s)) (change c (entry_of s))
              (λ k. entry_of-perform c k v) j;
    }
