-- ===== src/Store/Threads/Fitting.antt =====
-- What goroutines leave in a store (internal/store/store.go) fits the record format, whatever the disks
-- do, with or without an expiry; and the store keeps a log.
pub mod Reached
use mathlib.Core.Path.{subst}
use high_performance_kv_stor.Prelude.{
  ℕ, ◌<◌, ◌≡◌, refl, sym, ◌∙◌, ap, List, [], ◌∷◌, ◌++◌, All, Option, none, some, arith, length,
  get_or, ltb, get_or-set, nat_beq, nat_beq_iff, Bool-cases, inl, inr, Bytes, bytes_eq, ◌==◌,
  bytes_beq_iff, if◌then◌else◌, true,
}
use high_performance_kv_stor.Prelude.Table.{lookup}
use high_performance_kv_stor.Store.Entry.{Entry, is_expired}
use high_performance_kv_stor.Store.Wal.{Wal, WalError, Disk, Record, append}
use high_performance_kv_stor.Store.Wal.Read.RoundTrip.{IsEncodable}
use high_performance_kv_stor.Store.State.{
  Store, get_shard, shard_index, entry_of, set_record, delete_record, log_record, store_entry,
  remove_entry, reap_key, shard_count, set_shard,
}
use high_performance_kv_stor.Store.State.Shards.{IsValid}
use high_performance_kv_stor.Store.State.Writes.{merge, entry_of-store_entry, entry_of-remove_entry}
use high_performance_kv_stor.Store.State.Effects.{
  offered, entry_of-same_map, shards-choose_version, shards-log_record,
}
use high_performance_kv_stor.Store.State.Reads.{reaped, entry_of-reap_key}
use high_performance_kv_stor.Store.Recovery.Durable.{wal-store_entry, wal-remove_entry}
use high_performance_kv_stor.Store.Recovery.Linked.{wal-choose_version}
use high_performance_kv_stor.Store.Reap.{reap_shard}
use high_performance_kv_stor.Store.Reap.Laws.{lookup-reap_shard}
use high_performance_kv_stor.Store.Snapshot.{Files, Volume, create_snapshot}
use high_performance_kv_stor.Store.Snapshot.Outcome.{create_snapshot_outcome}
use high_performance_kv_stor.Store.Snapshot.Restore.{IsStorable}
use high_performance_kv_stor.Store.Start.Restored.{merge-either, survivor-some}
use high_performance_kv_stor.Store.Threads.{
  Point, set_called, set_logging, set_storing, set_returned, delete_called, delete_logging,
  delete_removing, delete_returned, get_called, get_reaping, get_returned, reap_called, reaping,
  reap_returned, snapshot_called, snapshot_returned, Machine, Shared, set_logged, delete_logged,
  reap_at, advance, System, Run, start, calls, goes, is_call, get_looked,
}
use high_performance_kv_stor.Store.Threads.Sound.{Run-IsValid}

-- What a Set is to offer: a record that fits the format.
abbrev pub IsFitting : Machine → Point → Store → Type 0
IsFitting m (set_called key value ttl version) s =
    IsEncodable (set_record key (offered m.now value ttl version s))
IsFitting m _ s = Unit {0}

-- What a Set that is under way carries.
abbrev pub Carries : Point → Type 0
Carries (set_logging key e) = IsEncodable (set_record key e)
Carries (set_storing key e) = IsEncodable (set_record key e)
Carries _ = Unit {0}

-- Every entry fits the format, and there is a log.
pub record IsKept (s : Store) : Type 0 where
  pub storable : IsStorable s
  pub log : Wal
  pub linked : s.wal ≡ some log

-- A store with no entry that the other has not.
same_or_fewer :
    {s t : Store}
    → ((j : Bytes) (e : Entry) → entry_of t j ≡ some e → entry_of s j ≡ some e)
    → t.wal ≡ s.wal
    → IsKept s
    → IsKept t
same_or_fewer fewer same k = record {
  storable = λ j e here. k.storable j e (fewer j e here);
  log = k.log;
  linked = same ∙ k.linked;
}

pub same_map-IsKept : {s t : Store} → t.shards ≡ s.shards → t.wal ≡ s.wal → IsKept s → IsKept t
same_map-IsKept {s} {t} shards =
    same_or_fewer (λ j e here. sym (entry_of-same_map s t j shards) ∙ here)

pub reaped-some : (now : ℕ) (o : Option Entry) (e : Entry) → reaped now o ≡ some e → o ≡ some e
reaped-some now none e h = h
reaped-some now (some c) e h = ground arith

wal-reap_key : (now : ℕ) (key : Bytes) (s : Store) → (reap_key now key s).wal ≡ s.wal
unfolding reap_key set_shard
wal-reap_key now key s = ground arith

module _ {s : Store} (v : IsValid s) (k : IsKept s) where
  pub store_entry-IsKept :
      (key : Bytes) (e : Entry) → IsEncodable (set_record key e) → IsKept (store_entry key e s).0
  store_entry-IsKept key e fits = record {
    storable = λ j c here.
        let at = sym (entry_of-store_entry s v.shard_number key e j) ∙ here in
        elim (Bool-cases (key == j)) [
          | inl same ↦
              let eq : key ≡ j = (bytes_beq_iff key j).0 same in
              let here : some (merge (entry_of s key) e) ≡ some c = sym (rw same refl) ∙ at in
              elim (merge-either (entry_of s key) e) [
                | inl won ↦
                    subst (λ i. IsEncodable (set_record i c)) eq
                      (subst (λ x. IsEncodable (set_record key x)) (cc (here, won)) fits)
                | inr lost ↦ k.storable j c (ap (entry_of s) (sym eq) ∙ lost ∙ here)
              ]
          | inr other ↦ k.storable j c (sym (rw other refl) ∙ at)
        ];
    log = k.log;
    linked = wal-store_entry s key e ∙ k.linked;
  }

  pub remove_entry-IsKept : (key : Bytes) (version : ℕ) → IsKept (remove_entry key version s).0
  remove_entry-IsKept key version =
      same_or_fewer
        (λ j e here.
          let at = sym (entry_of-remove_entry s v.shard_number key version j) ∙ here in
          elim (Bool-cases (key == j)) [
            | inl same ↦
                ap (entry_of s) (sym ((bytes_beq_iff key j).0 same))
                ∙ survivor-some (entry_of s key) version e (sym (rw same refl) ∙ at)
            | inr other ↦ sym (rw other refl) ∙ at
          ])
        (wal-remove_entry s key version) k

  pub reap_key-IsKept : (key : Bytes) (now : ℕ) → IsKept (reap_key now key s)
  reap_key-IsKept key now =
      same_or_fewer
        (λ j e here.
          let at = sym (entry_of-reap_key s v.shard_number key now j) ∙ here in
          elim (Bool-cases (key == j)) [
            | inl same ↦
                ap (entry_of s) (sym ((bytes_beq_iff key j).0 same))
                ∙ reaped-some now (entry_of s key) e (sym (rw same refl) ∙ at)
            | inr other ↦ sym (rw other refl) ∙ at
          ])
        (wal-reap_key now key s) k

  pub reap_at-IsKept : (now i : ℕ) → i < 32 → IsKept (reap_at now i s)
  unfolding reap_at entry_of get_shard
  reap_at-IsKept now i small =
      same_or_fewer
        (λ j e here.
          let inside : i < length s.shards = rw v.shard_number small in
          let kept = reap_shard now (get_or s.shards i []) s.key_count in
          let at : lookup j
                (if nat_beq i (shard_index j) then kept.0 else get_or s.shards (shard_index j) [])
              ≡ some e =
            ap (lookup j) (sym (get_or-set s.shards i (shard_index j) kept.0 [] inside)) ∙ here in
          elim (Bool-cases (nat_beq i (shard_index j))) [
            | inl same ↦
                let here : lookup j kept.0 ≡ some e = sym (rw same refl) ∙ at in
                let sh = get_or s.shards i [] in
                ap (λ n. lookup j (get_or s.shards n []))
                  (sym ((nat_beq_iff i (shard_index j)).0 same))
                ∙ reaped-some now (lookup j sh) e
                    (sym (lookup-reap_shard now sh s.key_count j (v.shard_valid i).distinct) ∙ here)
            | inr other ↦ sym (rw other refl) ∙ at
          ])
        refl k

wal-log_record :
    (disk : Disk) (r : Record) (s : Store) (w : Wal)
    → s.wal ≡ some w
    → (log_record disk r s).0.wal ≡ some (append disk w r).0
unfolding log_record
wal-log_record disk r s w h = ground arith

pub log_record-IsKept :
    (disk : Disk) (r : Record) {s : Store} → IsKept s → IsKept (log_record disk r s).0
log_record-IsKept disk r {s} k = record {
  storable = λ j e here.
      k.storable j e (sym (entry_of-same_map s _ j (shards-log_record disk r s)) ∙ here);
  log = (append disk k.log r).0;
  linked = wal-log_record disk r s k.log k.linked;
}

pub create_snapshot-IsKept :
    (vol : Volume) (now : ℕ) (files : Files) {s : Store}
    → IsKept s
    → IsKept (create_snapshot vol now files s).1
create_snapshot-IsKept vol now files {s} k =
    elim (create_snapshot_outcome vol now files s k.log k.linked) [
      | inl kept ↦ rw kept.same_store k
      | inr c ↦ rw c.linked (record {
        storable = λ j e here. k.storable j e (sym (entry_of-same_map s _ j refl) ∙ here);
        log = c.log;
        linked = refl;
      })
    ]
