-- ===== src/Store/Recovery/Linked.antt =====
-- Set and Delete (internal/store/store.go) on a store whose log is on a healthy disk.
use high_performance_kv_stor.Prelude.{
  ℕ, zero, suc, ◌≤◌, ◌≡◌, refl, ◌∙◌, none, some, arith, length, Bytes, bytes_eq,
}
use high_performance_kv_stor.Prelude.Int.{ℤ}
use high_performance_kv_stor.Store.Wal.{Record, Wal, healthy, append, write_sync}
use high_performance_kv_stor.Store.State.{
  Store, Times, set_record, delete_record, store_entry, remove_entry, set, delete_key,
  choose_version, log_record, next_version, ok,
}
use high_performance_kv_stor.Store.State.Effects.{offered, delete_version}

-- With a linked log and a healthy disk a record that fits goes to the end of the log.
pub log_record-linked :
    (r : Record) (s : Store) (w : Wal)
    → s.wal ≡ some w
    → length r.key ≤ 65535
    → log_record healthy r s ≡ (record s { wal = some (append healthy w r).0 }, none)
unfolding log_record append write_sync
log_record-linked r s w h fits = ground arith

pub wal-choose_version :
    (now version : ℕ) (s : Store) → (choose_version now version s).0.wal ≡ s.wal
unfolding choose_version next_version
wal-choose_version now zero s = refl
wal-choose_version now (suc n) s = refl

-- On a healthy disk with a linked log, Set reaches its critical section with the record logged.
pub set-linked :
    (now : Times) (key value : Bytes) (ttl : ℤ) (version : ℕ) (s : Store) (w : Wal)
    → s.wal ≡ some w
    → length key ≤ 65535
    → let e = offered now value ttl version s in
      let ready = record (choose_version now.for_version version s).0 {
        wal = some (append healthy w (set_record key e)).0;
      } in
      set healthy now key value ttl version s
      ≡ ((store_entry key e ready).0, ok (store_entry key e ready).1)
unfolding set
set-linked now key value ttl version s w h fits =
    let e = offered now value ttl version s in
    rw (
      log_record-linked (set_record key e) (choose_version now.for_version version s).0 w
          (wal-choose_version now.for_version version s ∙ h) fits,
      set,
    )

pub delete_key-linked :
    (now : ℕ) (key : Bytes) (version : ℕ) (s : Store) (w : Wal)
    → s.wal ≡ some w
    → length key ≤ 65535
    → let chosen = delete_version healthy now key version s in
      let ready = record (choose_version now version s).0 {
        wal = some (append healthy w (delete_record key chosen)).0;
      } in
      delete_key healthy now key version s
      ≡ ((remove_entry key chosen ready).0, ok (remove_entry key chosen ready).1)
unfolding delete_key
delete_key-linked now key version s w h fits =
    let chosen = delete_version healthy now key version s in
    rw (
      log_record-linked (delete_record key chosen) (choose_version now version s).0 w
          (wal-choose_version now version s ∙ h) fits,
      delete_key,
    )
