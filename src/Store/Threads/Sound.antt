-- ===== src/Store/Threads/Sound.antt =====
-- Every interleaving of the goroutines on a store (internal/store/store.go, internal/store/snapshot.go)
-- keeps it well formed.
use high_performance_kv_stor.Prelude.{
  ℕ, ◌<◌, refl, ◌∙◌, ap, [], Option, none, some, arith, length, get_or, ltb, get_or-set, length-set,
  nat_beq, nat_beq_iff, Bool-cases, Option-cases, inl, inr, Bytes, bytes_eq, set as set_at,
}
use mathlib.Core.Path.{subst}
use high_performance_kv_stor.Prelude.Int.{pos}
use high_performance_kv_stor.Store.Entry.{Entry}
use high_performance_kv_stor.Store.Wal.{WalError}
use high_performance_kv_stor.Store.State.{Store, set_record, delete_record, shard_count}
use high_performance_kv_stor.Store.State.Shards.{IsShard, IsValid, total, total-set}
use high_performance_kv_stor.Store.State.Invariant.{
  same_map-IsValid, choose_version-IsValid, log_record-IsValid, store_entry-IsValid,
  remove_entry-IsValid, reap_key-IsValid,
}
use high_performance_kv_stor.Store.Reap.{reap_shard}
use high_performance_kv_stor.Store.Reap.Laws.{
  reap_shard-IsDistinct, All-reap_shard, count-reap_shard,
}
use high_performance_kv_stor.Store.Snapshot.{Files, Volume, create_snapshot}
use high_performance_kv_stor.Store.Snapshot.Outcome.{create_snapshot_outcome}
use high_performance_kv_stor.Store.Threads.{
  Point, set_called, set_logging, set_storing, set_returned, delete_called, delete_logging,
  delete_removing, delete_returned, get_called, get_reaping, get_returned, reap_called, reaping,
  reap_returned, snapshot_called, snapshot_returned, Machine, Shared, set_logged, delete_logged,
  reap_at, advance, System, Run, start, calls, goes,
}

-- One shard is reaped, and the count goes down by what has left it.
reap_at-IsValid : (now i : ℕ) {s : Store} → IsValid s → i < 32 → IsValid (reap_at now i s)
unfolding reap_at
reap_at-IsValid now i {s} v small =
    let sh = get_or s.shards i [] in
    let kept = reap_shard now sh s.key_count in
    let inside : i < length s.shards = rw v.shard_number small in
    let home = v.shard_valid i in
    let others = total-set s.shards i [] inside in
    let all = total-set s.shards i kept.0 inside in
    record {
      shard_number = length-set s.shards i kept.0 ∙ v.shard_number;
      shard_valid = λ j.
          rw (get_or-set s.shards i j kept.0 [] inside) (elim (Bool-cases (nat_beq i j)) [
            | inl same ↦
                let here : IsShard i kept.0 = record {
                  distinct = reap_shard-IsDistinct now sh s.key_count home.distinct;
                  placed = All-reap_shard now _ sh s.key_count home.placed;
                } in
                rw same (subst (λ x. IsShard x kept.0) ((nat_beq_iff i j).0 same) here)
            | inr other ↦ rw other (v.shard_valid j)
          ]);
      counted =
          count-reap_shard now sh s.key_count (total (set_at s.shards i []))
            (v.counted ∙ ap pos (omega (arith, others)))
          ∙ ap pos (omega (arith, others, all));
    }

-- A snapshot leaves the map and the count as they are.
pub create_snapshot-IsValid :
    (vol : Volume) (now : ℕ) (files : Files) {s : Store}
    → IsValid s
    → IsValid (create_snapshot vol now files s).1
unfolding create_snapshot
create_snapshot-IsValid vol now files {s} v = elim (Option-cases s.wal) [
  | inl unlinked ↦ rw (unlinked, create_snapshot) v
  | inr (w, linked) ↦ elim (create_snapshot_outcome vol now files s w linked) [
    | inl kept ↦ rw kept.same_store v
    | inr committed ↦ rw committed.linked (same_map-IsValid v refl refl)
  ]
]

set_logged-IsValid :
    (key : Bytes) (e : Entry) (files : Files) (out : Store × Option WalError)
    → IsValid out.0
    → IsValid (set_logged key e files out).0.store
set_logged-IsValid key e files (s, none) v = v
set_logged-IsValid key e files (s, some failure) v = v

delete_logged-IsValid :
    (key : Bytes) (version : ℕ) (files : Files) (out : Store × Option WalError)
    → IsValid out.0
    → IsValid (delete_logged key version files out).0.store
delete_logged-IsValid key version files (s, none) v = v
delete_logged-IsValid key version files (s, some failure) v = v

-- No section of a call leaves the store malformed.
pub advance-IsValid :
    (m : Machine) (p : Point) (sh : Shared) → IsValid sh.store → IsValid (advance m p sh).0.store
unfolding advance
advance-IsValid m (set_called key value ttl version) sh v =
    choose_version-IsValid v m.now.for_version version
advance-IsValid m (set_logging key e) sh v =
    set_logged-IsValid key e sh.files _ (log_record-IsValid v m.disk (set_record key e))
advance-IsValid m (set_storing key e) sh v = store_entry-IsValid v key e
advance-IsValid m (set_returned result) sh v = v
advance-IsValid m (delete_called key version) sh v =
    choose_version-IsValid v m.now.for_version version
advance-IsValid m (delete_logging key version) sh v =
    delete_logged-IsValid key version sh.files _
      (log_record-IsValid v m.disk (delete_record key version))
advance-IsValid m (delete_removing key version) sh v = remove_entry-IsValid v key version
advance-IsValid m (delete_returned result) sh v = v
advance-IsValid m (get_called key) sh v = v
advance-IsValid m (get_reaping key) sh v = reap_key-IsValid v key m.now.for_version
advance-IsValid m (get_returned result) sh v = v
advance-IsValid m reap_called sh v = v
advance-IsValid m (reaping now i) sh v = elim (Bool-cases (ltb i shard_count)) [
  | inl more ↦ rw more (reap_at-IsValid now i v (ground arith))
  | inr done ↦ rw done v
]
advance-IsValid m reap_returned sh v = v
advance-IsValid m snapshot_called sh v =
    create_snapshot-IsValid m.volume m.now.for_version sh.files v
advance-IsValid m (snapshot_returned error) sh v = v

-- From a well-formed store on, whatever calls of Set, Delete, Get, reap and CreateSnapshot run at
-- the same time, in whatever order their critical sections follow each other, whatever the disks do
-- and the clocks read: at every moment the store is well formed, and the count of keys is exact.
pub Run-IsValid :
    {Allowed : Machine → Point → Store → Type 0} {shared : Shared} {s : System}
    → Run Allowed shared s
    → IsValid shared.store
    → IsValid s.shared.store
Run-IsValid (start t eq) v = rw eq v
Run-IsValid (calls before p begins t eq) v = rw eq (Run-IsValid before v)
Run-IsValid (goes before m ps qs p here ok t eq) v =
    rw eq (advance-IsValid m p _ (Run-IsValid before v))
