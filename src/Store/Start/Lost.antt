-- ===== src/Store/Start/Lost.antt =====
-- A Set of internal/store/store.go with a CreateSnapshot of internal/store/snapshot.go between its
-- two critical sections: the lock of the log is free there, and so is that of the shard.
use high_performance_kv_stor.Prelude.{
  ℕ, ◌≤◌, length, ◌≡◌, inl, inr, refl, sym, ◌∙◌, ap, [], Option, none, some, Bytes, bytes_eq,
  bytes_beq_iff, String,
}
use high_performance_kv_stor.Prelude.Int.{ℤ}
use high_performance_kv_stor.Store.Entry.{Entry}
use high_performance_kv_stor.Store.Wal.{Wal, WalError, Disk, healthy, append}
use high_performance_kv_stor.Store.State.{
  Store, Times, Result, ok, entry_of, expiry, choose_version, set_record, log_record, store_entry,
  unless_failed,
}
use high_performance_kv_stor.Store.State.Writes.{merge, entry_of-store_entry, store_entry-version}
use high_performance_kv_stor.Store.State.Effects.{offered, entry_of-same_map, shards-choose_version}
use high_performance_kv_stor.Store.State.Invariant.{choose_version-IsValid, same_map-IsValid}
use high_performance_kv_stor.Store.State.Shards.{IsValid}
use high_performance_kv_stor.Store.Recovery.{Reading}
use high_performance_kv_stor.Store.Recovery.Durable.{wal-store_entry}
use high_performance_kv_stor.Store.Recovery.Linked.{log_record-linked, wal-choose_version}
use high_performance_kv_stor.Store.Snapshot.{Files, Volume, CreateError, create_snapshot}
use high_performance_kv_stor.Store.Snapshot.Outcome.{IsCommitted, create_snapshot_outcome}
use high_performance_kv_stor.Store.Start.{Started}
use high_performance_kv_stor.Store.Start.History.{Node, History, start_again}
use high_performance_kv_stor.Store.Start.Restored.{
  IsLasting, IsRestarted, start_again-IsRecoverable,
}
use high_performance_kv_stor.Store.Start.Recoverable.{
  remaining-IsRecoverable, store-IsLasting, History-IsRecoverable,
}

-- The critical section of the Set, after the snapshot.
unfoldable pub finish_set :
    Bytes
    → Entry
    → Option WalError
    → Files × Store × Option CreateError
    → Files × (Store × Result ℕ) × Option CreateError
finish_set key e error (files, s, refused) =
    (files, unless_failed error s (store_entry key e s), refused)

-- The files and the store after both, the reply of the Set, and the error of the snapshot.
unfoldable pub set_around_snapshot :
    Volume
    → ℕ
    → Disk
    → Times
    → Bytes
    → Bytes
    → ℤ
    → ℕ
    → Files
    → Store
    → Files × (Store × Result ℕ) × Option CreateError
unfolding finish_set
set_around_snapshot vol at disk now key value ttl version files s =
    let (s₁, chosen) = choose_version now.for_version version s in
    let e : Entry = record {
      value = value;
      version = chosen;
      expires_at = expiry now.for_expiry ttl;
    } in
    let (s₂, error) = log_record disk (set_record key e) s₁ in
    finish_set key e error (create_snapshot vol at files s₂)

-- The snapshot leaves an empty log if it returns no error.
record IsEmptied (now : ℕ) (w : Wal) (s : Store) (out : Files × Store × Option CreateError)
    : Type 0 where
  committed : IsCommitted now w s out
  empty : committed.log.bytes ≡ []

create_snapshot-IsEmptied :
    (vol : Volume) (now : ℕ) (files : Files) (s : Store) (w : Wal)
    → s.wal ≡ some w
    → (create_snapshot vol now files s).2 ≡ none
    → IsEmptied now w s (create_snapshot vol now files s)
create_snapshot-IsEmptied vol now files s w linked worked =
    elim (create_snapshot_outcome vol now files s w linked) [
      | inl kept ↦ absurd (kept.refused worked)
      | inr c ↦ record {
        committed = c;
        empty = elim c.emptied [ inl e ↦ e | inr stuck ↦ absurd (cc (stuck.1, worked)) ];
      }
    ]

-- A write that was acknowledged and is gone after a restart.
pub record IsLost (clock : ℕ → Reading) (s : Store) (key : Bytes) (e : Entry)
    (out : Files × (Store × Result ℕ) × Option CreateError) : Type 0 where
  pub acknowledged : out.1.1 ≡ ok e.version
  pub stored : entry_of out.1.0 key ≡ some e
  pub log : Wal
  pub linked : out.1.0.wal ≡ some log
  pub forgotten : IsRestarted s log (start_again clock log out.0)

-- The same restart, seen from a store with the same entries.
same_map-IsRestarted :
    {s t : Store} {w : Wal} {out : Started}
    → t.shards ≡ s.shards
    → IsRestarted t w out
    → IsRestarted s w out
same_map-IsRestarted {s} {t} same r = record {
  store = r.store;
  runs = r.runs;
  valid = r.valid;
  log = r.log;
  linked = r.linked;
  same_log = r.same_log;
  entries = λ j. r.entries j ∙ entry_of-same_map s t j same;
}

-- The log that a snapshot without an error has left, and what a start makes of it.
IsEmptied-restarts :
    (clock : ℕ → Reading) (now : ℕ) (w : Wal) (s : Store) (out : Files × Store × Option CreateError)
    → (c : IsEmptied now w s out) → IsValid s
    → IsLasting (entry_of s)
    → IsRestarted s c.committed.log (start_again clock c.committed.log out.0)
IsEmptied-restarts clock now w s out c v lasts =
    let recoverable =
      remaining-IsRecoverable now w s out c.committed v lasts
        (record { cs = []; written = c.empty; logged = tt; entries = λ j. refl }) in
    let t =
      start_again-IsRecoverable clock (record { files = out.0; store = out.1 }) c.committed.log
        recoverable (ap (λ x. x.wal) c.committed.linked) in
    same_map-IsRestarted (ap (λ x. x.shards) c.committed.linked) t

module _ {path : String} {n : Node} (history : History path n) (clock : ℕ → Reading) (vol : Volume)
    (at : ℕ) (now : Times) (key value : Bytes) (ttl : ℤ) (version : ℕ) (fits : length key ≤ 65535)
    (wins : merge (entry_of n.store key) (offered now value ttl version n.store)
      ≡ offered now value ttl version n.store) where
  -- After any history of a node, let a Set whose version wins append its record, let a CreateSnapshot
  -- that returns no error run before the Set takes the lock of the shard, and let the Set go on: it
  -- returns its version without an error and the running store has its entry, but a restart brings
  -- back exactly the entries from before the Set.
  pub set-IsLost :
      (set_around_snapshot vol at healthy now key value ttl version n.files n.store).2 ≡ none
      → IsLost clock n.store key
          (offered now value ttl version n.store)
          (set_around_snapshot vol at healthy now key value ttl version n.files n.store)
  unfolding set_around_snapshot
  set-IsLost worked =
      let r = History-IsRecoverable history in
      let e = offered now value ttl version n.store in
      let s₁ = (choose_version now.for_version version n.store).0 in
      let w = (append healthy r.durable.wal (set_record key e)).0 in
      let ready : Store = record s₁ { wal = some w } in
      let shards = shards-choose_version now.for_version version n.store in
      let valid =
        same_map-IsValid {t = ready}
          (choose_version-IsValid r.durable.valid now.for_version version) refl refl in
      let same : set_around_snapshot vol at healthy now key value ttl version n.files n.store
          ≡ finish_set key e none (create_snapshot vol at n.files ready) =
        ap (λ x. finish_set key e x.1 (create_snapshot vol at n.files x.0))
          (log_record-linked (set_record key e) s₁ r.durable.wal
            (wal-choose_version now.for_version version n.store ∙ r.durable.linked) fits) in
      let out = create_snapshot vol at n.files ready in
      let emptied =
        create_snapshot-IsEmptied vol at n.files ready w refl (sym (ap (λ x. x.2) same) ∙ worked) in
      let c = emptied.committed in
      let here : entry_of out.1 key ≡ entry_of n.store key =
        entry_of-same_map n.store out.1 key (ap (λ x. x.shards) c.linked ∙ shards) in
      let kept : merge (entry_of out.1 key) e ≡ e = rw here wins in
      let number : length out.1.shards ≡ 32 = rw c.linked valid.shard_number in
      let lasts : IsLasting (entry_of ready) = λ j f there.
        store-IsLasting r j f (sym (entry_of-same_map n.store ready j shards) ∙ there) in
      rw same (record {
        acknowledged = ap ok (store_entry-version out.1 number key e ∙ ap (λ x. x.version) kept);
        stored =
            entry_of-store_entry out.1 number key e key
            ∙ rw ((bytes_beq_iff key key).1 refl) (ap some kept);
        log = c.log;
        linked = wal-store_entry out.1 key e ∙ ap (λ x. x.wal) c.linked;
        forgotten =
            same_map-IsRestarted shards
              (IsEmptied-restarts clock at w ready out emptied valid lasts);
      })
