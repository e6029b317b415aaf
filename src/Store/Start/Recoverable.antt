-- ===== src/Store/Start/Recoverable.antt =====
-- Whatever happens to a node, its files hold its data (internal/store/store.go,
-- internal/store/snapshot.go, cmd/server/main.go).
use mathlib.Core.Path.{fun_ext, subst}
use high_performance_kv_stor.Prelude.{
  ℕ, ◌≡◌, inl, inr, refl, sym, ◌∙◌, ap, List, [], map, Option, none, some, All, Option-cases,
  String, Bytes, arith,
}
use high_performance_kv_stor.Prelude.Int.{pos}
use high_performance_kv_stor.Store.Entry.{is_expired, passed}
use high_performance_kv_stor.Store.Wal.{Wal}
use high_performance_kv_stor.Store.Wal.Read.Replay.{encode_all}
use high_performance_kv_stor.Store.State.{Store, new_store, entry_of, set_wal}
use high_performance_kv_stor.Store.State.Shards.{IsValid}
use high_performance_kv_stor.Store.State.Invariant.{new_store-IsValid, same_map-IsValid}
use high_performance_kv_stor.Store.State.Reads.{reaped}
use high_performance_kv_stor.Store.Recovery.{Reading}
use high_performance_kv_stor.Store.Recovery.Durable.{Mutation, record_of, Map, change_all}
use high_performance_kv_stor.Store.Recovery.Session.{
  IsLogged, IsDurable, start-IsDurable, set-IsDurable, delete_key-IsDurable, entry_of-new_store,
}
use high_performance_kv_stor.Store.Snapshot.{
  Files, absent, loaded, CreateError, load_snapshot, create_snapshot, Volume,
}
use high_performance_kv_stor.Store.Snapshot.Loading.{wal-load_all}
use high_performance_kv_stor.Store.Snapshot.Written.{all_live}
use high_performance_kv_stor.Store.Snapshot.Outcome.{IsKept, IsCommitted, create_snapshot_outcome}
use high_performance_kv_stor.Store.Snapshot.Restore.{reload, load_snapshot-snapshot_bytes}
use high_performance_kv_stor.Store.Start.{Started}
use high_performance_kv_stor.Store.Start.Twice.{change_all-twice}
use high_performance_kv_stor.Store.Start.History.{
  Node, first_node, start_again, History, start, wrote, erased, compacted, restarted,
}
use high_performance_kv_stor.Store.Start.Restored.{
  IsLasting, change_all-IsLasting, IsRecoverable, IsRestarted, start_again-IsRecoverable,
  entry_of-set_wal,
}

first_node-IsRecoverable : (path : String) → IsRecoverable (first_node path)
unfolding load_snapshot
first_node-IsRecoverable path =
    let d = start-IsDurable path in
    record {
      base = new_store none;
      found = absent;
      loads = refl;
      sound = inl refl;
      base_valid = new_store-IsValid none;
      unlinked = refl;
      lasts = λ j e at. absurd (cc (at, entry_of-new_store none j));
      cs = [];
      durable = record {
        wal = d.wal;
        linked = d.linked;
        written = d.written;
        logged = d.logged;
        valid = d.valid;
        entries = λ j. d.entries j ∙ sym (entry_of-new_store none j);
      };
    }

-- The store of a recoverable node has entries that fit the format and do not expire.
pub store-IsLasting : {n : Node} → IsRecoverable n → IsLasting (entry_of n.store)
store-IsLasting {n} r =
    subst IsLasting (sym (fun_ext r.durable.entries))
      (change_all-IsLasting r.cs (entry_of r.base) r.durable.logged r.lasts)

reaped-lasting : (now : ℕ) (m : Map) (j : Bytes) → IsLasting m → reaped now (m j) ≡ m j
unfolding is_expired passed
reaped-lasting now m j h = elim (Option-cases (m j)) [
  | inl gone ↦ rw gone refl
  | inr (e, there) ↦ rw there (ground (arith, (h j e there).1))
]

-- The same data with another log.
pub relinked :
    {m : Map} {s : Store} (log : Wal) (cs : List Mutation)
    → IsValid s
    → log.bytes ≡ encode_all (map record_of cs)
    → All IsLogged cs
    → ((j : Bytes) → entry_of s j ≡ change_all cs m j)
    → IsDurable m (set_wal log s) cs
relinked {m} {s} log cs v written logged entries = record {
  wal = log;
  linked = refl;
  written = written;
  logged = logged;
  valid = same_map-IsValid v refl refl;
  entries = λ j. entry_of-set_wal log s j ∙ entries j;
}

-- What is left in a log, and leads nowhere.
pub record IsRemaining (s : Store) (log : Wal) : Type 0 where
  pub cs : List Mutation
  pub written : log.bytes ≡ encode_all (map record_of cs)
  pub logged : All IsLogged cs
  pub entries : (j : Bytes) → entry_of s j ≡ change_all cs (entry_of s) j

-- A snapshot that is in place holds the data, whatever is left in the log.
pub remaining-IsRecoverable :
    (now : ℕ) (w : Wal) (s : Store) (out : Files × Store × Option CreateError)
    → (c : IsCommitted now w s out) → IsValid s
    → IsLasting (entry_of s)
    → IsRemaining s c.log
    → IsRecoverable (record { files = out.0; store = out.1 })
remaining-IsRecoverable now w s out c v lasts remains =
    let (loads, (again, entries)) =
      load_snapshot-snapshot_bytes now s v (λ j e at. (lasts j e at).0) in
    let base = reload now s in
    let same : entry_of base ≡ entry_of s =
      fun_ext (λ j. entries j ∙ reaped-lasting now (entry_of s) j lasts) in
    record {
      base = base;
      found = loaded;
      loads = rw c.snapshot loads;
      sound = inr refl;
      base_valid = again;
      unlinked = wal-load_all (all_live now s.shards) (new_store none) (pos 0);
      lasts = subst IsLasting (sym same) lasts;
      cs = remains.cs;
      durable = rw c.linked (
          relinked c.log remains.cs v remains.written remains.logged
            (λ j. remains.entries j ∙ ap (λ m. change_all remains.cs m j) (sym same)));
    }

-- The store is what the log's writes make of it, whether the log has been emptied or not.
IsCommitted-IsRecoverable :
    (now : ℕ) {n : Node} (r : IsRecoverable n) (out : Files × Store × Option CreateError)
    → IsCommitted now r.durable.wal n.store out
    → IsRecoverable (record { files = out.0; store = out.1 })
IsCommitted-IsRecoverable now {n} r out c =
    let d = r.durable in
    remaining-IsRecoverable now d.wal n.store out c d.valid (store-IsLasting r) (elim c.emptied [
      | inl empty ↦ record { cs = []; written = empty; logged = tt; entries = λ j. refl }
      | inr kept ↦ record {
        cs = r.cs;
        written = rw kept.0 d.written;
        logged = d.logged;
        entries = λ j.
            d.entries j
            ∙ sym (change_all-twice r.cs (entry_of r.base) j)
            ∙ ap (λ m. change_all r.cs m j) (sym (fun_ext d.entries));
      }
    ])

IsKept-IsRecoverable :
    {n : Node} (r : IsRecoverable n) (out : Files × Store × Option CreateError)
    → IsKept n.files n.store out
    → IsRecoverable (record { files = out.0; store = out.1 })
IsKept-IsRecoverable {n} r out k = record {
  base = r.base;
  found = r.found;
  loads = rw k.same_snapshot r.loads;
  sound = r.sound;
  base_valid = r.base_valid;
  unlinked = r.unlinked;
  lasts = r.lasts;
  cs = r.cs;
  durable = rw k.same_store r.durable;
}

create_snapshot-IsRecoverable :
    (vol : Volume) (now : ℕ) {n : Node}
    → IsRecoverable n
    → IsRecoverable (record {
      files = (create_snapshot vol now n.files n.store).0;
      store = (create_snapshot vol now n.files n.store).1;
    })
create_snapshot-IsRecoverable vol now {n} r =
    let out = create_snapshot vol now n.files n.store in
    elim (create_snapshot_outcome vol now n.files n.store r.durable.wal r.durable.linked) [
      | inl kept ↦ IsKept-IsRecoverable r out kept
      | inr committed ↦ IsCommitted-IsRecoverable now r out committed
    ]

-- Another store on the same snapshot.
pub same_files :
    {n : Node} (r : IsRecoverable n) (s : Store) (cs : List Mutation)
    → IsDurable (entry_of r.base) s cs
    → IsRecoverable (record n { store = s })
same_files {n} r s cs d = record {
  base = r.base;
  found = r.found;
  loads = r.loads;
  sound = r.sound;
  base_valid = r.base_valid;
  unlinked = r.unlinked;
  lasts = r.lasts;
  cs = cs;
  durable = d;
}

IsRestarted-IsRecoverable :
    {n : Node} (r : IsRecoverable n) (w : Wal) {out : Started}
    → n.store.wal ≡ some w
    → (t : IsRestarted n.store w out) → IsRecoverable (record n { store = t.store })
IsRestarted-IsRecoverable {n} r w linked t =
    let d = r.durable in
    let same : d.wal ≡ w = cc (sym d.linked ∙ linked) in
    same_files r t.store r.cs (record {
      wal = t.log;
      linked = t.linked;
      written = t.same_log ∙ ap (λ x. x.bytes) (sym same) ∙ d.written;
      logged = d.logged;
      valid = t.valid;
      entries = λ j. t.entries j ∙ d.entries j;
    })

-- Whatever happens to a node, its files hold its data: the snapshot, if there is one, loads, and the
-- log holds writes that lead from what it loads to what the store holds.
pub History-IsRecoverable : {path : String} {n : Node} → History path n → IsRecoverable n
History-IsRecoverable {path} start = first_node-IsRecoverable path
History-IsRecoverable (wrote before now key value ttl version forever logs m eq) =
    let r = History-IsRecoverable before in
    rw eq (same_files r _ _ (set-IsDurable r.durable now key value ttl version forever logs))
History-IsRecoverable (erased before now key version logs m eq) =
    let r = History-IsRecoverable before in
    rw eq (same_files r _ _ (delete_key-IsDurable r.durable now key version logs))
History-IsRecoverable (compacted before vol now m eq) =
    rw eq (create_snapshot-IsRecoverable vol now (History-IsRecoverable before))
History-IsRecoverable (restarted {n} before clock w linked s runs m eq) =
    let r = History-IsRecoverable before in
    let t = start_again-IsRecoverable clock n w r linked in
    let same : t.store ≡ s = cc (sym t.runs ∙ runs) in
    rw (eq, ← same) (IsRestarted-IsRecoverable r w linked t)

-- At any point of a history of Sets without an expiry and Deletes that the log takes, of snapshots
-- on a disk that may fail at any step, and of restarts, a restart on a disk that reads well comes up
-- without an error, whatever the clock reads: its store is well formed, has exactly the entries,
-- values and versions, of the running store, and its log has the bytes that were there.
pub start_again-History :
    {path : String} {n : Node} (clock : ℕ → Reading) (w : Wal)
    → History path n
    → n.store.wal ≡ some w
    → IsRestarted n.store w (start_again clock w n.files)
start_again-History {path} {n} clock w h linked =
    start_again-IsRecoverable clock n w (History-IsRecoverable h) linked
