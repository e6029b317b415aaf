-- ===== src/Store/Start/Lives.antt =====
-- The lives of a node (cmd/server/main.go): what goroutines do to its store, and graceful shutdowns, each
-- with the next start.
use high_performance_kv_stor.Prelude.{
  ℕ, Bool, List, [], ◌∷◌, ◌≡◌, refl, sym, ◌∙◌, ap, false, none, some, inr, Bytes, String, arith,
}
use high_performance_kv_stor.Store.Wal.{Wal}
use high_performance_kv_stor.Store.Wal.Read.{done, good_reads}
use high_performance_kv_stor.Store.Wal.Read.Replay.{replay-encode_all}
use high_performance_kv_stor.Store.State.{Store, entry_of, new_store}
use high_performance_kv_stor.Store.State.Shards.{IsValid}
use high_performance_kv_stor.Store.State.Invariant.{new_store-IsValid, same_map-IsValid}
use high_performance_kv_stor.Store.State.Reads.{reaped}
use high_performance_kv_stor.Store.Reap.{reap}
use high_performance_kv_stor.Store.Recovery.{Reading, callback, replay_log}
use high_performance_kv_stor.Store.Recovery.Session.{empty_wal, entry_of-new_store}
use high_performance_kv_stor.Store.Snapshot.{Files, Volume, create_snapshot, opened, load_snapshot}
use high_performance_kv_stor.Store.Snapshot.Outcome.{
  IsSound, snapshot_bytes, create_snapshot-IsSound,
}
use high_performance_kv_stor.Store.Snapshot.Restore.{reload, load_snapshot-snapshot_bytes}
use high_performance_kv_stor.Store.Start.{Started, running}
use high_performance_kv_stor.Store.Start.History.{Node, first_node, start_again, snapshot_of}
use high_performance_kv_stor.Store.Start.Restored.{start_again-runs, reopened, entry_of-set_wal}
use high_performance_kv_stor.Store.Start.Shutdown.{
  Selected, ticked, stopping, reaper_loop, close_store, shut_down,
}
use high_performance_kv_stor.Store.Threads.{System, Run}
use high_performance_kv_stor.Store.Threads.Sound.{Run-IsValid}
use high_performance_kv_stor.Store.Threads.Fitting.{IsFitting, IsKept, reaped-some}
use high_performance_kv_stor.Store.Threads.Fitting.Reached.{Run-IsKept}

-- The nodes that are reached from an empty data directory by calls of any number of goroutines, the
-- records of whose Sets fit the format, on disks that do anything, and by graceful shutdowns on a
-- disk that works, each with a start after it.
pub data Life (path : String) : Node → Type 0 where
  start : Life path (first_node path)
  ran :
      {n : Node}
      → Life path n
      → (t : System) → Run IsFitting (record { files = n.files; store = n.store }) t
      → (m : Node) → m ≡ record { files = t.shared.files; store = t.shared.store }
      → Life path m
  restarted :
      {n : Node}
      → Life path n
      → (vol : Volume) (now : ℕ) (closes : Bool) (events : List Selected) → IsSound vol
      → (clock : ℕ → Reading) (w : Wal) → (shut_down vol now closes events n).0.store.wal ≡ some w
      → (s : Store) → start_again clock w (shut_down vol now closes events n).0.files ≡ running s
      → (m : Node) → m ≡ record { files = (shut_down vol now closes events n).0.files; store = s }
      → Life path m

-- What a start brings back after a shutdown at this time: the live entries, and an empty log.
pub record IsPreserved (now : ℕ) (s : Store) (out : Started) : Type 0 where
  pub store : Store
  pub runs : out ≡ running store
  pub valid : IsValid store
  pub log : Wal
  pub linked : store.wal ≡ some log
  pub empty : log.bytes ≡ []
  pub entries : (j : Bytes) → entry_of store j ≡ reaped now (entry_of s j)

wal-reaper_loop : (events : List Selected) (s : Store) → (reaper_loop events s).wal ≡ s.wal
unfolding reaper_loop reap
wal-reaper_loop [] s = refl
wal-reaper_loop (ticked now ∷ events) s = wal-reaper_loop events (reap now s)
wal-reaper_loop (stopping ∷ events) s = refl

snapshot_of-some :
    (files : Files) {bytes : Bytes}
    → files.snapshot ≡ some bytes
    → snapshot_of files ≡ opened false bytes
snapshot_of-some files h = ground arith

module _ (vol : Volume) (now : ℕ) (closes : Bool) (events : List Selected) (sound : IsSound vol)
    (clock : ℕ → Reading) (n : Node) (w : Wal) where
  -- On a disk that works the shutdown leaves the snapshot and an empty log.
  shut_down-IsSound :
      (log : Wal)
      → n.store.wal ≡ some log
      → ((shut_down vol now closes events n).0.files.snapshot ≡ some (snapshot_bytes now n.store))
        × ((shut_down vol now closes events n).0.store.wal
            ≡ some (record log { bytes = []; size = 0 }))
        × ((shut_down vol now closes events n).1.0 ≡ none)
  unfolding shut_down close_store
  shut_down-IsSound log linked =
      let made = create_snapshot-IsSound vol now n.files n.store log linked sound in
      (
        ap (λ x. x.0.snapshot) made,
        wal-reaper_loop events (create_snapshot vol now n.files n.store).1 ∙ ap (λ x. x.1.wal) made,
        ap (λ x. x.2) made,
      )

  shut_down-IsPreserved :
      IsValid n.store
      → IsKept n.store
      → (shut_down vol now closes events n).0.store.wal ≡ some w
      → ((shut_down vol now closes events n).1.0 ≡ none)
        × IsPreserved now n.store (start_again clock w (shut_down vol now closes events n).0.files)
  shut_down-IsPreserved v k linked =
      let (saved, emptied, worked) = shut_down-IsSound k.log k.linked in
      let empty : w.bytes ≡ [] = cc (sym linked ∙ emptied) in
      let (loads, (valid, entries)) = load_snapshot-snapshot_bytes now n.store v k.storable in
      let base = reload now n.store in
      let files = (shut_down vol now closes events n).0.files in
      let replayed : replay_log clock good_reads (reopened w) base ≡ done (0, base) =
        replay-encode_all (callback clock) (reopened w) [] [] empty tt (0, base) (omega arith) in
      (
        worked,
        record {
          store = record base { wal = some (reopened w) };
          runs =
              start_again-runs clock w files
                (ap (λ x. load_snapshot x (new_store none)) (snapshot_of-some files saved) ∙ loads)
                (inr refl) replayed;
          valid = same_map-IsValid valid refl refl;
          log = reopened w;
          linked = refl;
          empty = empty;
          entries = λ j. entry_of-set_wal (reopened w) base j ∙ entries j;
        },
      )

IsPreserved-IsKept :
    {now : ℕ} {s : Store} {out : Started} → IsKept s → (p : IsPreserved now s out) → IsKept p.store
IsPreserved-IsKept {now} {s} k p = record {
  storable =
      λ j e here. k.storable j e (reaped-some now (entry_of s j) e (sym (p.entries j) ∙ here));
  log = p.log;
  linked = p.linked;
}

Life-IsKept : {path : String} {n : Node} → Life path n → IsValid n.store × IsKept n.store
Life-IsKept {path} start = (
  new_store-IsValid (some (empty_wal path)),
  record {
    storable = λ j e here. absurd (cc (here, entry_of-new_store (some (empty_wal path)) j));
    log = empty_wal path;
    linked = refl;
  },
)
Life-IsKept (ran before t run m eq) =
    let (v, k) = Life-IsKept before in rw eq (Run-IsValid run v, (Run-IsKept run v k).0)
Life-IsKept (restarted before vol now closes events sound clock w linked s runs m eq) =
    let (v, k) = Life-IsKept before in
    let p = (shut_down-IsPreserved vol now closes events sound clock _ w v k linked).1 in
    let same : p.store ≡ s = cc (sym p.runs ∙ runs) in
    rw (eq, ← same) (p.valid, IsPreserved-IsKept k p)

-- After any life of a node, with Sets whose records fit the log's format, Deletes, Gets, reaps and
-- snapshots that run at the same time, with expiries, and with logs that failed or were cut: a
-- graceful shutdown on a disk that works makes its snapshot without an error, and the next start,
-- on a disk that reads well and whatever the clock reads by then, comes up with exactly the entries
-- that had not expired at the shutdown, in a well-formed store with an empty log.
pub shut_down-Life :
    {path : String} {n : Node} (vol : Volume) (now : ℕ) (closes : Bool) (events : List Selected)
    (clock : ℕ → Reading) (w : Wal)
    → Life path n
    → IsSound vol
    → (shut_down vol now closes events n).0.store.wal ≡ some w
    → ((shut_down vol now closes events n).1.0 ≡ none)
      × IsPreserved now n.store (start_again clock w (shut_down vol now closes events n).0.files)
shut_down-Life vol now closes events clock w life sound linked =
    let (v, k) = Life-IsKept life in
    shut_down-IsPreserved vol now closes events sound clock _ w v k linked
