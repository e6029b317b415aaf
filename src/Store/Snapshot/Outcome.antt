-- ===== src/Store/Snapshot/Outcome.antt =====
-- What CreateSnapshot of internal/store/snapshot.go leaves behind, on every path.
use high_performance_kv_stor.Prelude.{
  ℕ, ◌≡◌, ◌≢◌, ◌⊎◌, refl, ap, true, [], ◌++◌, map, Option, none, some, arith, Bytes, Bool-cases,
  Option-cases, inl, inr,
}
use high_performance_kv_stor.Store.Wal.{Wal}
use high_performance_kv_stor.Store.Wal.Read.Replay.{encode_all}
use high_performance_kv_stor.Store.State.{Store}
use high_performance_kv_stor.Store.Snapshot.{
  Files, CreateError, untruncated, Volume, write_file, write_shards, snapshot_header, abandon,
  truncate_log, commit, write_snapshot, create_snapshot,
}
use high_performance_kv_stor.Store.Snapshot.Loading.{record_of_pair}
use high_performance_kv_stor.Store.Snapshot.Written.{
  all_live, write_shards-live, write_shards-works,
}

-- The file that a snapshot at this time holds.
abbrev pub snapshot_bytes : ℕ → Store → Bytes
snapshot_bytes now s = snapshot_header ++ encode_all (map record_of_pair (all_live now s.shards))

-- An error before the rename: snapshot.bin, the log and the store are as they were.
pub record IsKept (files : Files) (s : Store) (out : Files × Store × Option CreateError)
    : Type 0 where
  pub same_snapshot : out.0.snapshot ≡ files.snapshot
  pub same_store : out.1 ≡ s
  pub refused : out.2 ≢ none

-- After the rename: snapshot.bin holds the store, and the log is empty unless that failed.
pub record IsCommitted (now : ℕ) (w : Wal) (s : Store) (out : Files × Store × Option CreateError)
    : Type 0 where
  pub log : Wal
  pub snapshot : out.0.snapshot ≡ some (snapshot_bytes now s)
  pub linked : out.1 ≡ record s { wal = some log }
  pub emptied : (log.bytes ≡ []) ⊎ ((log ≡ w) × (out.2 ≡ some untruncated))
  pub sized : out.2 ≡ none → log.size ≡ 0

truncate_log-IsCommitted :
    (vol : Volume) (now : ℕ) (w : Wal) (s : Store)
    → s.wal ≡ some w
    → IsCommitted now w s
        (truncate_log vol w (record { tmp = none; snapshot = some (snapshot_bytes now s) }) s)
unfolding truncate_log
truncate_log-IsCommitted vol now w s h = elim (Bool-cases vol.truncates) [
  | inr stuck ↦ rw stuck (record {
    log = w;
    snapshot = refl;
    linked = ap (λ x. record s { wal = x }) h;
    emptied = inr (refl, refl);
    sized = λ e. cc e;
  })
  | inl done ↦ elim (Bool-cases vol.seeks) [
    | inl sought ↦
        rw (done, sought)
          (record {
            log = record w { bytes = []; size = 0 };
            snapshot = refl;
            linked = refl;
            emptied = inl refl;
            sized = λ e. refl;
          })
    | inr lost ↦
        rw (done, lost)
          (record {
            log = record w { bytes = [] };
            snapshot = refl;
            linked = refl;
            emptied = inl refl;
            sized = λ e. cc e;
          })
  ]
]

abandon-IsKept :
    (vol : Volume) (files : Files) (file : Bytes) (s : Store) (error : CreateError)
    → IsKept files s (abandon vol files file s error)
unfolding abandon
abandon-IsKept vol files file s error = record {
  same_snapshot = refl;
  same_store = refl;
  refused = λ e. cc e;
}

commit_outcome :
    (vol : Volume) (now : ℕ) (w : Wal) (files : Files) (s : Store)
    → s.wal ≡ some w
    → IsKept files s (commit vol w files (snapshot_bytes now s) s)
      ⊎ IsCommitted now w s (commit vol w files (snapshot_bytes now s) s)
unfolding commit
commit_outcome vol now w files s h = elim (Bool-cases vol.syncs) [
  | inr a ↦ rw a (inl (abandon-IsKept vol files (snapshot_bytes now s) s _))
  | inl a ↦ elim (Bool-cases vol.closes) [
    | inr b ↦ rw (a, b) (inl (abandon-IsKept vol files (snapshot_bytes now s) s _))
    | inl b ↦ elim (Bool-cases vol.renames) [
      | inr c ↦ rw (a, b, c) (inl (abandon-IsKept vol files (snapshot_bytes now s) s _))
      | inl c ↦ rw (a, b, c) (inr (truncate_log-IsCommitted vol now w s h))
    ]
  ]
]

write_snapshot_outcome :
    (vol : Volume) (now : ℕ) (files : Files) (s : Store) (w : Wal)
    → s.wal ≡ some w
    → IsKept files s (write_snapshot vol now w files s)
      ⊎ IsCommitted now w s (write_snapshot vol now w files s)
unfolding write_snapshot write_file
write_snapshot_outcome vol now files s w h =
    let start = snapshot_header in
    let records = write_shards vol.record_kept now s.shards (0, start) in
    elim (Bool-cases vol.opens) [
      | inr a ↦ rw a (inl (record { same_snapshot = refl; same_store = refl; refused = λ e. cc e }))
      | inl a ↦ elim (Option-cases vol.header_kept) [
        | inr (n, b) ↦ rw (a, b) (inl (abandon-IsKept vol files _ s _))
        | inl b ↦ elim (Bool-cases records.1) [
          | inr c ↦ rw (a, b, c) (inl (abandon-IsKept vol files _ s _))
          | inl c ↦
              rw (a, b, c, write_shards-live vol.record_kept now s.shards 0 start c)
                (commit_outcome vol now w files s h)
        ]
      ]
    ]

-- Whatever the disk does, CreateSnapshot of a store with a log either returns an error and leaves
-- snapshot.bin, the log and the store as they were, or snapshot.bin holds the header and every live
-- entry and only the log has changed: it is empty, unless the error says that it could not be
-- truncated.
pub create_snapshot_outcome :
    (vol : Volume) (now : ℕ) (files : Files) (s : Store) (w : Wal)
    → s.wal ≡ some w
    → IsKept files s (create_snapshot vol now files s)
      ⊎ IsCommitted now w s (create_snapshot vol now files s)
unfolding create_snapshot
create_snapshot_outcome vol now files s w h =
    let same : create_snapshot vol now files s ≡ write_snapshot vol now w files s = ground arith in
    rw same (write_snapshot_outcome vol now files s w h)

-- A disk on which every step of CreateSnapshot works.
pub record IsSound (vol : Volume) : Type 0 where
  pub opens : vol.opens ≡ true
  pub header_kept : vol.header_kept ≡ none
  pub record_kept : (i : ℕ) → vol.record_kept i ≡ none
  pub syncs : vol.syncs ≡ true
  pub closes : vol.closes ≡ true
  pub renames : vol.renames ≡ true
  pub truncates : vol.truncates ≡ true
  pub seeks : vol.seeks ≡ true

-- On such a disk the snapshot is made, and the log is emptied.
pub create_snapshot-IsSound :
    (vol : Volume) (now : ℕ) (files : Files) (s : Store) (w : Wal)
    → s.wal ≡ some w
    → IsSound vol
    → create_snapshot vol now files s ≡ (
      record { tmp = none; snapshot = some (snapshot_bytes now s) },
      record s { wal = some (record w { bytes = []; size = 0 }) },
      none,
    )
unfolding create_snapshot write_snapshot commit truncate_log write_file
create_snapshot-IsSound vol now files s w h ok =
    let start = snapshot_header in
    let works = write_shards-works vol.record_kept now ok.record_kept s.shards 0 start in
    rw (h, ok.opens, ok.header_kept, works, ok.syncs, ok.closes, ok.renames, ok.truncates, ok.seeks)
      (rw (write_shards-live vol.record_kept now s.shards 0 start works) refl)
