-- ===== src/Store/Threads/Fitting/Reached.antt =====
-- The states that goroutines reach on a store that fits the record format (internal/store/store.go).
use mathlib.Core.Path.{subst}
use high_performance_kv_stor.Prelude.{
  ℕ, ◌≡◌, List, [], ◌∷◌, ◌++◌, All, Option, none, some, arith, ltb, Bool-cases, inl, inr, Bytes,
  bytes_eq, true,
}
use high_performance_kv_stor.Prelude.Table.{lookup}
use high_performance_kv_stor.Store.Entry.{Entry, is_expired}
use high_performance_kv_stor.Store.Wal.{WalError}
use high_performance_kv_stor.Store.Wal.Read.RoundTrip.{IsEncodable}
use high_performance_kv_stor.Store.State.{Store, get_shard, set_record, delete_record, shard_count}
use high_performance_kv_stor.Store.State.Shards.{IsValid}
use high_performance_kv_stor.Store.State.Effects.{shards-choose_version}
use high_performance_kv_stor.Store.Recovery.Linked.{wal-choose_version}
use high_performance_kv_stor.Store.Snapshot.{Files}
use high_performance_kv_stor.Store.Threads.{
  Point, set_called, set_logging, set_storing, set_returned, delete_called, delete_logging,
  delete_removing, delete_returned, get_called, get_reaping, get_returned, reap_called, reaping,
  reap_returned, snapshot_called, snapshot_returned, Machine, Shared, set_logged, delete_logged,
  advance, System, Run, start, calls, goes, is_call, get_looked,
}
use high_performance_kv_stor.Store.Threads.Sound.{Run-IsValid}
use high_performance_kv_stor.Store.Threads.Fitting.{
  IsFitting, Carries, IsKept, same_map-IsKept, store_entry-IsKept, remove_entry-IsKept,
  reap_key-IsKept, reap_at-IsKept, log_record-IsKept, create_snapshot-IsKept,
}

-- The store and the point of a goroutine after a step.
abbrev IsKeptBy : Shared × Point → Type 0
IsKeptBy (sh, p) = IsKept sh.store × Carries p

set_logged-IsKept :
    (key : Bytes) (e : Entry) (files : Files) (out : Store × Option WalError)
    → IsKept out.0
    → IsEncodable (set_record key e)
    → IsKeptBy (set_logged key e files out)
set_logged-IsKept key e files (s, none) k fits = (k, fits)
set_logged-IsKept key e files (s, some failure) k fits = (k, tt)

delete_logged-IsKept :
    (key : Bytes) (version : ℕ) (files : Files) (out : Store × Option WalError)
    → IsKept out.0
    → IsKeptBy (delete_logged key version files out)
delete_logged-IsKept key version files (s, none) k = (k, tt)
delete_logged-IsKept key version files (s, some failure) k = (k, tt)

get_looked-Carries : (now : ℕ) (key : Bytes) (o : Option Entry) → Carries (get_looked now key o)
unfolding get_looked
get_looked-Carries now key none = tt
get_looked-Carries now key (some e) = elim (Bool-cases (is_expired now e)) [
  | inl old ↦ rw old tt
  | inr live ↦ rw live tt
]

advance-IsKept :
    (m : Machine) (p : Point) (sh : Shared)
    → IsValid sh.store
    → IsKept sh.store
    → Carries p
    → IsFitting m p sh.store
    → IsKeptBy (advance m p sh)
unfolding advance
advance-IsKept m (set_called key value ttl version) sh v k c ok = (
  same_map-IsKept (shards-choose_version m.now.for_version version sh.store)
      (wal-choose_version m.now.for_version version sh.store) k,
  ok,
)
advance-IsKept m (set_logging key e) sh v k c ok =
    set_logged-IsKept key e sh.files _ (log_record-IsKept m.disk (set_record key e) k) c
advance-IsKept m (set_storing key e) sh v k c ok = (store_entry-IsKept v k key e c, tt)
advance-IsKept m (delete_called key version) sh v k c ok = (
  same_map-IsKept (shards-choose_version m.now.for_version version sh.store)
      (wal-choose_version m.now.for_version version sh.store) k,
  tt,
)
advance-IsKept m (delete_logging key version) sh v k c ok =
    delete_logged-IsKept key version sh.files _
      (log_record-IsKept m.disk (delete_record key version) k)
advance-IsKept m (delete_removing key version) sh v k c ok =
    (remove_entry-IsKept v k key version, tt)
advance-IsKept m (get_called key) sh v k c ok =
    (k, get_looked-Carries m.now.for_version key (lookup key (get_shard sh.store key)))
advance-IsKept m (get_reaping key) sh v k c ok = (reap_key-IsKept v k key m.now.for_version, tt)
advance-IsKept m reap_called sh v k c ok = (k, tt)
advance-IsKept m (reaping now i) sh v k c ok = elim (Bool-cases (ltb i shard_count)) [
  | inl more ↦ rw more (reap_at-IsKept v k now i (ground arith), tt)
  | inr done ↦ rw done (k, tt)
]
advance-IsKept m snapshot_called sh v k c ok =
    (create_snapshot-IsKept m.volume m.now.for_version sh.files k, tt)
advance-IsKept m (set_returned result) sh v k c ok = (k, tt)
advance-IsKept m (delete_returned result) sh v k c ok = (k, tt)
advance-IsKept m (get_returned result) sh v k c ok = (k, tt)
advance-IsKept m reap_returned sh v k c ok = (k, tt)
advance-IsKept m (snapshot_returned error) sh v k c ok = (k, tt)

call-Carries : (p : Point) → is_call p ≡ true → Carries p
call-Carries (set_called key value ttl version) h = tt
call-Carries (set_logging key e) h = absurd (cc h)
call-Carries (set_storing key e) h = absurd (cc h)
call-Carries p h = tt

All-at : (ps qs : List Point) (p : Point) → All Carries (ps ++ p ∷ qs) → Carries p
All-at [] qs p h = h.0
All-at (q ∷ ps) qs p h = All-at ps qs p h.1

All-put :
    (ps qs : List Point) (p q : Point)
    → All Carries (ps ++ p ∷ qs)
    → Carries q
    → All Carries (ps ++ q ∷ qs)
All-put [] qs p q h c = (c, h.1)
All-put (r ∷ ps) qs p q h c = (h.0, All-put ps qs p q h.1 c)

-- In every state that goroutines reach whose Sets offer records that fit, every entry of the store
-- fits, and the store has a log.
pub Run-IsKept :
    {shared : Shared} {t : System}
    → Run IsFitting shared t
    → IsValid shared.store
    → IsKept shared.store
    → IsKept t.shared.store × All Carries t.points
Run-IsKept (start t eq) v k = rw eq (k, tt)
Run-IsKept (calls before p begins t eq) v k =
    let (kept, carried) = Run-IsKept before v k in rw eq (kept, (call-Carries p begins, carried))
Run-IsKept (goes {s} before m ps qs p here ok t eq) v k =
    let (kept, carried) = Run-IsKept before v k in
    let all = subst (All Carries) here carried in
    let (after, carries) =
      advance-IsKept m p s.shared (Run-IsValid before v) kept (All-at ps qs p all) ok in
    rw eq (after, All-put ps qs p _ all carries)
