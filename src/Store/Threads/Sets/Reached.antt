-- ===== src/Store/Threads/Sets/Reached.antt =====
-- The states that Sets of several goroutines reach (internal/store/store.go): log, map and writes under
-- way are in step in each of them.
use mathlib.Core.List.{Permᴰ}
use mathlib.Core.Path.{subst}
use high_performance_kv_stor.Prelude.{
  ◌≡◌, refl, ◌∙◌, List, [], ◌∷◌, ◌++◌, Option, some, none, append-nil, Bytes, bytes_eq,
}
use high_performance_kv_stor.Store.Entry.{Entry}
use high_performance_kv_stor.Store.Snapshot.{Files}
use high_performance_kv_stor.Store.Wal.{WalError}
use high_performance_kv_stor.Store.State.{Store, set_record, log_record}
use high_performance_kv_stor.Store.State.Shards.{IsValid}
use high_performance_kv_stor.Store.Recovery.Durable.{Mutation, Map}
use high_performance_kv_stor.Store.Recovery.Linked.{log_record-linked}
use high_performance_kv_stor.Store.Recovery.Session.{IsDurable}
use high_performance_kv_stor.Store.Threads.{
  Point, set_called, set_logging, set_storing, Machine, Shared, set_logged, advance, System, Run,
  start, calls, goes,
}
use high_performance_kv_stor.Store.Threads.Writes.{drawn_of-call, pending_of-call}
use high_performance_kv_stor.Store.Threads.Sound.{Run-IsValid}
use high_performance_kv_stor.Store.Threads.Sets.{IsClientSet, IsConsistent}
use high_performance_kv_stor.Store.Threads.Sets.Consistent.{
  draws-IsConsistent, logging-IsGood, logs-IsConsistent, stores-IsConsistent,
}

files-set_logged :
    (key : Bytes) (e : Entry) (files : Files) (out : Store × Option WalError)
    → (set_logged key e files out).0.files ≡ files
files-set_logged key e files (s, none) = refl
files-set_logged key e files (s, some failure) = refl

advance-IsConsistent :
    {s₀ : Store} {cs : List Mutation} (m : Machine) (ps qs : List Point) (p : Point) (sh : Shared)
    → IsValid s₀
    → IsValid sh.store
    → IsConsistent s₀ cs sh.store (ps ++ p ∷ qs)
    → IsClientSet m p sh.store
    → IsConsistent s₀ cs (advance m p sh).0.store (ps ++ (advance m p sh).1 ∷ qs)
unfolding advance
advance-IsConsistent m ps qs (set_called key value ttl version) sh v₀ v c ok =
    draws-IsConsistent ps qs m key value ttl version c ok
advance-IsConsistent m ps qs (set_logging key e) sh v₀ v c ok =
    let fits = (logging-IsGood ps qs key e c).logs.encodable.key_fits in
    rw (ok, log_record-linked (set_record key e) sh.store c.log c.linked fits)
      (logs-IsConsistent ps qs key e c)
advance-IsConsistent m ps qs (set_storing key e) sh v₀ v c ok =
    stores-IsConsistent ps qs key e _ v₀ v c
advance-IsConsistent m ps qs p sh v₀ v c ok = absurd ok

files-advance :
    (m : Machine) (p : Point) (sh : Shared)
    → IsClientSet m p sh.store
    → (advance m p sh).0.files ≡ sh.files
unfolding advance
files-advance m (set_called key value ttl version) sh ok = refl
files-advance m (set_logging key e) sh ok =
    files-set_logged key e sh.files (log_record m.disk (set_record key e) sh.store)
files-advance m (set_storing key e) sh ok = refl
files-advance m p sh ok = absurd ok

-- In every state that Sets on a durable store reach, they are consistent, and no file but the log has
-- changed.
pub Run-IsConsistent :
    {m : Map} {cs : List Mutation} {shared : Shared} {t : System}
    → Run IsClientSet shared t
    → IsDurable m shared.store cs
    → IsConsistent shared.store cs t.shared.store t.points × (t.shared.files ≡ shared.files)
Run-IsConsistent {cs = cs} (start t eq) d = rw eq (
  record {
    all = [];
    logged = [];
    applied = [];
    descending = tt;
    good = tt;
    bounded = tt;
    drawn = Permᴰ.nil;
    pending = Permᴰ.nil;
    log = d.wal;
    linked = d.linked;
    written = rw (append-nil cs) d.written;
    entries = λ j. refl;
  },
  refl,
)
Run-IsConsistent (calls {s} before p begins t eq) d =
    let (c, files) = Run-IsConsistent before d in
    rw eq (
      record {
        all = c.all;
        logged = c.logged;
        applied = c.applied;
        descending = c.descending;
        good = c.good;
        bounded = c.bounded;
        drawn = rw (drawn_of-call p begins) c.drawn;
        pending = rw (pending_of-call p begins) c.pending;
        log = c.log;
        linked = c.linked;
        written = c.written;
        entries = c.entries;
      },
      files,
    )
Run-IsConsistent {cs = cs} {shared = shared} (goes {s} before m ps qs p here ok t eq) d =
    let (c, files) = Run-IsConsistent before d in
    rw eq (
      advance-IsConsistent m ps qs p s.shared d.valid (Run-IsValid before d.valid)
          (subst (IsConsistent shared.store cs s.shared.store) here c) ok,
      files-advance m p s.shared ok ∙ files,
    )
