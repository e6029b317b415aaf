-- ===== src/Store/Threads/Sets/Settled.antt =====
-- Sets of internal/store/store.go that have run at the same time, and a restart (cmd/server/main.go).
use mathlib.Core.List.{Permᴰ}
use mathlib.Core.Path.{subst, fun_ext}
use high_performance_kv_stor.Prelude.{
  ℕ, ◌≡◌, sym, ◌∙◌, ap, true, List, ◌++◌, map, All, some, append-nil, String,
}
use high_performance_kv_stor.Store.Wal.{Wal}
use high_performance_kv_stor.Store.State.{Store}
use high_performance_kv_stor.Store.State.Shards.{IsValid}
use high_performance_kv_stor.Store.State.Converge.{store_all-permᴰ}
use high_performance_kv_stor.Store.Recovery.{Reading}
use high_performance_kv_stor.Store.Recovery.Durable.{Mutation, Map, change_all}
use high_performance_kv_stor.Store.Recovery.Session.{IsDurable}
use high_performance_kv_stor.Store.Start.History.{Node, History, start_again}
use high_performance_kv_stor.Store.Start.Restored.{IsRestarted, start_again-IsRecoverable}
use high_performance_kv_stor.Store.Start.Recoverable.{History-IsRecoverable, same_files}
use high_performance_kv_stor.Store.Threads.{Point, System, Run}
use high_performance_kv_stor.Store.Threads.Writes.{
  is_returned, drawn-returned, pending-returned, All-perm,
}
use high_performance_kv_stor.Store.Threads.Sound.{Run-IsValid}
use high_performance_kv_stor.Store.Threads.Sets.{
  mutation_of, IsGood, IsClientSet, perm-HasOwnVersions, change_all-append, entry_of-store_all,
  All-logged, IsConsistent,
}
use high_performance_kv_stor.Store.Threads.Sets.Reached.{Run-IsConsistent}

-- Once no Set is under way, the log holds the writes that lead to the map.
IsConsistent-IsDurable :
    {m : Map} {s₀ s : Store} {cs : List Mutation} {points : List Point}
    → IsDurable m s₀ cs
    → IsValid s
    → (c : IsConsistent s₀ cs s points) → All (λ p. is_returned p ≡ true) points
    → IsDurable m s (cs ++ map mutation_of c.logged)
IsConsistent-IsDurable {m} {s₀} {s} {cs} {points} d v c done =
    let drawn : Permᴰ c.all c.logged =
      subst (λ l. Permᴰ c.all (l ++ c.logged)) (drawn-returned points done) c.drawn in
    let applied : Permᴰ c.logged c.applied =
      subst (λ l. Permᴰ c.logged l) (append-nil c.applied)
        (subst (λ l. Permᴰ c.logged (c.applied ++ l)) (pending-returned points done) c.pending) in
    let good = All-perm IsGood drawn c.good in
    record {
      wal = c.log;
      linked = c.linked;
      written = c.written;
      logged = All-logged cs c.logged d.logged good;
      valid = v;
      entries = λ j.
          c.entries j
          ∙ sym (store_all-permᴰ applied s₀ j d.valid (perm-HasOwnVersions c.descending drawn))
          ∙ ap (λ f. f j) (entry_of-store_all c.logged d.valid good)
          ∙ ap (λ f. change_all (map mutation_of c.logged) f j) (fun_ext d.entries)
          ∙ ap (λ f. f j) (sym (change_all-append cs (map mutation_of c.logged) m));
    }

-- After any history of a node, let any number of clients' Sets without an expiry, whose records fit
-- the log's format, run at the same time, their sections in any order, on a healthy disk and before
-- the version counter is exhausted. Once all have returned, a restart on a disk that reads well
-- comes up with exactly the entries of the running store, although the log has them in the order of
-- their appends and the store took them in another.
pub start_again-Run :
    {path : String} {n : Node} {t : System} (clock : ℕ → Reading) (w : Wal)
    → History path n
    → Run IsClientSet (record { files = n.files; store = n.store }) t
    → All (λ p. is_returned p ≡ true) t.points
    → t.shared.store.wal ≡ some w
    → IsRestarted t.shared.store w (start_again clock w t.shared.files)
start_again-Run {n = n} {t = t} clock w history run done linked =
    let r = History-IsRecoverable history in
    let (c, files) = Run-IsConsistent run r.durable in
    let d = IsConsistent-IsDurable r.durable (Run-IsValid run r.durable.valid) c done in
    rw files (
      start_again-IsRecoverable clock (record n { store = t.shared.store }) w
        (same_files r t.shared.store _ d) linked)
