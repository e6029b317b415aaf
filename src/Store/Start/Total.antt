-- ===== src/Store/Start/Total.antt =====
-- The start of cmd/server/main.go on files of any content.
use high_performance_kv_stor.Prelude.{ℕ, ◌≡◌, ◌≢◌, refl, Option, none, some, String}
use high_performance_kv_stor.Store.Wal.{Wal}
use high_performance_kv_stor.Store.Wal.Read.{Replayed, Reads}
use high_performance_kv_stor.Store.Wal.Read.Kept.{IsReplayed, complete, broken_off}
use high_performance_kv_stor.Store.State.{Store, new_store, set_wal}
use high_performance_kv_stor.Store.State.Shards.{IsValid}
use high_performance_kv_stor.Store.State.Invariant.{new_store-IsValid, same_map-IsValid}
use high_performance_kv_stor.Store.Recovery.{Reading, replay_log}
use high_performance_kv_stor.Store.Recovery.Kept.{replay_log-IsReplayed}
use high_performance_kv_stor.Store.Snapshot.{
  SnapshotFile, missing, unreadable, opened, Load, absent, loaded, load_failed, unopened,
  out_of_fuel, load_snapshot,
}
use high_performance_kv_stor.Store.Snapshot.Ends.{IsEnded, filled, refused, load_snapshot-IsEnded}
use high_performance_kv_stor.Store.Start.{
  LogFile, new_wal, StartError, snapshot_unloaded, log_unopened, log_unreplayed, no_fuel, Started,
  fatal, running, link_log, replay_onto, after_load, start_up,
}

-- How a start may end: with a well-formed store that has a log, or with an error that is not that
-- of a fuel.
pub data IsStarted (out : Started) : Type 0 where
  up : (s : Store) (w : Wal) → out ≡ running s → IsValid s → s.wal ≡ some w → IsStarted out
  down :
      (e : StartError)
      → out ≡ fatal e
      → e ≢ no_fuel
      → e ≢ snapshot_unloaded out_of_fuel
      → IsStarted out

link_log-IsStarted :
    (w : Wal) (out : Replayed (ℕ × Store))
    → IsReplayed (λ at. IsValid at.1) out
    → IsStarted (link_log w out)
unfolding link_log
link_log-IsStarted w out (complete (n, s) e v) =
    rw e (up (set_wal w s) w refl (same_map-IsValid v refl refl) refl)
link_log-IsStarted w out (broken_off (n, s) error e) =
    rw e (down (log_unreplayed error) refl (λ x. cc x) (λ x. cc x))

replay_onto-IsStarted :
    (clock : ℕ → Reading) (reads : Reads) (log : Option Wal) (s : Store)
    → IsValid s
    → IsStarted (replay_onto clock reads log s)
unfolding replay_onto
replay_onto-IsStarted clock reads none s v = down log_unopened refl (λ e. cc e) (λ e. cc e)
replay_onto-IsStarted clock reads (some w) s v =
    link_log-IsStarted w (replay_log clock reads w s) (replay_log-IsReplayed clock reads w s v)

after_load-IsStarted :
    (clock : ℕ → Reading) (reads : Reads) (log : Option Wal) (out : Store × Load)
    → IsEnded out
    → IsStarted (after_load clock reads log out)
unfolding after_load
after_load-IsStarted clock reads log (s, absent) (filled same v) = absurd (cc same)
after_load-IsStarted clock reads log (s, loaded) (filled same v) =
    replay_onto-IsStarted clock reads log s v
after_load-IsStarted clock reads log (s, load_failed e) (filled same v) = absurd (cc same)
after_load-IsStarted clock reads log (s, absent) (refused e same real) = absurd (cc same)
after_load-IsStarted clock reads log (s, loaded) (refused e same real) = absurd (cc same)
after_load-IsStarted clock reads log (s, load_failed f) (refused e same real) =
    down (snapshot_unloaded f) refl (λ x. cc x) (λ x. real (cc (same, x)))

-- Whatever snapshot.bin and the log hold, and whichever opens and reads of them fail, the start ends:
-- with a well-formed store that is linked to a log, or with an error, and no fuel runs out.
pub start_up-IsStarted :
    (clock : ℕ → Reading) (reads : Reads) (path : String) (snapshot : SnapshotFile) (log : LogFile)
    → IsStarted (start_up clock reads path snapshot log)
unfolding start_up after_load load_snapshot
start_up-IsStarted clock reads path missing log =
    replay_onto-IsStarted clock reads (new_wal path log) (new_store none) (new_store-IsValid none)
start_up-IsStarted clock reads path unreadable log =
    down (snapshot_unloaded unopened) refl (λ e. cc e) (λ e. cc e)
start_up-IsStarted clock reads path (opened broken bytes) log =
    after_load-IsStarted clock reads (new_wal path log) _ (load_snapshot-IsEnded broken bytes)
