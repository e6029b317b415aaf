-- ===== src/Store/Start.antt =====
-- The start of cmd/server/main.go, steps 2 to 5: the snapshot, then the log on top of it, and NewWAL
-- of internal/store/wal.go, which opens the log.
pub mod History
pub mod Twice
pub mod Restored
pub mod Recoverable
pub mod Lost
pub mod Shutdown
pub mod Total
pub mod Lives
use high_performance_kv_stor.Prelude.{ℕ, Option, none, some, length, String, Bytes}
use high_performance_kv_stor.Store.Wal.{Wal, WalError}
use high_performance_kv_stor.Store.Wal.Read.{Replayed, done, stopped, starved, Reads}
use high_performance_kv_stor.Store.State.{Store, new_store, set_wal}
use high_performance_kv_stor.Store.Recovery.{Reading, replay_log}
use high_performance_kv_stor.Store.Snapshot.{
  SnapshotFile, missing, opened, Load, LoadError, absent, loaded, load_failed, load_snapshot,
}

-- What opening the log file gives: an error of os.OpenFile or of Stat, or the bytes that are there.
pub data LogFile : Type 0 where
  unopenable no_stat : LogFile
  contents : Bytes → LogFile

unfoldable pub new_wal : String → LogFile → Option Wal
new_wal path unopenable = none
new_wal path no_stat = none
new_wal path (contents bytes) = some (record { path = path; bytes = bytes; size = length bytes })

-- Each `log.Fatalf` of the start. The last stands for fuel that ran out, which the program has not.
pub data StartError : Type 0 where
  snapshot_unloaded : LoadError → StartError
  log_unopened : StartError
  log_unreplayed : WalError → StartError
  no_fuel : StartError

pub data Started : Type 0 where
  fatal : StartError → Started
  running : Store → Started

unfoldable pub link_log : Wal → Replayed (ℕ × Store) → Started
link_log w (done (n, s)) = running (set_wal w s)
link_log w (stopped s error) = fatal (log_unreplayed error)
link_log w starved = fatal no_fuel

unfoldable pub replay_onto : (ℕ → Reading) → Reads → Option Wal → Store → Started
unfolding link_log
replay_onto clock reads none s = fatal log_unopened
replay_onto clock reads (some w) s = link_log w (replay_log clock reads w s)

unfoldable pub after_load : (ℕ → Reading) → Reads → Option Wal → Store × Load → Started
unfolding replay_onto
after_load clock reads log (s, load_failed error) = fatal (snapshot_unloaded error)
after_load clock reads log (s, absent) = replay_onto clock reads log s
after_load clock reads log (s, loaded) = replay_onto clock reads log s

unfoldable pub start_up : (ℕ → Reading) → Reads → String → SnapshotFile → LogFile → Started
unfolding after_load new_wal
start_up clock reads path snapshot log =
    after_load clock reads (new_wal path log) (load_snapshot snapshot (new_store none))
