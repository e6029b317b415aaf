-- ===== src/Store/Start/Shutdown.antt =====
-- Step 11 of cmd/server/main.go, the end of a node, with Close of internal/store/store.go and of
-- internal/store/wal.go.
use high_performance_kv_stor.Prelude.{ℕ, Bool, List, [], ◌∷◌, Option, none, some, if◌then◌else◌}
use high_performance_kv_stor.Store.State.{Store}
use high_performance_kv_stor.Store.Reap.{reap}
use high_performance_kv_stor.Store.Snapshot.{Volume, CreateError, create_snapshot}
use high_performance_kv_stor.Store.Start.History.{Node}

-- What the select of the reaper's loop takes: its ticker, at a time, or the closed channel.
pub data Selected : Type 0 where
  ticked : ℕ → Selected
  stopping : Selected

-- The goroutine of StartReaper.
unfoldable pub reaper_loop : List Selected → Store → Store
reaper_loop [] s = s
reaper_loop (ticked now ∷ events) s = reaper_loop events (reap now s)
reaper_loop (stopping ∷ events) s = s

pub data CloseError : Type 0 where
  log_unclosed : CloseError

-- Whether the log's file closes is an argument.
unfoldable pub close_wal : Bool → Option CloseError
close_wal closes = if closes then none else some log_unclosed

-- Close waits for the reaper, which may still take a tick, and closes the log.
unfoldable pub close_store : Bool → List Selected → Store → Store × Option CloseError
unfolding reaper_loop close_wal
close_store closes events s =
    (reaper_loop events s, elim s.wal [ none ↦ none | some w ↦ close_wal closes ])

-- The final snapshot and Close, whose errors are only written to the program's own log.
unfoldable pub shut_down :
    Volume → ℕ → Bool → List Selected → Node → Node × (Option CreateError × Option CloseError)
unfolding close_store
shut_down vol now closes events n =
    let (files, s, unsaved) = create_snapshot vol now n.files n.store in
    let (closed, unclosed) = close_store closes events s in
    (record { files = files; store = closed }, (unsaved, unclosed))
