-- ===== src/Examples/Threads.antt =====
-- Runs of the theorems on goroutines that use a store at the same time.
use high_performance_kv_stor.Prelude.{
  ◌≡◌, refl, List, [], ◌∷◌, ◌++◌, none, some, arith, true, bytes_eq, bytes_beq,
}
use high_performance_kv_stor.Prelude.Int.{pos}
use high_performance_kv_stor.Prelude.Table.{lookup, insert}
use high_performance_kv_stor.Store.Entry.{Entry, zero_time, instant, passed}
use high_performance_kv_stor.Store.Hash.{fnv32a}
use high_performance_kv_stor.Store.Wal.{Wal, healthy, append, write_sync}
use high_performance_kv_stor.Store.State.{
  shard_index, get_shard, set_shard, entry_of, choose_version, next_version, expiry, log_record,
  store_entry, set, set_record, ok,
}
use high_performance_kv_stor.Store.State.Writes.{survivor}
use high_performance_kv_stor.Store.State.Shards.{IsValid}
use high_performance_kv_stor.Store.Reap.{reap}
use high_performance_kv_stor.Store.Snapshot.{
  create_snapshot, truncate_log, commit, write_snapshot, write_shards, write_shard, write_file,
}
use high_performance_kv_stor.Store.Start.History.{Node, first_node, start_again}
use high_performance_kv_stor.Store.Start.Restored.{IsRestarted}
use high_performance_kv_stor.Store.Start.Recoverable.{History-IsRecoverable}
use high_performance_kv_stor.Store.Start.Shutdown.{
  ticked, stopping, shut_down, close_store, reaper_loop,
}
use high_performance_kv_stor.Store.Start.Lives.{start as born, ran, IsPreserved, shut_down-Life}
use high_performance_kv_stor.Store.Threads.{
  Point, set_called, set_logging, set_storing, set_returned, delete_called, Machine, Shared, System,
  advance, race, Run, start, calls, goes,
}
use high_performance_kv_stor.Store.Threads.Sound.{Run-IsValid}
use high_performance_kv_stor.Store.Threads.Fitting.{IsFitting}
use high_performance_kv_stor.Store.Threads.Sets.{IsClientSet}
use high_performance_kv_stor.Store.Threads.Sets.Settled.{start_again-Run}
use high_performance_kv_stor.Store.Threads.Undone.{turns, set_over, drawn, after_draw}
use high_performance_kv_stor.Store.Threads.Undone.Restarted.{IsUndone, delete-IsUndone}
use high_performance_kv_stor.Examples.Data.{key_a, key_b, noon}
use high_performance_kv_stor.Examples.Restarts.{evening, one_put, one_put_wal}
use high_performance_kv_stor.Examples.Snapshots.{
  good_volume, good_volume-IsSound, one_node, one_node-History, key_b-absent,
}

abbrev at_noon : Machine
at_noon = record { disk = healthy; volume = good_volume; now = noon }

abbrev after_noon : Machine
after_noon = record at_noon { now = record { for_expiry = 1002; for_version = 1003 } }

abbrev shared_of : Node → Shared
shared_of n = record { files = n.files; store = n.store }

-- A call begins, and a goroutine takes a step.
abbrev begun : Point → System → System
begun p s = record s { points = p ∷ s.points }

abbrev gone : Machine → List Point → List Point → Point → System → System
gone m ps qs p s = record {
  shared = (advance m p s.shared).0;
  points = ps ++ (advance m p s.shared).1 ∷ qs;
}

abbrev fresh : Node → System
fresh n = record { shared = shared_of n; points = [] }

-- A Set of one key and a Set of another.
abbrev set_a : Point
set_a = set_called key_a (7 ∷ []) (pos 0) 0

abbrev set_b : Point
set_b = set_called key_b (8 ∷ []) (pos 0) 0

abbrev a_drawn : Entry
a_drawn = record { value = 7 ∷ []; version = 1001; expires_at = zero_time }

abbrev b_drawn : Entry
b_drawn = record { value = 8 ∷ []; version = 1003; expires_at = zero_time }

-- The first Set draws first, and the second is first in the log.
abbrev s₂ : System
s₂ = begun set_b (begun set_a (fresh one_node))

abbrev s₃ : System
s₃ = gone at_noon (set_b ∷ []) [] set_a s₂

abbrev s₄ : System
s₄ = gone after_noon [] (set_logging key_a a_drawn ∷ []) set_b s₃

abbrev s₅ : System
s₅ = gone after_noon [] (set_logging key_a a_drawn ∷ []) (set_logging key_b b_drawn) s₄

abbrev s₆ : System
s₆ = gone after_noon (set_storing key_b b_drawn ∷ []) [] (set_logging key_a a_drawn) s₅

abbrev s₇ : System
s₇ = gone after_noon (set_storing key_b b_drawn ∷ []) [] (set_storing key_a a_drawn) s₆

abbrev s₈ : System
s₈ = gone after_noon [] (set_returned (ok 1001) ∷ []) (set_storing key_b b_drawn) s₇

two_sets : Run IsClientSet (shared_of one_node) s₈
unfolding advance choose_version next_version expiry log_record append write_sync set store_entry
    get_shard set_shard lookup insert shard_index fnv32a bytes_beq
two_sets =
    goes
      (goes
        (goes
          (goes
            (goes
              (goes
                (calls (calls (start (fresh one_node) refl) set_a refl _ refl) set_b refl s₂ refl)
                at_noon (set_b ∷ []) [] set_a refl
                (refl, refl, omega arith, omega arith, omega arith, omega arith) s₃ refl)
              after_noon [] (set_logging key_a a_drawn ∷ []) set_b refl
              (refl, refl, omega arith, omega arith, omega arith, omega arith) s₄ refl)
            after_noon [] (set_logging key_a a_drawn ∷ []) (set_logging key_b b_drawn) refl refl s₅
            refl)
          after_noon (set_storing key_b b_drawn ∷ []) [] (set_logging key_a a_drawn) refl refl s₆
          refl)
        after_noon (set_storing key_b b_drawn ∷ []) [] (set_storing key_a a_drawn) refl tt s₇ refl)
      after_noon [] (set_returned (ok 1001) ∷ []) (set_storing key_b b_drawn) refl tt s₈ refl

-- The log after the two Sets.
abbrev two_sets_wal : Wal
two_sets_wal =
    (append healthy (append healthy one_put_wal (set_record key_b b_drawn)).0
      (set_record key_a a_drawn)).0

wal-s₈ : s₈.shared.store.wal ≡ some two_sets_wal
unfolding advance choose_version next_version expiry log_record append write_sync set store_entry
    get_shard set_shard lookup insert shard_index fnv32a bytes_beq
wal-s₈ = refl

start_again-Run_example :
    IsRestarted s₈.shared.store two_sets_wal (start_again evening two_sets_wal s₈.shared.files)
unfolding advance choose_version next_version expiry log_record append write_sync set store_entry
    get_shard set_shard lookup insert shard_index fnv32a bytes_beq
start_again-Run_example =
    start_again-Run evening two_sets_wal one_node-History two_sets (refl, (refl, tt)) wal-s₈

Run-IsValid_example : IsValid s₈.shared.store
Run-IsValid_example = Run-IsValid two_sets (History-IsRecoverable one_node-History).durable.valid

last-one_put : one_put.last_version ≡ 0
unfolding set choose_version expiry log_record append write_sync store_entry get_shard set_shard
    lookup insert shard_index fnv32a bytes_beq
last-one_put = refl

last-drawn : (after_draw at_noon one_put).last_version ≡ 1001
unfolding set choose_version next_version expiry log_record append write_sync store_entry get_shard
    set_shard lookup insert shard_index fnv32a bytes_beq
last-drawn = refl

key_b-free :
    survivor (entry_of one_put key_b) (drawn after_noon (after_draw at_noon one_put)) ≡ none
key_b-free = rw key_b-absent refl

delete-IsUndone_example :
    IsUndone evening key_b
      (set_over at_noon (8 ∷ []) (pos 0) one_put)
      (drawn after_noon (after_draw at_noon one_put))
      (race
        (turns at_noon after_noon after_noon)
        (shared_of one_node, set_called key_b (8 ∷ []) (pos 0) 0, delete_called key_b 0))
unfolding expiry
delete-IsUndone_example =
    delete-IsUndone evening at_noon after_noon after_noon key_b (8 ∷ []) (pos 0) one_node-History
      refl refl (omega arith) (omega arith) (omega (arith, last-one_put))
      (omega (arith, last-drawn)) (omega arith) (omega arith) key_b-free

-- A Set with an expiry on a new node.
abbrev new_node : Node
new_node = first_node "store.wal"

abbrev set_short : Point
set_short = set_called key_a (7 ∷ []) (pos 60) 0

abbrev short_drawn : Entry
short_drawn = record { value = 7 ∷ []; version = 1001; expires_at = instant 1060 }

abbrev t₁ : System
t₁ = begun set_short (fresh new_node)

abbrev t₂ : System
t₂ = gone at_noon [] [] set_short t₁

abbrev t₃ : System
t₃ = gone at_noon [] [] (set_logging key_a short_drawn) t₂

abbrev t₄ : System
t₄ = gone at_noon [] [] (set_storing key_a short_drawn) t₃

short_set : Run IsFitting (shared_of new_node) t₄
unfolding advance choose_version next_version expiry log_record append write_sync store_entry
    get_shard set_shard lookup insert shard_index fnv32a bytes_beq
short_set =
    goes
      (goes
        (goes (calls (start (fresh new_node) refl) set_short refl t₁ refl) at_noon [] [] set_short
          refl
          (record {
            key_fits = omega arith;
            payload_fits = omega arith;
            version_fits = omega arith;
            timely = omega arith;
          })
          t₂ refl)
        at_noon [] [] (set_logging key_a short_drawn) refl tt t₃ refl)
      at_noon [] [] (set_storing key_a short_drawn) refl tt t₄ refl

abbrev short_node : Node
short_node = record { files = t₄.shared.files; store = t₄.shared.store }

abbrev emptied : Wal
emptied = record { path = "store.wal"; bytes = []; size = 0 }

wal-shut_down :
    (shut_down good_volume 1030 true (ticked 1031 ∷ stopping ∷ []) short_node).0.store.wal
    ≡ some emptied
unfolding shut_down close_store reaper_loop reap create_snapshot write_snapshot commit truncate_log
    write_shards write_shard write_file advance choose_version next_version expiry log_record append
    write_sync store_entry get_shard set_shard lookup insert shard_index fnv32a bytes_beq passed
wal-shut_down = refl

shut_down-Life_example :
    ((shut_down good_volume 1030 true (ticked 1031 ∷ stopping ∷ []) short_node).1.0 ≡ none)
    × IsPreserved 1030 short_node.store (
        start_again evening emptied
          (shut_down good_volume 1030 true (ticked 1031 ∷ stopping ∷ []) short_node).0.files)
shut_down-Life_example =
    shut_down-Life good_volume 1030 true (ticked 1031 ∷ stopping ∷ []) evening emptied
      (ran (born) t₄ short_set short_node refl) good_volume-IsSound wal-shut_down
