-- ===== src/Store/Recovery.antt =====
-- The start of cmd/server/main.go: the callback that replays the log into a store with no log of
-- its own.
pub mod Durable
pub mod Kept
pub mod Linked
pub mod Session
pub mod Expired
use high_performance_kv_stor.Prelude.{ℕ, suc, Bool, true, false, leb, nat_beq, if◌then◌else◌}
use high_performance_kv_stor.Prelude.Int.{ℤ, pos, sub_ℕ}
use high_performance_kv_stor.Store.Entry.{Time, zero_time, instant}
use high_performance_kv_stor.Store.Wal.{Record, Wal, healthy, record_type_set, record_type_delete}
use high_performance_kv_stor.Store.Wal.Read.{Replayed, Reads, replay}
use high_performance_kv_stor.Store.State.{Store, Times, Result, ok, err, set, delete_key}

-- `time.Until(expiresAt)`, or 0 for a record that does not expire
remaining : ℕ → Time → ℤ
remaining now zero_time = pos 0
remaining now (instant t) = sub_ℕ t now

-- `!expiresAt.IsZero()` and `ttl <= 0`
lapsed : ℕ → Time → Bool
lapsed now zero_time = false
lapsed now (instant t) = leb t now

abbrev succeeded {ℓ} : {A : Type ℓ} → Store × Result A → Store × Bool
succeeded (s, ok a) = (s, true)
succeeded (s, err e) = (s, false)

-- What the clock reads while one record is replayed: for time.Until, and inside Set or Delete.
pub record Reading : Type 0 where
  pub for_until : ℕ
  pub inside : Times

replay_set : Reading → Record → Store → Store × Bool
replay_set now r s =
    if lapsed now.for_until r.expires_at
    then (s, true)
    else succeeded
        (set healthy now.inside r.key r.value (remaining now.for_until r.expires_at) r.version s)

pub replay_record : Reading → Record → Store → Store × Bool
unfolding replay_set remaining lapsed
replay_record now r s =
    if nat_beq r.rec_type record_type_set
    then replay_set now r s
    else if nat_beq r.rec_type record_type_delete
    then succeeded (delete_key healthy now.inside.for_version r.key r.version s)
    else (s, true)

-- The callback of `wal.Replay`, with the number of records that came before: the clock reads anew
-- for each record.
abbrev pub callback : (ℕ → Reading) → Record → ℕ × Store → (ℕ × Store) × Bool
callback clock r (n, s) = let (s', applied) = replay_record (clock n) r s in ((suc n, s'), applied)

-- Steps 4 and 5 of main: replay the log, and link it.
abbrev pub replay_log : (ℕ → Reading) → Reads → Wal → Store → Replayed (ℕ × Store)
replay_log clock reads w s = replay (callback clock) reads w (0, s)
