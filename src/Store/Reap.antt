-- ===== src/Store/Reap.antt =====
-- reap of internal/store/store.go, which removes the expired keys of every shard.
pub mod Laws
use high_performance_kv_stor.Prelude.{ℕ, List, [], ◌∷◌, if◌then◌else◌}
use high_performance_kv_stor.Prelude.Int.{ℤ, pos, ◌-ℤ◌}
use high_performance_kv_stor.Store.Entry.{passed}
use high_performance_kv_stor.Store.State.{Shard, Store}

-- The loop over the map of a shard, and the count of keys that it counts down.
unfoldable pub reap_shard : ℕ → Shard → ℤ → Shard × ℤ
reap_shard now [] n = ([], n)
reap_shard now ((k, e) ∷ sh) n =
    let old = passed now e.expires_at in
    let (rest, left) = reap_shard now sh (if old then n -ℤ pos 1 else n) in
    (if old then rest else (k, e) ∷ rest, left)

unfoldable pub reap_shards : ℕ → List Shard → ℤ → List Shard × ℤ
unfolding reap_shard
reap_shards now [] n = ([], n)
reap_shards now (sh ∷ shards) n =
    let (kept, m) = reap_shard now sh n in
    let (rest, left) = reap_shards now shards m in (kept ∷ rest, left)

-- The clock is read once, before the first shard.
unfoldable pub reap : ℕ → Store → Store
unfolding reap_shards
reap now s =
    let (shards, left) = reap_shards now s.shards s.key_count in
    record s { shards = shards; key_count = left }
