-- ===== src/Examples/Stores.antt =====
-- Runs of the theorems on the store.
use high_performance_kv_stor.Prelude.{
  ◌≡◌, refl, true, [], ◌∷◌, none, some, arith, bytes_eq, bytes_beq, ◌==◌, if◌then◌else◌, Bytes,
}
use high_performance_kv_stor.Prelude.Int.{pos}
use high_performance_kv_stor.Prelude.Table.{lookup, insert}
use high_performance_kv_stor.Store.Hash.{fnv32a}
use high_performance_kv_stor.Store.Wal.{healthy}
use high_performance_kv_stor.Store.State.{
  shard_index, get_shard, set_shard, entry_of, next_version, choose_version, log_record,
  store_entry, remove_entry, ok, get, set, delete_key,
}
use high_performance_kv_stor.Store.State.Writes.{merge, survivor}
use high_performance_kv_stor.Store.State.Effects.{
  offered, delete_reply, delete_version, set_effect, delete_effect,
}
use high_performance_kv_stor.Store.State.Reads.{visible, visible-get}
use high_performance_kv_stor.Store.State.Versions.{draw, IsIncreasing, draw-IsIncreasing}
use high_performance_kv_stor.Store.State.Converge.{delete_forgets}
use high_performance_kv_stor.Examples.Data.{
  key_a, key_b, noon, new_entry, empty_store, old_store, old_store-IsValid,
}

set_old : (set healthy noon key_a (8 ∷ []) (pos 60) 0 old_store).1 ≡ ok 1001
unfolding set choose_version next_version log_record store_entry get_shard set_shard lookup insert
    shard_index fnv32a bytes_beq
set_old = refl

set_effect_example :
    (1001 ≡ (merge (entry_of old_store key_a) (offered noon (8 ∷ []) (pos 60) 0 old_store)).version)
    × ((j : Bytes)
        → entry_of (set healthy noon key_a (8 ∷ []) (pos 60) 0 old_store).0 j ≡ (
            if key_a == j
            then some
                (merge (entry_of old_store key_a) (offered noon (8 ∷ []) (pos 60) 0 old_store))
            else entry_of old_store j))
set_effect_example =
    set_effect healthy noon key_a (8 ∷ []) (pos 60) 0 old_store 1001 old_store-IsValid.shard_number
      set_old

delete_done : (delete_key healthy 1000 key_a 9 old_store).1 ≡ ok (9, true)
unfolding delete_key choose_version log_record remove_entry store_entry get_shard set_shard lookup
    insert shard_index fnv32a bytes_beq
delete_done = refl

delete_effect_example :
    ((9, true)
      ≡ delete_reply (entry_of old_store key_a) (delete_version healthy 1000 key_a 9 old_store))
    × ((j : Bytes)
        → entry_of (delete_key healthy 1000 key_a 9 old_store).0 j ≡ (
            if key_a == j
            then survivor (entry_of old_store key_a) (delete_version healthy 1000 key_a 9 old_store)
            else entry_of old_store j))
delete_effect_example =
    delete_effect healthy 1000 key_a 9 old_store (9, true) old_store-IsValid.shard_number
      delete_done

visible-get_example :
    visible 1500 (entry_of (get 1000 1001 key_a old_store).0 key_b)
    ≡ visible 1500 (entry_of old_store key_b)
visible-get_example =
    visible-get old_store old_store-IsValid.shard_number key_a 1000 1001 1500 key_b (omega arith)

-- The clock goes back once.
draw-IsIncreasing_example : IsIncreasing 0 (draw (1000 ∷ 998 ∷ 1000 ∷ []) empty_store)
draw-IsIncreasing_example =
    draw-IsIncreasing (1000 ∷ 998 ∷ 1000 ∷ []) empty_store
      (omega arith, (omega arith, (omega arith, tt))) (omega arith) (omega arith)

gone : survivor (entry_of old_store key_a) 9 ≡ none
unfolding entry_of store_entry get_shard set_shard lookup insert shard_index fnv32a bytes_beq
gone = refl

delete_forgets_example :
    (entry_of (store_entry key_a new_entry (remove_entry key_a 9 old_store).0).0 key_a
      ≡ some new_entry)
    × (entry_of (remove_entry key_a 9 (store_entry key_a new_entry old_store).0).0 key_a ≡ none)
delete_forgets_example =
    delete_forgets old_store key_a new_entry 9 old_store-IsValid gone (omega arith)
