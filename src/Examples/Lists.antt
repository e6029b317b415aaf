-- ===== src/Examples/Lists.antt =====
-- Runs of the theorems on sorting, on pages of keys and on the reaper.
use mathlib.Core.List.{Perm}
use high_performance_kv_stor.Prelude.{
  ◌≡◌, refl, [], ◌∷◌, none, some, suc, arith, ◌&&◌, length, bytes_beq, if◌then◌else◌,
}
use high_performance_kv_stor.Prelude.Table.{lookup, insert}
use high_performance_kv_stor.Store.Hash.{fnv32a}
use high_performance_kv_stor.Store.State.{
  Store, shard_index, get_shard, set_shard, entry_of, store_entry,
}
use high_performance_kv_stor.Store.State.Shards.{IsValid}
use high_performance_kv_stor.Store.State.Invariant.{store_entry-IsValid}
use high_performance_kv_stor.Store.State.Reads.{reaped}
use high_performance_kv_stor.Store.Sort.{sort_strings}
use high_performance_kv_stor.Store.Sort.Sorted.{IsSorted, sort_strings-IsSorted}
use high_performance_kv_stor.Store.Scan.{all_keys, has_prefix}
use high_performance_kv_stor.Store.Scan.Listing.{count, is_live, count-listing}
use high_performance_kv_stor.Store.Scan.Pages.{pages, listing, pages-listing}
use high_performance_kv_stor.Store.Reap.{reap}
use high_performance_kv_stor.Store.Reap.Laws.{entry_of-reap}
use high_performance_kv_stor.Examples.Data.{
  key_a, key_b, old_store, old_store-IsValid, new_entry, short_entry,
}

-- Two live keys and one that has expired.
abbrev three_keys : Store
three_keys = (store_entry (99 ∷ []) short_entry (store_entry key_b new_entry old_store).0).0

three_keys-IsValid : IsValid three_keys
three_keys-IsValid =
    store_entry-IsValid (store_entry-IsValid old_store-IsValid key_b new_entry) (99 ∷ [])
      short_entry

sort_strings-IsSorted_example :
    IsSorted 0
      (length (sort_strings (key_b ∷ key_a ∷ key_b ∷ [])))
      (sort_strings (key_b ∷ key_a ∷ key_b ∷ []))
    × Perm (sort_strings (key_b ∷ key_a ∷ key_b ∷ [])) (key_b ∷ key_a ∷ key_b ∷ [])
sort_strings-IsSorted_example = sort_strings-IsSorted (key_b ∷ key_a ∷ key_b ∷ [])

count-listing_example :
    count key_b (sort_strings (all_keys 1000 [] three_keys.shards))
    ≡ (if is_live 1000 (entry_of three_keys key_b) && has_prefix key_b [] then 1 else 0)
count-listing_example = count-listing 1000 [] three_keys key_b three_keys-IsValid

entry_of-reap_example :
    entry_of (reap 1000 three_keys) key_b ≡ reaped 1000 (entry_of three_keys key_b)
entry_of-reap_example = entry_of-reap 1000 three_keys key_b three_keys-IsValid

no_empty_key : entry_of three_keys [] ≡ none
unfolding entry_of store_entry get_shard set_shard lookup insert shard_index fnv32a bytes_beq
no_empty_key = refl

pages-listing_example :
    pages 1000 [] 1 three_keys (suc (length (listing 1000 [] 1 three_keys))) []
    ≡ some (listing 1000 [] 1 three_keys)
pages-listing_example =
    pages-listing 1000 [] 1 three_keys three_keys-IsValid (omega arith) no_empty_key
