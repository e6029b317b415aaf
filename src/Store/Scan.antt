-- ===== src/Store/Scan.antt =====
-- Scan of internal/store/store.go: a page of the keys with a prefix, after a cursor.
pub mod Page
pub mod Listing
pub mod Next
pub mod Pages
use high_performance_kv_stor.Prelude.{
  ℕ, zero, suc, ◌+◌, ◌-◌, Bool, true, false, ◌&&◌, not, List, [], ◌∷◌, ◌++◌, Option, none, some,
  ltb, leb, nat_beq, length, take, drop, get_or, Bytes, bytes_eq, ◌==◌, if◌then◌else◌,
}
use high_performance_kv_stor.Prelude.Order.{bytes_ltb}
use high_performance_kv_stor.Store.Entry.{passed}
use high_performance_kv_stor.Store.State.{Shard, Store}
use high_performance_kv_stor.Store.Sort.{Array, sort_strings}

-- strings.HasPrefix
unfoldable pub has_prefix : Bytes → Bytes → Bool
has_prefix key [] = true
has_prefix [] (x ∷ prefix) = false
has_prefix (k ∷ key) (x ∷ prefix) = nat_beq k x && has_prefix key prefix

-- The loop over the map of one shard.
unfoldable pub live_keys : ℕ → Bytes → Shard → Array
live_keys now prefix [] = []
live_keys now prefix ((k, e) ∷ sh) =
    let rest = live_keys now prefix sh in
    if passed now e.expires_at then rest else if has_prefix k prefix then k ∷ rest else rest

-- The loop over the shards.
unfoldable pub all_keys : ℕ → Bytes → List Shard → Array
all_keys now prefix [] = []
all_keys now prefix (sh ∷ shards) = live_keys now prefix sh ++ all_keys now prefix shards

-- The loop that looks for the cursor, at index `i` of `n` keys: the value of `startIndex` after it.
pub seek_cursor : Bytes → ℕ → ℕ → ℕ → Array → ℕ
seek_cursor cursor n i start [] = start
seek_cursor cursor n i start (k ∷ keys) =
    let more = seek_cursor cursor n (suc i) (if nat_beq (suc i) n then n else start) keys in
    if bytes_ltb cursor k then i else more

unfoldable pub start_index : Bytes → Array → ℕ
unfolding seek_cursor
start_index cursor keys = if cursor == [] then 0 else seek_cursor cursor (length keys) 0 0 keys

-- The keys from `start` to below `end`, and the next cursor. There is no result where
-- `matched[len(matched)-1]` is out of range: the program panics there.
unfoldable pub cut_range : Array → ℕ → ℕ → Option (Array × Bytes)
cut_range keys start end =
    let matched = take (end - start) (drop start keys) in
    if leb (length keys) start
    then some ([], [])
    else if leb (length keys) end
    then some (matched, [])
    else if nat_beq (length matched) 0
    then none
    else some (matched, get_or matched (length matched - 1) [])

unfoldable pub cut_page : Array → ℕ → ℕ → Option (Array × Bytes)
unfolding cut_range
cut_page keys start limit =
    cut_range keys start (if ltb (length keys) (start + limit) then length keys else start + limit)

unfoldable pub scan : ℕ → Bytes → ℕ → Bytes → Store → Option (Array × Bytes)
unfolding all_keys live_keys has_prefix start_index cut_page
scan now prefix limit cursor s =
    let keys = sort_strings (all_keys now prefix s.shards) in
    cut_page keys (start_index cursor keys) limit
