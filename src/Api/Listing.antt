-- ===== src/Api/Listing.antt =====
-- The list of keys (internal/api/handlers.go: handleListKeys).
use high_performance_kv_stor.Prelude.{
  ℕ, zero, suc, ◌≤◌, ◌<◌, ◌≡◌, ap, Option, none, some, arith, length, length-take, Bytes,
}
use high_performance_kv_stor.Prelude.Int.{ℤ, pos, negsuc}
use high_performance_kv_stor.Store.Sort.{Array, sort_strings}
use high_performance_kv_stor.Store.Scan.{all_keys}
use high_performance_kv_stor.Store.Scan.Page.{after_cursor, page, scan-page}
use high_performance_kv_stor.Api.{Node, key_page, Response, list_limit, handle_list_keys}

list_limit-bounds : (limit : Option ℤ) → (0 < list_limit limit) × (list_limit limit ≤ 1000)
unfolding list_limit
list_limit-bounds none = omega arith
list_limit-bounds (some (pos zero)) = omega arith
list_limit-bounds (some (pos (suc n))) = ground arith
list_limit-bounds (some (negsuc n)) = omega arith

length-page : (limit : ℕ) (keys : Array) → length (page limit keys).0 ≤ limit
length-page limit keys = ground (arith, length-take limit keys)

-- What the handler makes of a result of Scan.
abbrev answer : Option (Array × Bytes) → Option Response
answer result = elim result [
  | none ↦ none
  | some (keys, next) ↦ some (record { status = 200; body = key_page keys next })
]

-- Whatever limit a request asks for, the handler does not panic: it answers with 200 and a page of
-- at most a thousand keys, the first of the node's live keys with the prefix behind the cursor.
pub handle_list_keys-page :
    (now : ℕ) (prefix cursor : Bytes) (limit : Option ℤ) (node : Node)
    → (size : ℕ) × (size ≤ 1000)
      × (0 < size)
      × (let keys = after_cursor cursor (sort_strings (all_keys now prefix node.store.shards)) in
          let out = page size keys in
          (handle_list_keys now prefix cursor limit node
            ≡ some (record { status = 200; body = key_page out.0 out.1 }))
          × (length out.0 ≤ 1000))
unfolding handle_list_keys
handle_list_keys-page now prefix cursor limit node =
    let (low, high) = list_limit-bounds limit in
    let size = list_limit limit in
    let keys = after_cursor cursor (sort_strings (all_keys now prefix node.store.shards)) in
    let found = scan-page now prefix size cursor node.store low in
    (size, high, low, (ap answer found, omega (arith, length-page size keys)))
