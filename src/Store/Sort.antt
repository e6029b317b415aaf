-- ===== src/Store/Sort.antt =====
-- sortStrings, quickSort and partition of internal/store/store.go, on an array of strings. An index
-- that is -1 in the source (`low - 1`, `p - 1`) is never read, so two variables are kept one higher
-- than there: `next` is `i + 1`, and `end` is `high + 1`.
pub mod Partition
pub mod Sorted
use high_performance_kv_stor.Prelude.{
  ℕ, zero, suc, ◌+◌, ◌-◌, List, [], ltb, length, get_or, set, Bytes, if◌then◌else◌,
}
use high_performance_kv_stor.Prelude.Order.{bytes_ltb}

abbrev pub Array : Type 0
Array = List Bytes

-- `arr[i]`
abbrev pub at : Array → ℕ → Bytes
at arr i = get_or arr i []

-- `arr[i], arr[j] = arr[j], arr[i]`
unfoldable pub swap : Array → ℕ → ℕ → Array
swap arr i j = set (set arr i (at arr j)) j (at arr i)

-- The loop of `partition`, with `rounds` left, at `j`.
unfoldable pub partition_loop : ℕ → Bytes → ℕ → ℕ → Array → ℕ × Array
partition_loop zero pivot next j arr = (next, arr)
partition_loop (suc rounds) pivot next j arr =
    let smaller = partition_loop rounds pivot (suc next) (suc j) (swap arr next j) in
    let other = partition_loop rounds pivot next (suc j) arr in
    if bytes_ltb (at arr j) pivot then smaller else other

unfoldable pub partition : Array → ℕ → ℕ → ℕ × Array
unfolding partition_loop swap
partition arr low high =
    let (next, moved) = partition_loop (high - low) (at arr high) low low arr in
    (next, swap moved next high)

-- The recursion of `quickSort`. Each call is on a range that is shorter by one or more, so a fuel of
-- the length of the range is enough; with none left the array is returned as it is.
unfoldable pub quick_sort : ℕ → Array → ℕ → ℕ → Array
quick_sort zero arr low end = arr
quick_sort (suc fuel) arr low end =
    let (p, parted) = partition arr low (end - 1) in
    let sorted = quick_sort fuel (quick_sort fuel parted low p) (suc p) end in
    if ltb (suc low) end then sorted else arr

unfoldable pub sort_strings : Array → Array
unfolding quick_sort
sort_strings arr = if ltb (length arr) 2 then arr else quick_sort (length arr) arr 0 (length arr)
