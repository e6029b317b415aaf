-- ===== src/Store/Sort/Sorted.antt =====
-- The hand-written sort of internal/store/store.go puts an array in order.
use mathlib.Core.List.{Perm}
use high_performance_kv_stor.Prelude.{
  ℕ, zero, suc, ◌+◌, ◌-◌, ◌≤◌, ◌<◌, ◌≡◌, refl, Bool, true, false, not, arith, length, nat_beq,
  nat_beq_iff, Bytes, ltb, ltb→ge, ltb→lt, Bool-cases, inl, inr,
}
use high_performance_kv_stor.Prelude.Order.{
  bytes_ltb, bytes_ltb_irrefl, bytes_ltb_asymm, bytes_ge_trans,
}
use high_performance_kv_stor.Store.Sort.{
  Array, at, swap, partition_loop, partition, quick_sort, sort_strings,
}
use high_performance_kv_stor.Store.Sort.Partition.{
  length-swap, at-swap, IsRearranged, IsRearranged-refl, IsRearranged-trans, IsRearranged-widen,
  swap-IsRearranged,
}

-- The range from `low` to below `high` after the loop: first what is below the pivot, then the rest.
record IsLooped (low high : ℕ) (pivot : Bytes) (arr : Array) (out : ℕ × Array) : Type 0 where
  moved : IsRearranged low high arr out.1
  at_least : low ≤ out.0
  at_most : out.0 ≤ high
  smaller : (x : ℕ) → low ≤ x → x < out.0 → bytes_ltb (at out.1 x) pivot ≡ true
  larger : (x : ℕ) → out.0 ≤ x → x < high → bytes_ltb (at out.1 x) pivot ≡ false

partition_loop-IsLooped :
    (rounds : ℕ) (pivot : Bytes) (low high next j : ℕ) (arr : Array)
    → low ≤ next
    → next ≤ j
    → j + rounds ≡ high
    → high < length arr
    → ((x : ℕ) → low ≤ x → x < next → bytes_ltb (at arr x) pivot ≡ true)
    → ((x : ℕ) → next ≤ x → x < j → bytes_ltb (at arr x) pivot ≡ false)
    → IsLooped low high pivot arr (partition_loop rounds pivot next j arr)
unfolding partition_loop
partition_loop-IsLooped zero pivot low high next j arr hn hj e he s l = record {
  moved = IsRearranged-refl low high arr;
  at_least = hn;
  at_most = omega arith;
  smaller = s;
  larger = λ x a b. l x a (omega arith);
}
partition_loop-IsLooped (suc rounds) pivot low high next j arr hn hj e he s l =
    elim (Bool-cases (bytes_ltb (at arr j) pivot)) [
      | inl below ↦
          let first = swap-IsRearranged low high next j arr hn hj (omega arith) (omega arith) in
          let rest =
            partition_loop-IsLooped rounds pivot low high (suc next) (suc j) (swap arr next j)
              (omega arith) (omega arith) (omega arith) (rw (length-swap arr next j) he)
              (λ x a b. ground (arith, at-swap arr next j x, s x, l x, l next))
              (λ x a b. ground (arith, at-swap arr next j x, s x, l x, l next)) in
          rw below (record {
            moved = IsRearranged-trans first rest.moved;
            at_least = rest.at_least;
            at_most = rest.at_most;
            smaller = rest.smaller;
            larger = rest.larger;
          })
      | inr other ↦ rw other (
          partition_loop-IsLooped rounds pivot low high next (suc j) arr hn (omega arith)
            (omega arith) he s
            (λ x a b. elim (Bool-cases (nat_beq x j)) [
              | inl last ↦ rw ((nat_beq_iff x j).0 last) other
              | inr before ↦ l x a (ground arith)
            ]))
    ]

-- The range from `low` to `high` after `partition`: the pivot at its place, what is below it on its
-- left, and the rest on its right.
record IsPartitioned (low high : ℕ) (arr : Array) (out : ℕ × Array) : Type 0 where
  moved : IsRearranged low (suc high) arr out.1
  at_least : low ≤ out.0
  at_most : out.0 ≤ high
  smaller : (x : ℕ) → low ≤ x → x < out.0 → bytes_ltb (at out.1 x) (at out.1 out.0) ≡ true
  larger : (x : ℕ) → out.0 < x → x ≤ high → bytes_ltb (at out.1 x) (at out.1 out.0) ≡ false

partition-IsPartitioned :
    (arr : Array) (low high : ℕ)
    → low ≤ high
    → high < length arr
    → IsPartitioned low high arr (partition arr low high)
unfolding partition
partition-IsPartitioned arr low high hl hh =
    let pivot = at arr high in
    let out = partition_loop (high - low) pivot low low arr in
    let looped =
      partition_loop-IsLooped (high - low) pivot low high low low arr (omega arith) (omega arith)
        (omega arith) hh (λ x a b. absurd (omega arith)) (λ x a b. absurd (omega arith)) in
    let long : high < length out.1 = rw looped.moved.same_length hh in
    let last : at out.1 high ≡ pivot = looped.moved.outside high (ground arith) in
    let at_most = looped.at_most in
    let place : at (swap out.1 out.0 high) out.0 ≡ pivot =
      ground (arith, at-swap out.1 out.0 high out.0) in
    record {
      moved = IsRearranged-trans (IsRearranged-widen (omega arith) (omega arith) looped.moved) (
          swap-IsRearranged low (suc high) out.0 high out.1 looped.at_least at_most (omega arith)
            (omega arith));
      at_least = looped.at_least;
      at_most = at_most;
      smaller = λ x a b. rw place (ground (arith, at-swap out.1 out.0 high x, looped.smaller x));
      larger = λ x a b.
          rw place
            (ground (arith, at-swap out.1 out.0 high x, looped.larger x, looped.larger out.0));
    }

-- No element of the range is below an earlier one.
abbrev pub IsSorted : ℕ → ℕ → Array → Type 0
IsSorted low end arr =
    (x y : ℕ) → low ≤ x → x ≤ y → y < end → bytes_ltb (at arr y) (at arr x) ≡ false

join-IsSorted :
    (low p end : ℕ) (arr : Array)
    → IsSorted low p arr
    → IsSorted (suc p) end arr
    → ((x : ℕ) → low ≤ x → x < p → bytes_ltb (at arr p) (at arr x) ≡ false)
    → ((x : ℕ) → p < x → x < end → bytes_ltb (at arr x) (at arr p) ≡ false)
    → IsSorted low end arr
join-IsSorted low p end arr left right below above x y hl hxy he = ground (
  arith,
  left x y,
  right x y,
  below x,
  above y,
  bytes_ltb_irrefl (at arr p),
  bytes_ge_trans (at arr x) (at arr p) (at arr y),
)

-- The range from `low` to below `end` after `quickSort`.
record IsOrdered (low end : ℕ) (arr out : Array) : Type 0 where
  moved : IsRearranged low end arr out
  sorted : IsSorted low end out

short-IsOrdered : (low end : ℕ) (arr : Array) → end ≤ suc low → IsOrdered low end arr arr
short-IsOrdered low end arr h = record {
  moved = IsRearranged-refl low end arr;
  sorted = λ x y hl hxy he. let e : x ≡ y = omega arith in rw e (bytes_ltb_irrefl (at arr y));
}

not-true : (b : Bool) → not b ≡ true → b ≡ false
not-true b h = ground arith

-- After a partition, sorting the two sides sorts the range.
sides-IsOrdered :
    {low end : ℕ} {arr : Array} {parted : ℕ × Array} {mid out : Array}
    → suc low < end
    → IsPartitioned low (end - 1) arr parted
    → IsOrdered low parted.0 parted.1 mid
    → IsOrdered (suc parted.0) end mid out
    → IsOrdered low end arr out
sides-IsOrdered {low} {end} {arr} {parted} {mid} {out} h split left right =
    let p = parted.0 in
    let lo = split.at_least in
    let hi = split.at_most in
    let widest : IsRearranged low end arr parted.1 =
      IsRearranged-widen (omega arith) (omega arith) split.moved in
    let pivot_mid : at mid p ≡ at parted.1 p = left.moved.outside p (ground arith) in
    let pivot_out : at out p ≡ at mid p = right.moved.outside p (ground arith) in
    let kept : (x : ℕ) → x < p → at out x ≡ at mid x =
      λ x l. right.moved.outside x (ground arith) in
    let small =
      left.moved.inside (λ b. not (bytes_ltb (at parted.1 p) b))
        (λ x a b. rw (bytes_ltb_asymm (at parted.1 x) (at parted.1 p) (split.smaller x a b))) in
    let large =
      right.moved.inside (λ b. not (bytes_ltb b (at parted.1 p)))
        (λ x a b.
          rw (left.moved.outside x (ground arith))
            (rw (split.larger x (omega arith) (omega arith)) refl)) in
    record {
      moved =
          IsRearranged-trans
            (IsRearranged-trans widest (IsRearranged-widen (omega arith) (omega arith) left.moved))
            (IsRearranged-widen (omega arith) (omega arith) right.moved);
      sorted =
          join-IsSorted low p end out
            (λ x y a b c. rw (kept x (omega arith), kept y c) (left.sorted x y a b c)) right.sorted
            (λ x a b. rw (pivot_out, pivot_mid, kept x b) (not-true _ (small x a b)))
            (λ x a b. rw (pivot_out, pivot_mid) (not-true _ (large x a b)));
    }

quick_sort-IsOrdered :
    (fuel : ℕ) (arr : Array) (low end : ℕ)
    → end ≤ low + fuel
    → end ≤ length arr
    → IsOrdered low end arr (quick_sort fuel arr low end)
unfolding quick_sort
quick_sort-IsOrdered zero arr low end hf he = short-IsOrdered low end arr (omega arith)
quick_sort-IsOrdered (suc fuel) arr low end hf he = elim (Bool-cases (ltb (suc low) end)) [
  | inl long ↦
      let h : suc low < end = ltb→lt (suc low) end long in
      let parted = partition arr low (end - 1) in
      let split = partition-IsPartitioned arr low (end - 1) (omega arith) (omega arith) in
      let lo = split.at_least in
      let hi = split.at_most in
      let left =
        quick_sort-IsOrdered fuel parted.1 low parted.0 (omega arith)
          (rw split.moved.same_length (omega arith)) in
      let right =
        quick_sort-IsOrdered fuel (quick_sort fuel parted.1 low parted.0) (suc parted.0) end
          (omega arith) (rw (left.moved.same_length, split.moved.same_length) he) in
      rw long (sides-IsOrdered h split left right)
  | inr short ↦ rw short (short-IsOrdered low end arr (ltb→ge (suc low) end short))
]

-- sortStrings puts any array in the order of Go's `<` on strings, and keeps its elements: no element
-- of the result is below an earlier one, and the result is a permutation of the array. The fuel of
-- the recursion is enough.
pub sort_strings-IsSorted :
    (arr : Array)
    → IsSorted 0 (length (sort_strings arr)) (sort_strings arr) × Perm (sort_strings arr) arr
unfolding sort_strings
sort_strings-IsSorted arr = elim (Bool-cases (ltb (length arr) 2)) [
  | inl short ↦
      let done = short-IsOrdered 0 (length arr) arr (ground arith) in
      rw short (done.sorted, done.moved.perm)
  | inr long ↦
      let done = quick_sort-IsOrdered (length arr) arr 0 (length arr) (omega arith) (omega arith) in
      rw long (rw done.moved.same_length (done.sorted, done.moved.perm))
]
