-- ===== src/Store/Scan/Listing.antt =====
-- Which keys Scan of internal/store/store.go goes through: each live key with the prefix, once.
use mathlib.Core.List.{Perm, Permᴰ}
use mathlib.Core.Logic.{∥∥₁_elim}
use mathlib.Core.Path.{subst}
use native.Mathlib.Decide.{ℕ_discrete}
use high_performance_kv_stor.Prelude.{
  ℕ, suc, ◌+◌, ◌-◌, ◌≤◌, ◌<◌, ◌≡◌, ◌≢◌, refl, sym, ◌∙◌, ap, Bool, false, ◌&&◌, not, List, [], ◌∷◌,
  ◌++◌, Option, none, some, arith, length, get_or, nat_beq, nat_beq_iff, Bytes, bytes_eq,
  bytes_beq_iff, ◌==◌, All, if◌then◌else◌, Bool-cases, inl, inr,
}
use high_performance_kv_stor.Prelude.Table.{lookup, IsDistinct}
use high_performance_kv_stor.Store.Entry.{Entry, is_expired}
use high_performance_kv_stor.Store.State.{Shard, Store, shard_index, get_shard, entry_of}
use high_performance_kv_stor.Store.State.Shards.{IsShard, IsValid, shard_index-lt}
use high_performance_kv_stor.Store.Sort.{Array, sort_strings}
use high_performance_kv_stor.Store.Sort.Sorted.{sort_strings-IsSorted}
use high_performance_kv_stor.Store.Scan.{has_prefix, live_keys, all_keys}

abbrev pub count : Bytes → Array → ℕ
count j [] = 0
count j (k ∷ keys) = if k == j then suc (count j keys) else count j keys

abbrev pub is_live : ℕ → Option Entry → Bool
is_live now none = false
is_live now (some e) = not (is_expired now e)

count-append : (j : Bytes) (xs ys : Array) → count j (xs ++ ys) ≡ count j xs + count j ys
count-append j [] ys = omega arith
count-append j (x ∷ xs) ys = ground (arith, count-append j xs ys)

count-permᴰ : (j : Bytes) {xs ys : Array} → Permᴰ xs ys → count j xs ≡ count j ys
count-permᴰ j Permᴰ.nil = refl
count-permᴰ j (Permᴰ.cons e p) = rw e (ground (arith, count-permᴰ j p))
count-permᴰ j (Permᴰ.swap e f) = rw (e, f) (ground arith)
count-permᴰ j (Permᴰ.trans p q) = count-permᴰ j p ∙ count-permᴰ j q

ℕ-set : IsSet ℕ
ℕ-set = hlevel ℕ_discrete

count-perm : (j : Bytes) {xs ys : Array} → Perm xs ys → count j xs ≡ count j ys
count-perm j {xs} {ys} p = ∥∥₁_elim p (ℕ-set (count j xs) (count j ys)) (λ d. count-permᴰ j d)

pub tail_shards :
    (i : ℕ) (sh : Shard) (shards : List Shard)
    → ((n : ℕ) → IsShard (i + n) (get_or (sh ∷ shards) n []))
    → (n : ℕ) → IsShard (suc i + n) (get_or shards n [])
tail_shards i sh shards v n = subst (λ m. IsShard m (get_or shards n [])) (omega arith) (v (suc n))

module _ (now : ℕ) (prefix : Bytes) (j : Bytes) where
  count-live_keys :
      (sh : Shard)
      → IsDistinct sh
      → count j (live_keys now prefix sh)
        ≡ (if is_live now (lookup j sh) && has_prefix j prefix then 1 else 0)
  unfolding live_keys lookup is_expired
  count-live_keys [] d = refl
  count-live_keys ((k, e) ∷ sh) d = elim (Bool-cases (k == j)) [
    | inl same ↦
        let eq : k ≡ j = (bytes_beq_iff k j).0 same in
        let gone : lookup j sh ≡ none = rw (← eq) d.0 in
        ground (arith, count-live_keys sh d.1, ap (λ x. has_prefix x prefix) eq)
    | inr other ↦ ground (arith, count-live_keys sh d.1)
  ]

  count-misplaced :
      (i : ℕ) (sh : Shard)
      → All (λ kv. shard_index kv.0 ≡ i) sh
      → shard_index j ≢ i
      → count j (live_keys now prefix sh) ≡ 0
  unfolding live_keys
  count-misplaced i [] placed away = refl
  count-misplaced i ((k, e) ∷ sh) placed away =
      ground (
        arith,
        count-misplaced i sh placed.1 away,
        bytes_beq_iff k j,
        ap shard_index {x = k} {y = j},
      )

  count-elsewhere :
      (i : ℕ) (shards : List Shard)
      → ((n : ℕ) → IsShard (i + n) (get_or shards n []))
      → shard_index j < i
      → count j (all_keys now prefix shards) ≡ 0
  unfolding all_keys
  count-elsewhere i [] v h = refl
  count-elsewhere i (sh ∷ shards) v h =
      let head = v 0 in
      let away : shard_index j ≢ i + 0 = λ e. omega (arith, e, h) in
      count-append j (live_keys now prefix sh) (all_keys now prefix shards)
      ∙ omega (
        arith,
        count-misplaced (i + 0) sh head.placed away,
        count-elsewhere (suc i) shards (tail_shards i sh shards v) (omega arith),
      )

  count-all_keys :
      (i : ℕ) (shards : List Shard)
      → ((n : ℕ) → IsShard (i + n) (get_or shards n []))
      → i ≤ shard_index j
      → shard_index j < i + length shards
      → count j (all_keys now prefix shards)
        ≡ count j (live_keys now prefix (get_or shards (shard_index j - i) []))
  unfolding all_keys
  count-all_keys i [] v le lt = absurd (omega arith)
  count-all_keys i (sh ∷ shards) v le lt =
      let head = v 0 in
      let both = count-append j (live_keys now prefix sh) (all_keys now prefix shards) in
      let at_shard : ℕ → ℕ = λ n. count j (live_keys now prefix (get_or (sh ∷ shards) n [])) in
      elim (Bool-cases (nat_beq (shard_index j) i)) [
        | inl same ↦
            let eq = (nat_beq_iff (shard_index j) i).0 same in
            let first : shard_index j - i ≡ 0 = omega arith in
            both
            ∙ omega
                (arith, count-elsewhere (suc i) shards (tail_shards i sh shards v) (omega arith))
            ∙ ap at_shard (sym first)
        | inr other ↦
            let away : shard_index j ≢ i + 0 = λ e. ground arith in
            let later : shard_index j - i ≡ suc (shard_index j - suc i) = ground arith in
            both
            ∙ omega (arith, count-misplaced (i + 0) sh head.placed away)
            ∙ count-all_keys (suc i) shards (tail_shards i sh shards v) (ground arith) (omega arith)
            ∙ ap at_shard (sym later)
      ]

-- The keys that Scan sorts and pages through are those that a Get at the same time would find and
-- that have the prefix, each exactly once, in a well-formed store.
pub count-listing :
    (now : ℕ) (prefix : Bytes) (s : Store) (j : Bytes)
    → IsValid s
    → count j (sort_strings (all_keys now prefix s.shards))
      ≡ (if is_live now (entry_of s j) && has_prefix j prefix then 1 else 0)
unfolding entry_of get_shard
count-listing now prefix s j v =
    let here : shard_index j - 0 ≡ shard_index j = omega arith in
    let home = v.shard_valid (shard_index j) in
    count-perm j (sort_strings-IsSorted (all_keys now prefix s.shards)).1
    ∙ count-all_keys now prefix j 0 s.shards
        (λ n. subst (λ m. IsShard m (get_or s.shards n [])) (omega arith) (v.shard_valid n))
        (omega arith) (rw v.shard_number (omega (arith, shard_index-lt j)))
    ∙ ap (λ n. count j (live_keys now prefix (get_or s.shards n []))) here
    ∙ count-live_keys now prefix j (get_or s.shards (shard_index j) []) home.distinct
