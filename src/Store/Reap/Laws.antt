-- ===== src/Store/Reap/Laws.antt =====
-- What reap of internal/store/store.go removes, and that it keeps the count of keys.
use high_performance_kv_stor.Prelude.{
  ℕ, zero, suc, ◌+◌, ◌≡◌, refl, ◌∙◌, ap, List, [], ◌∷◌, none, arith, length, get_or, All, Bytes,
  bytes_eq, bytes_beq_iff, ◌==◌, Bool-cases, inl, inr,
}
use high_performance_kv_stor.Prelude.Int.{ℤ, pos, ◌-ℤ◌, pos-one}
use high_performance_kv_stor.Prelude.Table.{lookup, IsDistinct}
use high_performance_kv_stor.Store.Entry.{Entry, passed, is_expired}
use high_performance_kv_stor.Store.State.{Shard, Store, shard_index, get_shard, entry_of}
use high_performance_kv_stor.Store.State.Shards.{total, IsValid}
use high_performance_kv_stor.Store.State.Reads.{reaped}
use high_performance_kv_stor.Store.Reap.{reap_shard, reap_shards, reap}

module _ (now : ℕ) where
  pub lookup-reap_shard :
      (sh : Shard) (n : ℤ) (j : Bytes)
      → IsDistinct sh
      → lookup j (reap_shard now sh n).0 ≡ reaped now (lookup j sh)
  unfolding reap_shard lookup is_expired
  lookup-reap_shard [] n j d = refl
  lookup-reap_shard ((k, e) ∷ sh) n j d = elim (Bool-cases (k == j)) [
    | inl same ↦
        let gone : lookup j sh ≡ none = rw (← (bytes_beq_iff k j).0 same) d.0 in
        ground (arith, lookup-reap_shard sh (n -ℤ pos 1) j d.1, lookup-reap_shard sh n j d.1)
    | inr other ↦
        ground (arith, lookup-reap_shard sh (n -ℤ pos 1) j d.1, lookup-reap_shard sh n j d.1)
  ]

  pub reap_shard-IsDistinct :
      (sh : Shard) (n : ℤ) → IsDistinct sh → IsDistinct (reap_shard now sh n).0
  unfolding reap_shard
  reap_shard-IsDistinct [] n d = d
  reap_shard-IsDistinct ((k, e) ∷ sh) n d = ground (
    arith,
    lookup-reap_shard sh n k d.1,
    reap_shard-IsDistinct sh (n -ℤ pos 1) d.1,
    reap_shard-IsDistinct sh n d.1,
  )

  pub All-reap_shard :
      (P : Bytes × Entry → Type 0) (sh : Shard) (n : ℤ) → All P sh → All P (reap_shard now sh n).0
  unfolding reap_shard
  All-reap_shard P [] n h = h
  All-reap_shard P ((k, e) ∷ sh) n h =
      ground (arith, All-reap_shard P sh (n -ℤ pos 1) h.1, All-reap_shard P sh n h.1)

  pub count-reap_shard :
      (sh : Shard) (n : ℤ) (c : ℕ)
      → n ≡ pos (length sh + c)
      → (reap_shard now sh n).1 ≡ pos (length (reap_shard now sh n).0 + c)
  unfolding reap_shard
  count-reap_shard [] n c h = h
  count-reap_shard ((k, e) ∷ sh) n c h = elim (Bool-cases (passed now e.expires_at)) [
    | inl old ↦
        let less : n -ℤ pos 1 ≡ pos (length sh + c) =
          ap (λ m. m -ℤ pos 1) h ∙ pos-one (length sh + c) (suc (length sh) + c) (omega arith) in
        rw old (count-reap_shard sh (n -ℤ pos 1) c less)
    | inr live ↦
        let same : n ≡ pos (length sh + suc c) = h ∙ ap pos (omega arith) in
        rw live (count-reap_shard sh n (suc c) same ∙ ap pos (omega arith))
  ]

  count-reap_shards :
      (shards : List Shard) (n : ℤ) (c : ℕ)
      → n ≡ pos (total shards + c)
      → (reap_shards now shards n).1 ≡ pos (total (reap_shards now shards n).0 + c)
  unfolding reap_shards
  count-reap_shards [] n c h = h
  count-reap_shards (sh ∷ shards) n c h =
      let kept = reap_shard now sh n in
      let first = count-reap_shard sh n (total shards + c) (h ∙ ap pos (omega arith)) in
      let second : kept.1 ≡ pos (total shards + (length kept.0 + c)) =
        first ∙ ap pos (omega arith) in
      count-reap_shards shards kept.1 (length kept.0 + c) second ∙ ap pos (omega arith)

  length-reap_shards :
      (shards : List Shard) (n : ℤ) → length (reap_shards now shards n).0 ≡ length shards
  unfolding reap_shards
  length-reap_shards [] n = refl
  length-reap_shards (sh ∷ shards) n = ap suc (length-reap_shards shards (reap_shard now sh n).1)

  get_or-reap_shards :
      (shards : List Shard) (n : ℤ) (i : ℕ)
      → (m : ℤ) × (get_or (reap_shards now shards n).0 i []
          ≡ (reap_shard now (get_or shards i []) m).0)
  unfolding reap_shards reap_shard
  get_or-reap_shards [] n i = (n, refl)
  get_or-reap_shards (sh ∷ shards) n zero = (n, refl)
  get_or-reap_shards (sh ∷ shards) n (suc i) = get_or-reap_shards shards (reap_shard now sh n).1 i

-- A reap removes exactly the expired entries of a well-formed store: every other key keeps its entry.
pub entry_of-reap :
    (now : ℕ) (s : Store) (j : Bytes)
    → IsValid s
    → entry_of (reap now s) j ≡ reaped now (entry_of s j)
unfolding reap entry_of get_shard
entry_of-reap now s j v =
    let (m, shard) = get_or-reap_shards now s.shards s.key_count (shard_index j) in
    let home = v.shard_valid (shard_index j) in
    rw shard (lookup-reap_shard now (get_or s.shards (shard_index j) []) m j home.distinct)

-- A reap keeps a well-formed store well formed: the count of keys is still right.
pub reap-IsValid : (now : ℕ) (s : Store) → IsValid s → IsValid (reap now s)
unfolding reap
reap-IsValid now s v = record {
  shard_number = length-reap_shards now s.shards s.key_count ∙ v.shard_number;
  shard_valid = λ i.
      let (m, shard) = get_or-reap_shards now s.shards s.key_count i in
      let home = v.shard_valid i in
      rw shard (record {
        distinct = reap_shard-IsDistinct now (get_or s.shards i []) m home.distinct;
        placed = All-reap_shard now _ (get_or s.shards i []) m home.placed;
      });
  counted =
      count-reap_shards now s.shards s.key_count 0 (v.counted ∙ ap pos (omega arith))
      ∙ ap pos (omega arith);
}
