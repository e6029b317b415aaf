-- ===== src/Store/State/Repeats.antt =====
-- Replicas of internal/store/store.go that receive the same Sets, in any order and some of them again.
use mathlib.Core.List.{
  Mem, Memᴰ, Subset, mem-cons_of_mem, mem-cons_self, mem-append, mem-append_right, Mem-prop,
  perm_append_comm,
}
use mathlib.Core.Logic.{∥∥₁_elim}
use high_performance_kv_stor.Prelude.{
  ◌≡◌, refl, sym, ◌∙◌, List, [], ◌∷◌, ◌++◌, arith, inl, inr, Bytes, bytes_eq, bytes_beq_iff, Option,
  some,
}
use high_performance_kv_stor.Store.Entry.{Entry}
use high_performance_kv_stor.Store.State.{Store, entry_of, store_entry}
use high_performance_kv_stor.Store.State.Shards.{IsValid}
use high_performance_kv_stor.Store.State.Invariant.{store_entry-IsValid}
use high_performance_kv_stor.Store.State.Writes.{merge, entry_of-store_entry}
use high_performance_kv_stor.Store.State.Converge.{
  Write, store_all, SameEntries, HasOwnVersions, store_all-SameEntries, store_all-perm, swap_writes,
  store_all-IsValid, Option-Entry-set,
}

merge_again : (o : Option Entry) (e : Entry) → merge (some (merge o e)) e ≡ merge o e
merge_again o e = ground arith

store_entry_again :
    (s : Store) (key : Bytes) (e : Entry)
    → IsValid s
    → SameEntries (store_entry key e (store_entry key e s).0).0 (store_entry key e s).0
store_entry_again s key e v j =
    rw
      (
        entry_of-store_entry (store_entry key e s).0 (store_entry-IsValid v key e).shard_number key
            e j,
        entry_of-store_entry s v.shard_number key e key,
        entry_of-store_entry s v.shard_number key e j,
      )
      (ground (arith, bytes_beq_iff key j, bytes_beq_iff key key, merge_again (entry_of s key) e))

HasOwnVersions-Subset : {ws xs : List Write} → Subset xs ws → HasOwnVersions ws → HasOwnVersions xs
HasOwnVersions-Subset sub own w x m n = own w x (sub w m) (sub x n)

-- A Set that comes again among later ones changes nothing.
absorbᴰ :
    (w : Write) (ws : List Write) {s : Store}
    → IsValid s
    → Memᴰ w ws
    → HasOwnVersions ws
    → SameEntries (store_all (w ∷ ws) s) (store_all ws s)
absorbᴰ w [] v m own j = elim m [ ]
absorbᴰ w (x ∷ ws) {s} v (Memᴰ.head e) own j = rw e (
    store_all-SameEntries ws (store_all (x ∷ x ∷ []) s) (store_all (x ∷ []) s)
      (store_all-IsValid (x ∷ x ∷ []) v) (store_all-IsValid (x ∷ []) v)
      (store_entry_again s x.0 x.1 v) j)
absorbᴰ w (x ∷ ws) {s} v (Memᴰ.tail m) own j =
    store_all-SameEntries ws (store_all (w ∷ x ∷ []) s) (store_all (x ∷ w ∷ []) s)
      (store_all-IsValid (w ∷ x ∷ []) v) (store_all-IsValid (x ∷ w ∷ []) v)
      (swap_writes s w x v (own w x (mem-cons_of_mem x ∣ m ∣₁) mem-cons_self)) j
    ∙ absorbᴰ w ws (store_entry-IsValid v x.0 x.1) m
        (HasOwnVersions-Subset (λ a h. mem-cons_of_mem x h) own) j

absorb :
    (w : Write) (ws : List Write) {s : Store}
    → IsValid s
    → Mem w ws
    → HasOwnVersions ws
    → SameEntries (store_all (w ∷ ws) s) (store_all ws s)
absorb w ws v m own j = ∥∥₁_elim m (Option-Entry-set _ _) (λ d. absorbᴰ w ws v d own j)

append-Subset : (xs ws : List Write) → Subset xs ws → Subset (xs ++ ws) ws
append-Subset xs ws sub w m =
    ∥∥₁_elim (mem-append.0 m) Mem-prop (λ h. elim h [ inl l ↦ sub w l | inr r ↦ r ])

absorb_all :
    (xs ws : List Write) {s : Store}
    → IsValid s
    → Subset xs ws
    → HasOwnVersions ws
    → SameEntries (store_all (xs ++ ws) s) (store_all ws s)
absorb_all [] ws v sub own j = refl
absorb_all (x ∷ xs) ws v sub own j =
    let rest : Subset xs ws = λ a h. sub a (mem-cons_of_mem x h) in
    absorb x (xs ++ ws) v (mem-append_right xs (sub x mem-cons_self))
      (HasOwnVersions-Subset (append-Subset xs ws rest) own) j
    ∙ absorb_all xs ws v rest own j

-- Replicas that receive the same Sets, each in its order and as often as it comes, end with the same
-- map, if each version names one write.
pub store_all-Subset :
    (ws xs : List Write) {s : Store}
    → IsValid s
    → HasOwnVersions ws
    → Subset ws xs
    → Subset xs ws
    → SameEntries (store_all ws s) (store_all xs s)
store_all-Subset ws xs {s} v own sub sup j =
    sym (absorb_all xs ws v sup own j)
    ∙ store_all-perm (xs ++ ws) (ws ++ xs) s j (perm_append_comm xs ws) v
        (HasOwnVersions-Subset (append-Subset xs ws sup) own)
    ∙ absorb_all ws xs v sub (HasOwnVersions-Subset sup own) j
