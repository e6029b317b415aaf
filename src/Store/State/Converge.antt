-- ===== src/Store/State/Converge.antt =====
-- Replicas of internal/store/store.go converge: Sets with versions of their own may arrive in any
-- order. Deletes may not, since a delete leaves nothing behind.
use mathlib.Core.List.{Perm, Permᴰ, Mem, mem-cons_of_mem, mem-cons_self}
use mathlib.Core.List.Permᴰ
use mathlib.Core.Logic.{∥∥₁_elim}
use mathlib.Core.Path.{ap₂}
use native.Mathlib.Decide.{ℕ_discrete}
use high_performance_kv_stor.Prelude.{
  ℕ, ◌<◌, ◌≡◌, ◌≢◌, refl, ◌∙◌, ap, List, [], ◌∷◌, Option, none, some, arith, Bytes, bytes_eq,
  bytes_beq_iff, Bool-cases, inl, inr, nat_beq, nat_beq_iff,
}
use high_performance_kv_stor.Store.Entry.{Entry}
use high_performance_kv_stor.Store.State.{Store, entry_of, store_entry, remove_entry}
use high_performance_kv_stor.Store.State.Shards.{IsValid}
use high_performance_kv_stor.Store.State.Invariant.{store_entry-IsValid, remove_entry-IsValid}
use high_performance_kv_stor.Store.State.Writes.{
  merge, survivor, entry_of-store_entry, entry_of-remove_entry,
}

merge_comm :
    (o : Option Entry) (d e : Entry)
    → d.version ≢ e.version
    → merge (some (merge o d)) e ≡ merge (some (merge o e)) d
merge_comm none d e h = ground arith
merge_comm (some c) d e h = ground arith

-- Two Sets whose versions differ, of one key or of two, give the same map in either order.
store_entry_comm :
    (s : Store) (k l : Bytes) (d e : Entry) (j : Bytes)
    → IsValid s
    → d.version ≢ e.version
    → entry_of (store_entry l e (store_entry k d s).0).0 j
      ≡ entry_of (store_entry k d (store_entry l e s).0).0 j
store_entry_comm s k l d e j v h =
    let after_d = store_entry-IsValid v k d in
    let after_e = store_entry-IsValid v l e in
    rw
      (
        entry_of-store_entry (store_entry k d s).0 after_d.shard_number l e j,
        entry_of-store_entry (store_entry l e s).0 after_e.shard_number k d j,
        entry_of-store_entry s v.shard_number k d l,
        entry_of-store_entry s v.shard_number k d j,
        entry_of-store_entry s v.shard_number l e k,
        entry_of-store_entry s v.shard_number l e j,
      )
      (ground (
        arith,
        bytes_beq_iff k j,
        bytes_beq_iff l j,
        bytes_beq_iff k l,
        bytes_beq_iff l k,
        merge_comm (entry_of s k) d e,
      ))

-- A replicated Set: its key and the entry that it carries.
abbrev pub Write : Type 0
Write = Bytes × Entry

-- The critical sections of a list of replicated Sets, in the order of arrival.
abbrev pub store_all : List Write → Store → Store
store_all [] s = s
store_all ((key, e) ∷ ws) s = store_all ws (store_entry key e s).0

pub store_all-IsValid : (ws : List Write) {s : Store} → IsValid s → IsValid (store_all ws s)
store_all-IsValid [] v = v
store_all-IsValid ((key, e) ∷ ws) v = store_all-IsValid ws (store_entry-IsValid v key e)

-- Stores that no Get can tell apart.
abbrev pub SameEntries : Store → Store → Type 0
SameEntries s t = (j : Bytes) → entry_of s j ≡ entry_of t j

-- A version names one write: no two different writes share one.
abbrev pub HasOwnVersions : List Write → Type 0
HasOwnVersions ws = (w x : Write) → Mem w ws → Mem x ws → w.1.version ≡ x.1.version → w ≡ x

pub store_entry-SameEntries :
    (s t : Store) (key : Bytes) (e : Entry)
    → IsValid s
    → IsValid t
    → SameEntries s t
    → SameEntries (store_entry key e s).0 (store_entry key e t).0
store_entry-SameEntries s t key e v u h j = rw (
  entry_of-store_entry s v.shard_number key e j,
  entry_of-store_entry t u.shard_number key e j,
  h key,
  h j,
)

pub store_all-SameEntries :
    (ws : List Write) (s t : Store)
    → IsValid s
    → IsValid t
    → SameEntries s t
    → SameEntries (store_all ws s) (store_all ws t)
store_all-SameEntries [] s t v u h = h
store_all-SameEntries ((key, e) ∷ ws) s t v u h =
    store_all-SameEntries ws (store_entry key e s).0 (store_entry key e t).0
      (store_entry-IsValid v key e) (store_entry-IsValid u key e)
      (store_entry-SameEntries s t key e v u h)

pub swap_writes :
    (s : Store) (w x : Write)
    → IsValid s
    → (w.1.version ≡ x.1.version → w ≡ x)
    → SameEntries (store_all (w ∷ x ∷ []) s) (store_all (x ∷ w ∷ []) s)
swap_writes s w x v own j = elim (Bool-cases (nat_beq w.1.version x.1.version)) [
  | inl same ↦ rw (own ((nat_beq_iff w.1.version x.1.version).0 same))
  | inr other ↦
      store_entry_comm s w.0 x.0 w.1 x.1 j v
        (λ e. cc ((nat_beq_iff w.1.version x.1.version).1 e, other))
]

pub store_all-permᴰ :
    {ws xs : List Write}
    → Permᴰ ws xs
    → (s : Store) (j : Bytes) → IsValid s
    → HasOwnVersions ws
    → entry_of (store_all ws s) j ≡ entry_of (store_all xs s) j
store_all-permᴰ Permᴰ.nil s j v own = refl
store_all-permᴰ (Permᴰ.cons {a = a} {l₁ = l₁} {l₂ = l₂} e p) s j v own =
    store_all-permᴰ p (store_entry a.0 a.1 s).0 j (store_entry-IsValid v a.0 a.1)
      (λ w x m n. own w x (mem-cons_of_mem a m) (mem-cons_of_mem a n))
    ∙ ap (λ w. entry_of (store_all l₂ (store_entry w.0 w.1 s).0) j) e
store_all-permᴰ (Permᴰ.swap {a = a} {b = b} {l = l} e f) s j v own =
    store_all-SameEntries l (store_all (a ∷ b ∷ []) s) (store_all (b ∷ a ∷ []) s)
      (store_entry-IsValid (store_entry-IsValid v a.0 a.1) b.0 b.1)
      (store_entry-IsValid (store_entry-IsValid v b.0 b.1) a.0 a.1)
      (swap_writes s a b v (own a b mem-cons_self (mem-cons_of_mem a mem-cons_self))) j
    ∙ ap₂ (λ w x. entry_of (store_all (w ∷ x ∷ l) s) j) f e
store_all-permᴰ (Permᴰ.trans p q) s j v own =
    store_all-permᴰ p s j v own
    ∙ store_all-permᴰ q s j v
        (λ w x m n. own w x (Permᴰ.mem (Permᴰ.symm p) m) (Permᴰ.mem (Permᴰ.symm p) n))

pub Option-Entry-set : IsSet (Option Entry)
Option-Entry-set = hlevel ℕ_discrete

-- Replicas that receive the same Sets in different orders end with the same map, if each version
-- names one write.
pub store_all-perm :
    (ws xs : List Write) (s : Store) (j : Bytes)
    → Perm ws xs
    → IsValid s
    → HasOwnVersions ws
    → entry_of (store_all ws s) j ≡ entry_of (store_all xs s) j
store_all-perm ws xs s j p v own =
    ∥∥₁_elim p (Option-Entry-set _ _) (λ d. store_all-permᴰ d s j v own)

-- A delete leaves nothing behind that remembers its version. So after a Delete that a key's entry
-- did not outlive, a Set of that key which arrives late, with a version below the Delete's, puts
-- its entry into the map; if the Set arrives first, the key is gone after the Delete.
pub delete_forgets :
    (s : Store) (key : Bytes) (e : Entry) (version : ℕ)
    → IsValid s
    → survivor (entry_of s key) version ≡ none
    → e.version < version
    → (entry_of (store_entry key e (remove_entry key version s).0).0 key ≡ some e)
      × (entry_of (remove_entry key version (store_entry key e s).0).0 key ≡ none)
delete_forgets s key e version v gone late =
    let removed = remove_entry-IsValid v key version in
    let stored = store_entry-IsValid v key e in
    (
      rw
          (
            entry_of-store_entry (remove_entry key version s).0 removed.shard_number key e key,
            entry_of-remove_entry s v.shard_number key version key,
          )
          (ground (arith, bytes_beq_iff key key)),
      rw
          (
            entry_of-remove_entry (store_entry key e s).0 stored.shard_number key version key,
            entry_of-store_entry s v.shard_number key e key,
          )
          (ground (arith, bytes_beq_iff key key)),
    )
