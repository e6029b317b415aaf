-- ===== src/Store/State/Writes.antt =====
-- What Set and Delete of internal/store/store.go do to the map from keys to entries, and how they
-- resolve conflicts: the last write wins, by version.
use high_performance_kv_stor.Prelude.{
  ℕ, ◌≡◌, Option, none, some, arith, length, Bytes, bytes_eq, bytes_beq_iff, ◌==◌, ltb,
  if◌then◌else◌, Bool-cases, Option-cases, inl, inr,
}
use high_performance_kv_stor.Prelude.Table.{lookup}
use high_performance_kv_stor.Store.Entry.{Entry}
use high_performance_kv_stor.Store.State.{
  Store, get_shard, set_shard, entry_of, store_entry, remove_entry,
}
use high_performance_kv_stor.Store.State.Shards.{entry_of-insert, entry_of-delete}

-- Last write wins: a written entry takes the place of the old one unless its version is lower.
abbrev pub merge : Option Entry → Entry → Entry
merge none e = e
merge (some c) e = if ltb e.version c.version then c else e

-- A delete takes the old entry away unless its version is lower.
abbrev pub survivor : Option Entry → ℕ → Option Entry
survivor none version = none
survivor (some c) version = if ltb version c.version then some c else none

module _ (s : Store) (number : length s.shards ≡ 32) (key : Bytes) where
  pub unchanged_at :
      (j : Bytes) {o : Option Entry}
      → entry_of s key ≡ o
      → entry_of s j ≡ (if key == j then o else entry_of s j)
  unchanged_at j h = elim (Bool-cases (key == j)) [
    | inl same ↦ rw same (rw (← (bytes_beq_iff key j).0 same) h)
    | inr other ↦ rw other
  ]

  pub entry_of-store_entry :
      (e : Entry) (j : Bytes)
      → entry_of (store_entry key e s).0 j
        ≡ (if key == j then some (merge (entry_of s key) e) else entry_of s j)
  unfolding store_entry entry_of set_shard get_shard
  entry_of-store_entry e j = elim (Option-cases (lookup key (get_shard s key))) [
    | inl absent ↦ rw (absent, store_entry) (entry_of-insert s number key e j)
    | inr (c, present) ↦
        rw (present, store_entry)
          (elim (Bool-cases (ltb e.version c.version)) [
            | inl stale ↦ rw stale (unchanged_at j present)
            | inr fresh ↦ rw fresh (entry_of-insert s number key e j)
          ])
  ]

  pub store_entry-version :
      (e : Entry) → (store_entry key e s).1 ≡ (merge (entry_of s key) e).version
  unfolding store_entry entry_of
  store_entry-version e = ground arith

  pub entry_of-remove_entry :
      (version : ℕ) (j : Bytes)
      → entry_of (remove_entry key version s).0 j
        ≡ (if key == j then survivor (entry_of s key) version else entry_of s j)
  unfolding remove_entry entry_of set_shard get_shard
  entry_of-remove_entry version j = elim (Option-cases (lookup key (get_shard s key))) [
    | inl absent ↦ rw (absent, remove_entry) (unchanged_at j absent)
    | inr (c, present) ↦
        rw (present, remove_entry)
          (elim (Bool-cases (ltb version c.version)) [
            | inl stale ↦ rw stale (unchanged_at j present)
            | inr fresh ↦ rw fresh (entry_of-delete s number key j)
          ])
  ]
