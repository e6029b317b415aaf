-- ===== src/Store/State/Shards.antt =====
-- The shards of internal/store/store.go as one map, and what makes a store well formed.
use high_performance_kv_stor.Prelude.{
  ℕ, zero, suc, ◌+◌, ◌<◌, ◌≡◌, List, [], ◌∷◌, Option, none, some, arith, length, get_or,
  set as set_at, get_or-set, All, Bytes, bytes_eq, bytes_beq, bytes_beq_iff, ◌==◌, nat_beq,
  nat_beq_iff, if◌then◌else◌, Bool-cases, inl, inr, ap,
}
use high_performance_kv_stor.Prelude.Int.{pos}
use high_performance_kv_stor.Prelude.Table.{
  lookup, insert, delete, IsDistinct, lookup-insert, lookup-delete,
}
use high_performance_kv_stor.Store.Entry.{Entry}
use high_performance_kv_stor.Store.State.{Shard, Store, shard_index, get_shard, entry_of, set_shard}

abbrev pub total : List Shard → ℕ
total [] = 0
total (sh ∷ shards) = length sh + total shards

-- A shard at index `i`: its keys are distinct, and `getShard` sends each of them here.
pub record IsShard (i : ℕ) (sh : Shard) : Type 0 where
  pub distinct : IsDistinct sh
  pub placed : All (λ kv. shard_index kv.0 ≡ i) sh

pub record IsValid (s : Store) : Type 0 where
  pub shard_number : length s.shards ≡ 32
  pub shard_valid : (i : ℕ) → IsShard i (get_or s.shards i [])
  pub counted : s.key_count ≡ pos (total s.shards)

pub shard_index-lt : (key : Bytes) → shard_index key < 32
unfolding shard_index
shard_index-lt key = omega arith

pub total-set :
    (shards : List Shard) (i : ℕ) (sh : Shard)
    → i < length shards
    → total (set_at shards i sh) + length (get_or shards i []) ≡ total shards + length sh
total-set [] i sh h = absurd (omega arith)
total-set (t ∷ shards) zero sh h = omega arith
total-set (t ∷ shards) (suc i) sh h = omega (arith, total-set shards i sh)

module _ (s : Store) (number : length s.shards ≡ 32) (key : Bytes) where
  -- After a write to the shard of `key` the map is the new shard at the keys of that shard.
  entry_of-set_shard :
      (sh : Shard) (j : Bytes)
      → entry_of (set_shard key sh s) j
        ≡ (if nat_beq (shard_index key) (shard_index j) then lookup j sh else entry_of s j)
  unfolding entry_of get_shard set_shard
  entry_of-set_shard sh j =
      ground
        (arith, get_or-set s.shards (shard_index key) (shard_index j) sh [], shard_index-lt key)

  -- A write to the shard that changes one key changes the map at that key.
  one_key :
      (sh : Shard) (j : Bytes) (o : Option Entry)
      → lookup j sh ≡ (if key == j then o else lookup j (get_shard s key))
      → entry_of (set_shard key sh s) j ≡ (if key == j then o else entry_of s j)
  unfolding entry_of get_shard
  one_key sh j o h = rw (entry_of-set_shard sh j) (elim (Bool-cases (bytes_beq key j)) [
    | inl same ↦ let p : key ≡ j = (bytes_beq_iff key j).0 same in ground (arith, ap shard_index p)
    | inr other ↦ ground (arith, nat_beq_iff (shard_index key) (shard_index j))
  ])

  pub entry_of-insert :
      (e : Entry) (j : Bytes)
      → entry_of (set_shard key (insert key e (get_shard s key)) s) j
        ≡ (if key == j then some e else entry_of s j)
  entry_of-insert e j =
      one_key (insert key e (get_shard s key)) j (some e) (lookup-insert key j e (get_shard s key))

  pub entry_of-delete :
      (j : Bytes)
      → entry_of (set_shard key (delete key (get_shard s key)) s) j
        ≡ (if key == j then none else entry_of s j)
  entry_of-delete j =
      one_key (delete key (get_shard s key)) j none (lookup-delete key j (get_shard s key))
