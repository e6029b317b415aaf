-- ===== src/Store/State/Invariant.antt =====
-- Every operation of internal/store/store.go on one key keeps the store well formed: 32 shards, each
-- key once and in the shard that getShard sends it to, and a key count that is exact.
use high_performance_kv_stor.Prelude.{
  ℕ, zero, suc, ◌+◌, ◌≡◌, refl, ◌∙◌, ap, [], Option, none, some, arith, length, get_or-set,
  get_or-replicate, length-set, Bytes, bytes_eq, ltb, nat_beq, nat_beq_iff, Bool-cases,
  Option-cases, inl, inr,
}
use high_performance_kv_stor.Prelude.Int.{ℤ, pos, ◌+ℤ◌, ◌-ℤ◌, pos+one, pos-one}
use high_performance_kv_stor.Prelude.Table.{
  lookup, insert, delete, insert-IsDistinct, delete-IsDistinct, All-insert, All-delete,
  length-insert_new, length-insert_old, length-delete,
}
use high_performance_kv_stor.Store.Entry.{Entry, is_expired}
use high_performance_kv_stor.Store.Wal.{Wal, WalError, Disk, Record}
use high_performance_kv_stor.Store.State.{
  Shard, Store, shard_index, get_shard, set_shard, new_store, Times, store_entry, remove_entry,
  reap_key, get, set, delete_key, log_record, choose_version, next_version, unless_failed,
}
use high_performance_kv_stor.Store.State.Shards.{IsShard, IsValid, total, total-set, shard_index-lt}

module _ {s : Store} (v : IsValid s) (key : Bytes) where
  own-IsShard : IsShard (shard_index key) (get_shard s key)
  unfolding get_shard
  own-IsShard = v.shard_valid (shard_index key)

  total-set_shard :
      (sh : Shard)
      → total (set_shard key sh s).shards + length (get_shard s key) ≡ total s.shards + length sh
  unfolding set_shard get_shard
  total-set_shard sh =
      total-set s.shards (shard_index key) sh (rw v.shard_number (shard_index-lt key))

  set_shard-IsValid :
      (sh : Shard) (count : ℤ)
      → IsShard (shard_index key) sh
      → count ≡ pos (total (set_shard key sh s).shards)
      → IsValid (record (set_shard key sh s) { key_count = count })
  unfolding set_shard
  set_shard-IsValid sh count ok counted = record {
    shard_number = length-set s.shards (shard_index key) sh ∙ v.shard_number;
    shard_valid = λ i.
        rw (get_or-set s.shards (shard_index key) i sh [] (rw v.shard_number (shard_index-lt key)))
          (elim (Bool-cases (nat_beq (shard_index key) i)) [
            | inl same ↦ rw same (rw ((nat_beq_iff (shard_index key) i).0 same) at ok)
            | inr other ↦ rw other (v.shard_valid i)
          ]);
    counted = counted;
  }

  insert-IsShard : (e : Entry) → IsShard (shard_index key) (insert key e (get_shard s key))
  insert-IsShard e = record {
    distinct = insert-IsDistinct key e (get_shard s key) own-IsShard.distinct;
    placed = All-insert _ key e (get_shard s key) own-IsShard.placed refl;
  }

  delete-IsShard : IsShard (shard_index key) (delete key (get_shard s key))
  delete-IsShard = record {
    distinct = delete-IsDistinct key (get_shard s key) own-IsShard.distinct;
    placed = All-delete _ key (get_shard s key) own-IsShard.placed;
  }

  pub insert_new-IsValid :
      (e : Entry)
      → lookup key (get_shard s key) ≡ none
      → IsValid (record (set_shard key (insert key e (get_shard s key)) s) {
        key_count = s.key_count +ℤ pos 1;
      })
  insert_new-IsValid e absent =
      let sh = insert key e (get_shard s key) in
      set_shard-IsValid sh (s.key_count +ℤ pos 1) (insert-IsShard e) (
        ap (λ c. c +ℤ pos 1) v.counted
        ∙ pos+one (total s.shards)
        ∙ ap pos
            (omega (arith, total-set_shard sh, length-insert_new key e (get_shard s key) absent)))

  pub insert_old-IsValid :
      (e current : Entry)
      → lookup key (get_shard s key) ≡ some current
      → IsValid (set_shard key (insert key e (get_shard s key)) s)
  unfolding set_shard
  insert_old-IsValid e current present =
      let sh = insert key e (get_shard s key) in
      set_shard-IsValid sh s.key_count (insert-IsShard e) (
        v.counted
        ∙ ap pos (
            omega (
              arith,
              total-set_shard sh,
              length-insert_old key e current (get_shard s key) present,
            )))

  drop_key-IsValid :
      (current : Entry)
      → lookup key (get_shard s key) ≡ some current
      → IsValid (record (set_shard key (delete key (get_shard s key)) s) {
        key_count = s.key_count -ℤ pos 1;
      })
  drop_key-IsValid current present =
      let sh = delete key (get_shard s key) in
      set_shard-IsValid sh (s.key_count -ℤ pos 1) delete-IsShard (
        ap (λ c. c -ℤ pos 1) v.counted
        ∙ pos-one (total (set_shard key sh s).shards) (total s.shards) (
            omega (
              arith,
              total-set_shard sh,
              length-delete key current (get_shard s key) own-IsShard.distinct present,
            )))

  pub store_entry-IsValid : (e : Entry) → IsValid (store_entry key e s).0
  unfolding store_entry
  store_entry-IsValid e = elim (Option-cases (lookup key (get_shard s key))) [
    | inl absent ↦ rw (absent, store_entry) (insert_new-IsValid e absent)
    | inr (current, present) ↦
        rw (present, store_entry)
          (elim (Bool-cases (ltb e.version current.version)) [
            | inl stale ↦ rw stale v
            | inr fresh ↦ rw fresh (insert_old-IsValid e current present)
          ])
  ]

  pub remove_entry-IsValid : (version : ℕ) → IsValid (remove_entry key version s).0
  unfolding remove_entry
  remove_entry-IsValid version = elim (Option-cases (lookup key (get_shard s key))) [
    | inl absent ↦ rw (absent, remove_entry) v
    | inr (current, present) ↦
        rw (present, remove_entry)
          (elim (Bool-cases (ltb version current.version)) [
            | inl stale ↦ rw stale v
            | inr fresh ↦ rw fresh (drop_key-IsValid current present)
          ])
  ]

  pub reap_key-IsValid : (now : ℕ) → IsValid (reap_key now key s)
  unfolding reap_key
  reap_key-IsValid now = elim (Option-cases (lookup key (get_shard s key))) [
    | inl absent ↦ rw (absent, reap_key) v
    | inr (current, present) ↦
        rw (present, reap_key)
          (elim (Bool-cases (is_expired now current)) [
            | inl old ↦ rw old (drop_key-IsValid current present)
            | inr live ↦ rw live v
          ])
  ]

-- The version and the log are no part of what makes a store well formed.
pub same_map-IsValid :
    {s t : Store} → IsValid s → t.shards ≡ s.shards → t.key_count ≡ s.key_count → IsValid t
same_map-IsValid v shards count = record {
  shard_number = rw shards v.shard_number;
  shard_valid = λ i. rw shards (v.shard_valid i);
  counted = rw (shards, count) v.counted;
}

module _ {s : Store} (v : IsValid s) where
  pub choose_version-IsValid : (now version : ℕ) → IsValid (choose_version now version s).0
  unfolding choose_version next_version
  choose_version-IsValid now zero = same_map-IsValid v refl refl
  choose_version-IsValid now (suc n) = v

  pub log_record-IsValid : (disk : Disk) (r : Record) → IsValid (log_record disk r s).0
  unfolding log_record
  log_record-IsValid disk r = elim (Option-cases s.wal) [
    | inl absent ↦ rw (absent, log_record) v
    | inr (w, present) ↦ rw (present, log_record) (same_map-IsValid v refl refl)
  ]

unless_failed-IsValid {ℓ} :
    {A : Type ℓ} (error : Option WalError) (s : Store) (after : Store × A)
    → IsValid s
    → IsValid after.0
    → IsValid (unless_failed error s after).0
unless_failed-IsValid (some failure) s after v v' = v
unless_failed-IsValid none s (s', a) v v' = v'

-- NewStore gives a well-formed store.
pub new_store-IsValid : (wal : Option Wal) → IsValid (new_store wal)
new_store-IsValid wal = record {
  shard_number = refl;
  shard_valid = λ i. rw (get_or-replicate 32 i) (record { distinct = tt; placed = tt });
  counted = refl;
}

module _ {s : Store} (v : IsValid s) where
  -- Get keeps a well-formed store well formed, whatever the clock reads at its two checks.
  pub get-IsValid : (now later : ℕ) (key : Bytes) → IsValid (get now later key s).0
  unfolding get
  get-IsValid now later key = elim (Option-cases (lookup key (get_shard s key))) [
    | inl absent ↦ rw (absent, get) v
    | inr (current, present) ↦
        rw (present, get)
          (elim (Bool-cases (is_expired now current)) [
            | inl old ↦ rw old (reap_key-IsValid v key later)
            | inr live ↦ rw live v
          ])
  ]

  -- Set keeps a well-formed store well formed on every path: whatever the disk does to the log,
  -- with or without an expiry, and whether or not the version wins.
  pub set-IsValid :
      (disk : Disk) (now : Times) (key value : Bytes) (ttl : ℤ) (version : ℕ)
      → IsValid (set disk now key value ttl version s).0
  unfolding set
  set-IsValid disk now key value ttl version =
      let chosen = choose_version-IsValid v now.for_version version in
      let logged = log_record-IsValid chosen disk _ in
      unless_failed-IsValid _ _ _ logged (store_entry-IsValid logged key _)

  -- Delete keeps a well-formed store well formed on every path.
  pub delete_key-IsValid :
      (disk : Disk) (now : ℕ) (key : Bytes) (version : ℕ)
      → IsValid (delete_key disk now key version s).0
  unfolding delete_key
  delete_key-IsValid disk now key version =
      let chosen = choose_version-IsValid v now version in
      let logged = log_record-IsValid chosen disk _ in
      unless_failed-IsValid _ _ _ logged (remove_entry-IsValid logged key _)
