-- ===== src/Store/State/Effects.antt =====
-- Set and Delete of internal/store/store.go as a caller sees them: what a result without an error
-- says of the map, and what an error of the log leaves.
use high_performance_kv_stor.Prelude.{
  ℕ, zero, suc, ◌≡◌, refl, sym, ◌∙◌, ap, Bool, true, false, Option, none, some, arith, length,
  Bytes, bytes_eq, ◌==◌, ltb, if◌then◌else◌, Option-cases, inl, inr,
}
use mathlib.Core.Path.{ap₂}
use high_performance_kv_stor.Prelude.Int.{ℤ}
use high_performance_kv_stor.Store.Entry.{Entry}
use high_performance_kv_stor.Store.Wal.{Disk, Record, WalError}
use high_performance_kv_stor.Store.State.{
  Store, get_shard, entry_of, Times, store_entry, remove_entry, ok, err, set, delete_key,
  log_record, choose_version, next_version, expiry, unless_failed, set_record, delete_record,
}
use high_performance_kv_stor.Store.State.Writes.{
  merge, survivor, entry_of-store_entry, store_entry-version, entry_of-remove_entry,
}

pub entry_of-same_map :
    (s t : Store) (j : Bytes) → t.shards ≡ s.shards → entry_of t j ≡ entry_of s j
unfolding entry_of get_shard
entry_of-same_map s t j h = rw h

pub shards-choose_version :
    (now version : ℕ) (s : Store) → (choose_version now version s).0.shards ≡ s.shards
unfolding choose_version next_version
shards-choose_version now zero s = refl
shards-choose_version now (suc n) s = refl

pub shards-log_record :
    (disk : Disk) (r : Record) (s : Store) → (log_record disk r s).0.shards ≡ s.shards
unfolding log_record
shards-log_record disk r s = elim (Option-cases s.wal) [
  | inl absent ↦ rw (absent, log_record)
  | inr (w, present) ↦ rw (present, log_record)
]

unless_failed-ok {ℓ} :
    {A : Type ℓ} (error : Option WalError) (s : Store) (after : Store × A) {a : A}
    → (unless_failed error s after).1 ≡ ok a
    → ((unless_failed error s after).0 ≡ after.0) × (after.1 ≡ a)
unless_failed-ok (some failure) s after h = cc
unless_failed-ok none s (s', a) h = (refl, ground arith)

unless_failed-err {ℓ} :
    {A : Type ℓ} (error : Option WalError) (s : Store) (after : Store × A) {failure : WalError}
    → (unless_failed error s after).1 ≡ err failure
    → ((unless_failed error s after).0 ≡ s) × (error ≡ some failure)
unless_failed-err (some failure) s after h = (refl, ground arith)
unless_failed-err none s (s', a) h = cc

-- The entry that `Set` offers to the map.
abbrev pub offered : Times → Bytes → ℤ → ℕ → Store → Entry
offered now value ttl version s = record {
  value = value;
  version = (choose_version now.for_version version s).1;
  expires_at = expiry now.for_expiry ttl;
}

module _ (disk : Disk) (now : Times) (key value : Bytes) (ttl : ℤ) (version : ℕ) (s : Store) where
  -- The state in which the critical section begins.
  abbrev logged : Store × Option WalError
  logged =
      log_record disk (set_record key (offered now value ttl version s))
        (choose_version now.for_version version s).0

  shards-logged : logged.0.shards ≡ s.shards
  shards-logged =
      shards-log_record disk (set_record key (offered now value ttl version s))
        (choose_version now.for_version version s).0
      ∙ shards-choose_version now.for_version version s

  -- If Set returns n without an error, n is the version of the entry that the key then has: the
  -- entry offered, with the version given or drawn, unless the key had one of a higher version. No
  -- other key changes.
  pub set_effect :
      (n : ℕ)
      → length s.shards ≡ 32
      → (set disk now key value ttl version s).1 ≡ ok n
      → (n ≡ (merge (entry_of s key) (offered now value ttl version s)).version)
        × ((j : Bytes)
            → entry_of (set disk now key value ttl version s).0 j ≡ (
                if key == j
                then some (merge (entry_of s key) (offered now value ttl version s))
                else entry_of s j))
  unfolding set
  set_effect n number h =
      let e = offered now value ttl version s in
      let (state, result) = unless_failed-ok logged.1 logged.0 (store_entry key e logged.0) h in
      let kept = entry_of-same_map s logged.0 key shards-logged in
      let number' : length logged.0.shards ≡ 32 = rw shards-logged number in
      (
        sym result
            ∙ store_entry-version logged.0 number' key e
            ∙ ap (λ o. (merge o e).version) kept,
        λ j.
            ap (λ t. entry_of t j) state
            ∙ entry_of-store_entry logged.0 number' key e j
            ∙ ap₂ (λ o p. if key == j then some (merge o e) else p) kept
                (entry_of-same_map s logged.0 j shards-logged),
      )

  -- If Set returns an error, that is the log's error for the record of the offered entry, and no
  -- key has changed.
  pub set_failure :
      (failure : WalError)
      → (set disk now key value ttl version s).1 ≡ err failure
      → (logged.1 ≡ some failure)
        × ((j : Bytes) → entry_of (set disk now key value ttl version s).0 j ≡ entry_of s j)
  unfolding set
  set_failure failure h =
      let e = offered now value ttl version s in
      let (state, error) = unless_failed-err logged.1 logged.0 (store_entry key e logged.0) h in
      (error, λ j. ap (λ t. entry_of t j) state ∙ entry_of-same_map s logged.0 j shards-logged)

-- What `Delete` returns: the version of the entry that survives it, or the delete's own, and
-- whether it took an entry away.
abbrev pub delete_reply : Option Entry → ℕ → ℕ × Bool
delete_reply none version = (version, false)
delete_reply (some c) version =
    if ltb version c.version then (c.version, false) else (version, true)

module _ (disk : Disk) (now : ℕ) (key : Bytes) (version : ℕ) (s : Store) where
  -- The version given to `Delete` or drawn by it.
  abbrev pub delete_version : ℕ
  delete_version = (choose_version now version s).1

  abbrev delete_logged : Store × Option WalError
  delete_logged =
      log_record disk (delete_record key delete_version) (choose_version now version s).0

  shards-delete_logged : delete_logged.0.shards ≡ s.shards
  shards-delete_logged =
      shards-log_record disk (delete_record key delete_version) (choose_version now version s).0
      ∙ shards-choose_version now version s

  remove_entry-reply :
      (t : Store)
      → (remove_entry key delete_version t).1 ≡ delete_reply (entry_of t key) delete_version
  unfolding remove_entry entry_of
  remove_entry-reply t = ground arith

  -- If Delete returns without an error, its reply says what became of the key: an entry of a higher
  -- version stays and its version is returned, any other is gone, and the flag says whether there
  -- was one. No other key changes.
  pub delete_effect :
      (reply : ℕ × Bool)
      → length s.shards ≡ 32
      → (delete_key disk now key version s).1 ≡ ok reply
      → (reply ≡ delete_reply (entry_of s key) delete_version)
        × ((j : Bytes)
            → entry_of (delete_key disk now key version s).0 j
              ≡ (if key == j then survivor (entry_of s key) delete_version else entry_of s j))
  unfolding delete_key
  delete_effect reply number h =
      let after = remove_entry key delete_version delete_logged.0 in
      let (state, result) = unless_failed-ok delete_logged.1 delete_logged.0 after h in
      let kept = entry_of-same_map s delete_logged.0 key shards-delete_logged in
      let number' : length delete_logged.0.shards ≡ 32 = rw shards-delete_logged number in
      (
        sym result
            ∙ remove_entry-reply delete_logged.0
            ∙ ap (λ o. delete_reply o delete_version) kept,
        λ j.
            ap (λ t. entry_of t j) state
            ∙ entry_of-remove_entry delete_logged.0 number' key delete_version j
            ∙ ap₂ (λ o p. if key == j then survivor o delete_version else p) kept
                (entry_of-same_map s delete_logged.0 j shards-delete_logged),
      )
