-- ===== src/Store/Threads/Undone.antt =====
-- A Set and a Delete of internal/store/store.go that run at the same time: the log may have them in
-- another order than the map.
pub mod Restarted
use high_performance_kv_stor.Prelude.{
  ℕ, ◌+◌, ◌^◌, ◌≤◌, ◌<◌, ◌≡◌, refl, sym, ◌∙◌, ap, Bool, true, false, List, [], ◌∷◌, ◌++◌, Option,
  none, some, arith, length, Bytes, bytes_eq, bytes_beq_iff, ◌==◌, String, map, All, append_assoc,
}
use high_performance_kv_stor.Prelude.Int.{ℤ}
use high_performance_kv_stor.Store.Entry.{Entry, zero_time}
use high_performance_kv_stor.Store.Wal.{Wal, healthy, append}
use high_performance_kv_stor.Store.State.{
  Store, ok, entry_of, choose_version, next_version, set_record, delete_record, set_wal, expiry,
  store_entry, remove_entry,
}
use high_performance_kv_stor.Store.State.Shards.{IsValid}
use high_performance_kv_stor.Store.State.Writes.{
  merge, survivor, entry_of-store_entry, entry_of-remove_entry,
}
use high_performance_kv_stor.Store.State.Effects.{offered, entry_of-same_map}
use high_performance_kv_stor.Store.Recovery.{Reading}
use high_performance_kv_stor.Store.Recovery.Linked.{log_record-linked}
use high_performance_kv_stor.Store.Start.{running}
use high_performance_kv_stor.Store.Start.History.{Node, History, start_again}
use high_performance_kv_stor.Store.State.Versions.{next_version_grows}
use high_performance_kv_stor.Store.State.Invariant.{
  store_entry-IsValid, remove_entry-IsValid, same_map-IsValid,
}
use high_performance_kv_stor.Store.Recovery.Durable.{
  Mutation, put, remove, record_of, Map, change, lasting, entry_of-perform, wal-store_entry,
  wal-remove_entry,
}
use high_performance_kv_stor.Store.Recovery.Session.{IsLogged, IsDurable}
use high_performance_kv_stor.Store.Wal.Read.Replay.{encode_all}
use high_performance_kv_stor.Store.Wal.Read.Torn.{bytes-append}
use high_performance_kv_stor.Store.Start.Restored.{start_again-IsRecoverable, entry_of-set_wal}
use high_performance_kv_stor.Store.Start.Recoverable.{History-IsRecoverable, same_files, relinked}
use high_performance_kv_stor.Store.Threads.Sets.{change_all-append, next_version-lt}
use mathlib.Core.List.{map-append}
use mathlib.Core.Path.{fun_ext, subst}
use high_performance_kv_stor.Store.Threads.{
  Point, set_called, set_returned, delete_called, delete_returned, Machine, Shared, advance, race,
}

-- The Set draws its version first, then the Delete; the Delete's record is appended first, then the
-- Set's; and the map takes the Set first, then the Delete. Each turn has a clock of its own.
abbrev pub turns : Machine → Machine → Machine → List (Bool × Machine)
turns m₁ m₂ m = (true, m₁) ∷ (false, m₂) ∷ (false, m) ∷ (true, m) ∷ (true, m) ∷ (false, m) ∷ []

abbrev pub after_draw : Machine → Store → Store
after_draw m s = (choose_version m.now.for_version 0 s).0

abbrev pub drawn : Machine → Store → ℕ
drawn m s = (choose_version m.now.for_version 0 s).1

abbrev pub set_over : Machine → Bytes → ℤ → Store → Entry
set_over m value ttl s = offered m.now value ttl 0 s

-- The log with both records.
abbrev pub both : Wal → Bytes → ℕ → Entry → Wal
both w key version e =
    (append healthy (append healthy w (delete_record key version)).0 (set_record key e)).0

-- What the six turns come to.
pub race-turns :
    (m₁ m₂ m : Machine) (key value : Bytes) (ttl : ℤ) (sh : Shared) (w : Wal)
    → sh.store.wal ≡ some w
    → m.disk ≡ healthy
    → length key ≤ 65535
    → let s₂ = after_draw m₂ (after_draw m₁ sh.store) in
      let v = drawn m₂ (after_draw m₁ sh.store) in
      let e = set_over m₁ value ttl sh.store in
      let stored = store_entry key e (record s₂ { wal = some (both w key v e) }) in
      let removed = remove_entry key v stored.0 in
      race (turns m₁ m₂ m) (sh, set_called key value ttl 0, delete_called key 0) ≡ (
        record sh { store = removed.0 },
        set_returned (ok stored.1),
        delete_returned (ok removed.1),
      )
unfolding advance choose_version next_version
race-turns m₁ m₂ m key value ttl sh w linked works fits =
    let s₂ = after_draw m₂ (after_draw m₁ sh.store) in
    let v = drawn m₂ (after_draw m₁ sh.store) in
    let e = set_over m₁ value ttl sh.store in
    let w' = (append healthy w (delete_record key v)).0 in
    rw
      (
        works,
        log_record-linked (delete_record key v) s₂ w linked fits,
        log_record-linked (set_record key e) (record s₂ { wal = some w' }) w' refl fits,
      )
      refl

survivor-merge :
    (o : Option Entry) (e : Entry) (version : ℕ)
    → survivor o version ≡ none
    → e.version < version
    → survivor (some (merge o e)) version ≡ none
survivor-merge none e version gone less = ground arith
survivor-merge (some c) e version gone less = ground arith

remove_entry-some :
    (key : Bytes) (version : ℕ) (s : Store) (c : Entry)
    → entry_of s key ≡ some c
    → survivor (some c) version ≡ none
    → (remove_entry key version s).1 ≡ (version, true)
unfolding remove_entry entry_of
remove_entry-some key version s c here gone = ground arith

same_key : (key : Bytes) → (key == key) ≡ true
same_key key = (bytes_beq_iff key key).1 refl

-- A Set that is stored before a Delete of a higher version and one that is stored after it.
module _ {s : Store} (v : IsValid s) (key : Bytes) (e : Entry) (version : ℕ)
    (gone : survivor (entry_of s key) version ≡ none) where
  entry_of-stored : entry_of (store_entry key e s).0 key ≡ some (merge (entry_of s key) e)
  entry_of-stored = entry_of-store_entry s v.shard_number key e key ∙ rw (same_key key) refl

  pub set_then_delete :
      e.version < version
      → let removed = remove_entry key version (store_entry key e s).0 in
        (removed.1 ≡ (version, true)) × (entry_of removed.0 key ≡ none)
  set_then_delete less =
      let lost = survivor-merge (entry_of s key) e version gone less in
      let stored_valid = store_entry-IsValid v key e in
      (
        remove_entry-some key version (store_entry key e s).0 (merge (entry_of s key) e)
            entry_of-stored lost,
        entry_of-remove_entry (store_entry key e s).0 stored_valid.shard_number key version key
            ∙ rw (same_key key) (ap (λ o. survivor o version) entry_of-stored ∙ lost),
      )

  pub delete_then_set : entry_of (store_entry key e (remove_entry key version s).0).0 key ≡ some e
  delete_then_set =
      let removed_valid = remove_entry-IsValid v key version in
      let absent : entry_of (remove_entry key version s).0 key ≡ none =
        entry_of-remove_entry s v.shard_number key version key ∙ rw (same_key key) gone in
      entry_of-store_entry (remove_entry key version s).0 removed_valid.shard_number key e key
      ∙ rw (same_key key) (ap (λ o. some (merge o e)) absent)
