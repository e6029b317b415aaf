-- ===== src/Store/Threads/Alone.antt =====
-- A goroutine that has the store to itself does what the functions of internal/store/store.go do when
-- they are read as one step each.
use high_performance_kv_stor.Prelude.{
  ℕ, suc, true, false, ◌+◌, ◌≡◌, refl, ◌∙◌, ap, List, [], ◌∷◌, ◌++◌, some, none, arith, length,
  get_or, set as set_at, length-append, append_assoc, Bytes, bytes_eq, ltb, Bool-cases,
  Option-cases, inl, inr, Option,
}
use high_performance_kv_stor.Prelude.Int.{ℤ}
use high_performance_kv_stor.Prelude.Table.{lookup}
use high_performance_kv_stor.Store.Entry.{is_expired, Entry}
use high_performance_kv_stor.Store.Wal.{WalError}
use high_performance_kv_stor.Store.State.{
  Shard, Store, get_shard, set, delete_key, get, unless_failed, store_entry, remove_entry,
  log_record, set_record, choose_version, delete_record,
}
use high_performance_kv_stor.Store.State.Shards.{IsValid}
use high_performance_kv_stor.Store.State.Effects.{offered}
use high_performance_kv_stor.Store.Reap.{reap_shard, reap_shards, reap}
use high_performance_kv_stor.Store.Snapshot.{Files}
use high_performance_kv_stor.Store.Threads.{
  set_called, set_returned, delete_called, delete_returned, get_called, get_returned, get_looked,
  reap_called, reaping, reap_returned, Machine, Shared, set_logged, delete_logged, reap_at, advance,
  alone,
}

set_logged-then :
    (m : Machine) (key : Bytes) (e : Entry) (files : Files) (out : Store × Option WalError)
    → advance m (set_logged key e files out).1 (set_logged key e files out).0 ≡ (
      record { files = files; store = (unless_failed out.1 out.0 (store_entry key e out.0)).0 },
      set_returned (unless_failed out.1 out.0 (store_entry key e out.0)).1,
    )
unfolding advance
set_logged-then m key e files (s, none) = refl
set_logged-then m key e files (s, some failure) = refl

delete_logged-then :
    (m : Machine) (key : Bytes) (version : ℕ) (files : Files) (out : Store × Option WalError)
    → advance m (delete_logged key version files out).1 (delete_logged key version files out).0 ≡ (
      record {
        files = files;
        store = (unless_failed out.1 out.0 (remove_entry key version out.0)).0;
      },
      delete_returned (unless_failed out.1 out.0 (remove_entry key version out.0)).1,
    )
unfolding advance
delete_logged-then m key version files (s, none) = refl
delete_logged-then m key version files (s, some failure) = refl

alone-set :
    (m₁ m₂ m₃ : Machine) (key value : Bytes) (ttl : ℤ) (version : ℕ) (sh : Shared)
    → let out = set m₂.disk m₁.now key value ttl version sh.store in
      alone (m₁ ∷ m₂ ∷ m₃ ∷ []) (sh, set_called key value ttl version)
      ≡ (record sh { store = out.0 }, set_returned out.1)
unfolding advance set
alone-set m₁ m₂ m₃ key value ttl version sh =
    let e = offered m₁.now value ttl version sh.store in
    set_logged-then m₃ key e sh.files
      (log_record m₂.disk (set_record key e) (choose_version m₁.now.for_version version sh.store).0)

alone-delete_key :
    (m₁ m₂ m₃ : Machine) (key : Bytes) (version : ℕ) (sh : Shared)
    → let out = delete_key m₂.disk m₁.now.for_version key version sh.store in
      alone (m₁ ∷ m₂ ∷ m₃ ∷ []) (sh, delete_called key version)
      ≡ (record sh { store = out.0 }, delete_returned out.1)
unfolding advance delete_key
alone-delete_key m₁ m₂ m₃ key version sh =
    let (s, chosen) = choose_version m₁.now.for_version version sh.store in
    delete_logged-then m₃ key chosen sh.files (log_record m₂.disk (delete_record key chosen) s)

alone-get :
    (m₁ m₂ : Machine) (key : Bytes) (sh : Shared)
    → let out = get m₁.now.for_version m₂.now.for_version key sh.store in
      alone (m₁ ∷ m₂ ∷ []) (sh, get_called key) ≡ (record sh { store = out.0 }, get_returned out.1)
unfolding advance get get_looked
alone-get m₁ m₂ key sh = elim (Option-cases (lookup key (get_shard sh.store key))) [
  | inl absent ↦ rw (absent, advance, get) refl
  | inr (e, present) ↦ elim (Bool-cases (is_expired m₁.now.for_version e)) [
    | inl old ↦ rw (present, old, advance, get) refl
    | inr live ↦ rw (present, live, advance, get) refl
  ]
]

module _ {ℓ} {A : Type ℓ} where
  get_or-at : (xs ys : List A) (x d : A) (n : ℕ) → n ≡ length xs → get_or (xs ++ x ∷ ys) n d ≡ x
  get_or-at [] ys x d n h = rw h
  get_or-at (y ∷ xs) ys x d n h = rw h (get_or-at xs ys x d (length xs) refl)

  set-at :
      (xs ys : List A) (x v : A) (n : ℕ)
      → n ≡ length xs
      → set_at (xs ++ x ∷ ys) n v ≡ (xs ++ v ∷ []) ++ ys
  set-at [] ys x v n h = rw h
  set-at (y ∷ xs) ys x v n h = rw h (ap (λ zs. y ∷ zs) (set-at xs ys x v (length xs) refl))

reap_at-rest :
    (now : ℕ) (s : Store) (before : List Shard) (sh : Shard) (rest : List Shard) (i : ℕ)
    → s.shards ≡ before ++ sh ∷ rest
    → i ≡ length before
    → reap_at now i s ≡ record s {
      shards = (before ++ (reap_shard now sh s.key_count).0 ∷ []) ++ rest;
      key_count = (reap_shard now sh s.key_count).1;
    }
unfolding reap_at
reap_at-rest now s before sh rest i shards at =
    let kept = reap_shard now sh s.key_count in
    ap
      (λ x. record s {
        shards = set_at s.shards i (reap_shard now x s.key_count).0;
        key_count = (reap_shard now x s.key_count).1;
      })
      (ap (λ xs. get_or xs i []) shards ∙ get_or-at before rest sh [] i at)
    ∙ ap (λ xs. record s { shards = xs; key_count = kept.1 })
        (ap (λ xs. set_at xs i kept.0) shards ∙ set-at before rest sh kept.0 i at)

-- The shards that are done, and those that are left.
reaping-rest :
    (now : ℕ) (ms : List Machine) (files : Files) (s : Store) (before rest : List Shard) (i : ℕ)
    → s.shards ≡ before ++ rest
    → i ≡ length before
    → length before + length rest ≡ 32
    → length ms ≡ suc (length rest)
    → alone ms (record { files = files; store = s }, reaping now i) ≡ (
      record {
        files = files;
        store = record s {
          shards = before ++ (reap_shards now rest s.key_count).0;
          key_count = (reap_shards now rest s.key_count).1;
        };
      },
      reap_returned,
    )
unfolding advance reap_shards
reaping-rest now [] files s before rest i shards at all number = absurd (omega arith)
reaping-rest now (m ∷ []) files s before [] i shards at all number =
    let last : ltb i 32 ≡ false = ground arith in
    rw last (
      ap (λ xs. (record { files = files; store = record s { shards = xs } }, reap_returned)) shards)
reaping-rest now (m ∷ n ∷ ms) files s before [] i shards at all number = absurd (omega arith)
reaping-rest now (m ∷ ms) files s before (sh ∷ rest) i shards at all number =
    let more : ltb i 32 ≡ true = ground arith in
    let kept = reap_shard now sh s.key_count in
    let next : Store = record s { shards = (before ++ kept.0 ∷ []) ++ rest; key_count = kept.1 } in
    let first : reap_at now i s ≡ next = reap_at-rest now s before sh rest i shards at in
    let size = length-append before (kept.0 ∷ []) in
    rw (more, first)
      (reaping-rest now ms files next (before ++ kept.0 ∷ []) rest (suc i) refl
          (omega (arith, size)) (omega (arith, size)) (omega arith)
        ∙ ap
            (λ xs. (
              record {
                files = files;
                store = record s { shards = xs; key_count = (reap_shards now rest kept.1).1 };
              },
              reap_returned,
            ))
            (append_assoc before (kept.0 ∷ []) (reap_shards now rest kept.1).0))

alone-reap :
    (m : Machine) (ms : List Machine) (sh : Shared)
    → IsValid sh.store
    → length ms ≡ 33
    → alone (m ∷ ms) (sh, reap_called)
      ≡ (record sh { store = reap m.now.for_version sh.store }, reap_returned)
unfolding advance reap
alone-reap m ms sh v number =
    reaping-rest m.now.for_version ms sh.files sh.store [] sh.store.shards 0 refl refl
      (omega (arith, v.shard_number)) (omega (arith, v.shard_number))

-- A goroutine that has the store to itself ends as the functions that are read as one step each:
-- the three sections of a Set make up set, those of a Delete delete_key, the two of a Get get, with
-- the readings of the clock at its two checks, and the 32 rounds of a reap of a well-formed store
-- reap, each with the result of that function.
pub alone_lem :
    (m₁ m₂ m₃ : Machine) (ms : List Machine) (key value : Bytes) (ttl : ℤ) (version : ℕ)
    (sh : Shared)
    → IsValid sh.store
    → length ms ≡ 33
    → let wrote = set m₂.disk m₁.now key value ttl version sh.store in
      let erased = delete_key m₂.disk m₁.now.for_version key version sh.store in
      let read = get m₁.now.for_version m₂.now.for_version key sh.store in
      (alone (m₁ ∷ m₂ ∷ m₃ ∷ []) (sh, set_called key value ttl version)
        ≡ (record sh { store = wrote.0 }, set_returned wrote.1))
      × (alone (m₁ ∷ m₂ ∷ m₃ ∷ []) (sh, delete_called key version)
          ≡ (record sh { store = erased.0 }, delete_returned erased.1))
      × (alone (m₁ ∷ m₂ ∷ []) (sh, get_called key)
          ≡ (record sh { store = read.0 }, get_returned read.1))
      × (alone (m₁ ∷ ms) (sh, reap_called)
          ≡ (record sh { store = reap m₁.now.for_version sh.store }, reap_returned))
alone_lem m₁ m₂ m₃ ms key value ttl version sh v number = (
  alone-set m₁ m₂ m₃ key value ttl version sh,
  alone-delete_key m₁ m₂ m₃ key version sh,
  alone-get m₁ m₂ key sh,
  alone-reap m₁ ms sh v number,
)
