-- ===== src/Store/Snapshot/Written.antt =====
-- What CreateSnapshot of internal/store/snapshot.go writes where no write fails: the header, and a
-- record of a set for each entry that has not expired.
use high_performance_kv_stor.Prelude.{
  ℕ, suc, ◌+◌, ◌-◌, ◌<◌, ◌≤◌, ◌≡◌, ◌≢◌, refl, sym, ◌∙◌, ap, true, List, [], ◌∷◌, ◌++◌, map, Option,
  none, some, arith, length, get_or, append_assoc, append-nil, All, Bytes, bytes_eq, bytes_beq_iff,
  ◌==◌, nat_beq, nat_beq_iff, if◌then◌else◌, Bool-cases, Option-cases, inl, inr,
}
use mathlib.Core.Path.{subst}
use high_performance_kv_stor.Prelude.Table.{lookup, IsDistinct}
use high_performance_kv_stor.Store.Entry.{Entry, passed, is_expired}
use high_performance_kv_stor.Store.Wal.{encode}
use high_performance_kv_stor.Store.Wal.Read.Replay.{encode_all}
use high_performance_kv_stor.Store.State.{
  Shard, Store, shard_index, get_shard, entry_of, set_record,
}
use high_performance_kv_stor.Store.State.Shards.{IsShard, IsValid, shard_index-lt}
use high_performance_kv_stor.Store.State.Reads.{reaped}
use high_performance_kv_stor.Store.Scan.Listing.{tail_shards}
use high_performance_kv_stor.Store.Snapshot.{write_file, write_shard, write_shards}
use high_performance_kv_stor.Store.Snapshot.Loading.{Pair, record_of_pair, entries_at}

module _ (now : ℕ) where
  abbrev pub live : Shard → List Pair
  live [] = []
  live ((k, e) ∷ sh) = if is_expired now e then live sh else (k, e) ∷ live sh

  abbrev pub all_live : List Shard → List Pair
  all_live [] = []
  all_live (sh ∷ shards) = live sh ++ all_live shards

encode_all-append :
    (ws xs : List Pair)
    → encode_all (map record_of_pair (ws ++ xs))
      ≡ encode_all (map record_of_pair ws) ++ encode_all (map record_of_pair xs)
encode_all-append [] xs = refl
encode_all-append (w ∷ ws) xs =
    ap (λ rest. encode (record_of_pair w) ++ rest) (encode_all-append ws xs)
    ∙ sym (
        append_assoc (encode (record_of_pair w)) (encode_all (map record_of_pair ws))
          (encode_all (map record_of_pair xs)))

module _ (kept : ℕ → Option ℕ) (now : ℕ) where
  -- Where no write fails, each shard adds the records of its live entries to the file.
  write_shard-live :
      (sh : Shard) (i : ℕ) (file : Bytes)
      → (write_shard kept now sh (i, file)).1 ≡ true
      → (write_shard kept now sh (i, file)).0.1
        ≡ file ++ encode_all (map record_of_pair (live now sh))
  unfolding write_shard write_file is_expired
  write_shard-live [] i file h = sym (append-nil file)
  write_shard-live ((k, e) ∷ sh) i file h = elim (Bool-cases (passed now e.expires_at)) [
    | inl old ↦ ground (arith, write_shard-live sh i file)
    | inr fresh ↦
        let buf = encode (set_record k e) in
        elim (Option-cases (kept i)) [
          | inl whole ↦ ground (
            arith,
            write_shard-live sh (suc i) (file ++ buf),
            append_assoc file buf (encode_all (map record_of_pair (live now sh))),
          )
          | inr (n, torn) ↦ absurd (ground arith)
        ]
  ]

  pub write_shards-live :
      (shards : List Shard) (i : ℕ) (file : Bytes)
      → (write_shards kept now shards (i, file)).1 ≡ true
      → (write_shards kept now shards (i, file)).0.1
        ≡ file ++ encode_all (map record_of_pair (all_live now shards))
  unfolding write_shards
  write_shards-live [] i file h = sym (append-nil file)
  write_shards-live (sh ∷ shards) i file h =
      let next = (write_shard kept now sh (i, file)).0 in
      let here = encode_all (map record_of_pair (live now sh)) in
      ground (
        arith,
        write_shard-live sh i file,
        write_shards-live shards next.0 next.1,
        append_assoc file here (encode_all (map record_of_pair (all_live now shards))),
        encode_all-append (live now sh) (all_live now shards),
      )

  module _ (whole : (i : ℕ) → kept i ≡ none) where
    write_shard-works :
        (sh : Shard) (i : ℕ) (file : Bytes) → (write_shard kept now sh (i, file)).1 ≡ true
    unfolding write_shard write_file
    write_shard-works [] i file = refl
    write_shard-works ((k, e) ∷ sh) i file = ground (
      arith,
      whole i,
      write_shard-works sh i file,
      write_shard-works sh (suc i) (file ++ encode (set_record k e)),
    )

    pub write_shards-works :
        (shards : List Shard) (i : ℕ) (file : Bytes)
        → (write_shards kept now shards (i, file)).1 ≡ true
    unfolding write_shards
    write_shards-works [] i file = refl
    write_shards-works (sh ∷ shards) i file =
        let next = (write_shard kept now sh (i, file)).0 in
        ground (arith, write_shard-works sh i file, write_shards-works shards next.0 next.1)

abbrev pub list_of : Option Entry → List Entry
list_of none = []
list_of (some e) = e ∷ []

entries_at-append :
    (j : Bytes) (ws xs : List Pair) → entries_at j (ws ++ xs) ≡ entries_at j ws ++ entries_at j xs
entries_at-append j [] xs = refl
entries_at-append j ((k, e) ∷ ws) xs = ground (arith, entries_at-append j ws xs)

module _ (now : ℕ) (j : Bytes) where
  entries_at-live :
      (sh : Shard) → IsDistinct sh → entries_at j (live now sh) ≡ list_of (reaped now (lookup j sh))
  unfolding lookup
  entries_at-live [] d = refl
  entries_at-live ((k, e) ∷ sh) d = elim (Bool-cases (k == j)) [
    | inl same ↦
        let gone : lookup j sh ≡ none = rw (← (bytes_beq_iff k j).0 same) d.0 in
        ground (arith, entries_at-live sh d.1)
    | inr other ↦ ground (arith, entries_at-live sh d.1)
  ]

  entries_at-misplaced :
      (i : ℕ) (sh : Shard)
      → All (λ kv. shard_index kv.0 ≡ i) sh
      → shard_index j ≢ i
      → entries_at j (live now sh) ≡ []
  entries_at-misplaced i [] placed away = refl
  entries_at-misplaced i ((k, e) ∷ sh) placed away = ground (
    arith,
    entries_at-misplaced i sh placed.1 away,
    bytes_beq_iff k j,
    ap shard_index {x = k} {y = j},
  )

  entries_at-elsewhere :
      (i : ℕ) (shards : List Shard)
      → ((n : ℕ) → IsShard (i + n) (get_or shards n []))
      → shard_index j < i
      → entries_at j (all_live now shards) ≡ []
  entries_at-elsewhere i [] v h = refl
  entries_at-elsewhere i (sh ∷ shards) v h =
      let head = v 0 in
      let away : shard_index j ≢ i + 0 = λ e. omega (arith, e, h) in
      entries_at-append j (live now sh) (all_live now shards)
      ∙ rw (entries_at-misplaced (i + 0) sh head.placed away)
          (entries_at-elsewhere (suc i) shards (tail_shards i sh shards v) (omega arith))

  entries_at-all_live :
      (i : ℕ) (shards : List Shard)
      → ((n : ℕ) → IsShard (i + n) (get_or shards n []))
      → i ≤ shard_index j
      → shard_index j < i + length shards
      → entries_at j (all_live now shards)
        ≡ entries_at j (live now (get_or shards (shard_index j - i) []))
  entries_at-all_live i [] v le lt = absurd (omega arith)
  entries_at-all_live i (sh ∷ shards) v le lt =
      let head = v 0 in
      let both = entries_at-append j (live now sh) (all_live now shards) in
      let at_shard : ℕ → List Entry = λ n. entries_at j (live now (get_or (sh ∷ shards) n [])) in
      elim (Bool-cases (nat_beq (shard_index j) i)) [
        | inl same ↦
            let eq = (nat_beq_iff (shard_index j) i).0 same in
            let first : shard_index j - i ≡ 0 = omega arith in
            both
            ∙ rw (entries_at-elsewhere (suc i) shards (tail_shards i sh shards v) (omega arith))
                (append-nil (entries_at j (live now sh)))
            ∙ ap at_shard (sym first)
        | inr other ↦
            let away : shard_index j ≢ i + 0 = λ e. ground arith in
            let later : shard_index j - i ≡ suc (shard_index j - suc i) = ground arith in
            both
            ∙ rw (entries_at-misplaced (i + 0) sh head.placed away) (
                entries_at-all_live (suc i) shards (tail_shards i sh shards v) (ground arith)
                  (omega arith))
            ∙ ap at_shard (sym later)
      ]

-- A key has exactly one live entry in a well-formed store, or none.
pub entries_at-store :
    (now : ℕ) (s : Store) (j : Bytes)
    → IsValid s
    → entries_at j (all_live now s.shards) ≡ list_of (reaped now (entry_of s j))
unfolding entry_of get_shard
entries_at-store now s j v =
    let here : shard_index j - 0 ≡ shard_index j = omega arith in
    let home = v.shard_valid (shard_index j) in
    entries_at-all_live now j 0 s.shards
      (λ n. subst (λ m. IsShard m (get_or s.shards n [])) (omega arith) (v.shard_valid n))
      (omega arith) (rw v.shard_number (omega (arith, shard_index-lt j)))
    ∙ ap (λ n. entries_at j (live now (get_or s.shards n []))) here
    ∙ entries_at-live now j (get_or s.shards (shard_index j) []) home.distinct
