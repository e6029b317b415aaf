-- ===== src/Store/Snapshot/Restore.antt =====
-- Loading a snapshot that CreateSnapshot of internal/store/snapshot.go has written.
use high_performance_kv_stor.Prelude.{
  ℕ, suc, ◌+◌, ◌≡◌, refl, ◌∙◌, ap, false, List, [], ◌∷◌, ◌++◌, map, Option, none, some, arith,
  length, get_or, All, Bytes, bytes_eq, bytes_beq, bytes_beq_iff, ◌==◌, Bool-cases, inl, inr,
}
use mathlib.Core.Path.{subst}
use high_performance_kv_stor.Prelude.Int.{pos}
use high_performance_kv_stor.Prelude.Table.{lookup, IsDistinct, All-lookup}
use high_performance_kv_stor.Store.Entry.{Entry, is_expired}
use high_performance_kv_stor.Store.Wal.{Wal, put_uint}
use high_performance_kv_stor.Store.Wal.Read.{get_uint}
use high_performance_kv_stor.Store.Wal.Read.RoundTrip.{IsEncodable, read_full-append}
use high_performance_kv_stor.Store.Wal.Read.Replay.{encode_all}
use high_performance_kv_stor.Store.State.{
  Shard, Store, new_store, shard_index, get_shard, entry_of, set_record,
}
use high_performance_kv_stor.Store.State.Shards.{IsShard, IsValid}
use high_performance_kv_stor.Store.State.Invariant.{new_store-IsValid}
use high_performance_kv_stor.Store.State.Reads.{reaped}
use high_performance_kv_stor.Store.Recovery.Session.{entry_of-new_store}
use high_performance_kv_stor.Store.Scan.Listing.{tail_shards}
use high_performance_kv_stor.Store.Snapshot.{
  Files, Volume, CreateError, create_snapshot, snapshot_header, opened, loaded, load_body,
  load_loop, load_snapshot,
}
use high_performance_kv_stor.Store.Snapshot.Loading.{
  Pair, record_of_pair, entries_at, newest, load_all, counted_store, load_all-IsValid,
  entry_of-load_all, load_loop-encode_all,
}
use high_performance_kv_stor.Store.Snapshot.Written.{live, all_live, list_of, entries_at-store}
use high_performance_kv_stor.Store.Snapshot.Outcome.{
  snapshot_bytes, IsSound, create_snapshot-IsSound,
}

-- Every entry fits the fields of the record format.
abbrev pub IsStorable : Store → Type 0
IsStorable s = (j : Bytes) (e : Entry) → entry_of s j ≡ some e → IsEncodable (set_record j e)

abbrev Fits : Pair → Type 0
Fits w = IsEncodable (record_of_pair w)

All-append : (ws xs : List Pair) → All Fits ws → All Fits xs → All Fits (ws ++ xs)
All-append [] xs h k = k
All-append (w ∷ ws) xs h k = (h.0, All-append ws xs h.1 k)

lookup_later :
    (k j : Bytes) (e : Entry) (sh : Shard) {c : Entry}
    → lookup k sh ≡ none
    → lookup j sh ≡ some c
    → lookup j ((k, e) ∷ sh) ≡ some c
unfolding lookup
lookup_later k j e sh absent present = elim (Bool-cases (k == j)) [
  | inl same ↦ absurd (cc (absent, present, (bytes_beq_iff k j).0 same))
  | inr other ↦ rw other present
]

live-Fits :
    (now : ℕ) (sh : Shard)
    → IsDistinct sh
    → ((j : Bytes) (e : Entry) → lookup j sh ≡ some e → Fits (j, e))
    → All Fits (live now sh)
unfolding lookup
live-Fits now [] d h = tt
live-Fits now ((k, e) ∷ sh) d h =
    let rest = live-Fits now sh d.1 (λ j c l. h j c (lookup_later k j e sh d.0 l)) in
    let first = h k e (rw ((bytes_beq_iff k k).1 refl)) in
    elim (Bool-cases (is_expired now e)) [
      | inl old ↦ rw old rest
      | inr fresh ↦ rw fresh (first, rest)
    ]

all_live-Fits :
    (now i : ℕ) (shards : List Shard)
    → ((n : ℕ) → IsShard (i + n) (get_or shards n []))
    → ((n : ℕ) (j : Bytes) (e : Entry) → lookup j (get_or shards n []) ≡ some e → Fits (j, e))
    → All Fits (all_live now shards)
all_live-Fits now i [] v h = tt
all_live-Fits now i (sh ∷ shards) v h =
    let head = v 0 in
    All-append (live now sh) (all_live now shards) (live-Fits now sh head.distinct (h 0))
      (all_live-Fits now (suc i) shards (tail_shards i sh shards v) (λ n. h (suc n)))

pub store-Fits : (now : ℕ) (s : Store) → IsValid s → IsStorable s → All Fits (all_live now s.shards)
unfolding entry_of get_shard
store-Fits now s v h =
    all_live-Fits now 0 s.shards
      (λ n. subst (λ m. IsShard m (get_or s.shards n [])) (omega arith) (v.shard_valid n))
      (λ n j e l.
        let home = v.shard_valid n in
        let index : shard_index j ≡ n = All-lookup _ j e (get_or s.shards n []) home.placed l in
        h j e (ap (λ m. lookup j (get_or s.shards m [])) index ∙ l))

-- The header is read back and leaves the records.
load_snapshot-header :
    (rest : Bytes) (s : Store)
    → load_snapshot (opened false (snapshot_header ++ rest)) s
      ≡ load_loop false (suc (length rest)) rest (s, pos 0)
unfolding load_snapshot load_body snapshot_header put_uint get_uint bytes_beq
load_snapshot-header rest s =
    rw (read_full-append false 6 snapshot_header rest refl, load_snapshot) refl

-- What LoadSnapshot makes of the file of a snapshot.
abbrev pub reload : ℕ → Store → Store
reload now s = counted_store (load_all (all_live now s.shards) (new_store none, pos 0))

newest-list_of : (o : Option Entry) → newest (list_of o) none ≡ o
newest-list_of none = refl
newest-list_of (some e) = refl

-- LoadSnapshot of the file that CreateSnapshot writes for a well-formed store whose entries fit the
-- record format succeeds, in a new store; that store is well-formed, has no log, and holds exactly
-- the entries of the first store that had not expired at the time of the snapshot.
pub load_snapshot-snapshot_bytes :
    (now : ℕ) (s : Store)
    → IsValid s
    → IsStorable s
    → (load_snapshot (opened false (snapshot_bytes now s)) (new_store none)
        ≡ (reload now s, loaded))
      × (IsValid (reload now s)
          × ((j : Bytes) → entry_of (reload now s) j ≡ reaped now (entry_of s j)))
unfolding entry_of get_shard
load_snapshot-snapshot_bytes now s v h =
    let ws = all_live now s.shards in
    let fresh = new_store-IsValid none in
    let bytes = encode_all (map record_of_pair ws) in
    (
      load_snapshot-header bytes (new_store none)
          ∙ load_loop-encode_all (suc (length bytes)) ws (new_store none) (pos 0)
              (store-Fits now s v h) (omega arith),
      (
        load_all-IsValid ws (new_store none) (pos 0) fresh,
        λ j.
            entry_of-load_all ws (new_store none) (pos 0) j fresh
            ∙ ap (newest (entries_at j ws)) (entry_of-new_store none j)
            ∙ ap (λ es. newest es none) (entries_at-store now s j v)
            ∙ newest-list_of (reaped now (entry_of s j)),
      ),
    )

-- A snapshot that was made without an error, and what loading its file gives.
pub record IsReloaded (now : ℕ) (s : Store) (out : Files × Store × Option CreateError)
    : Type 0 where
  pub worked : out.2 ≡ none
  pub file : Bytes
  pub named : out.0.snapshot ≡ some file
  pub store : Store
  pub loads : load_snapshot (opened false file) (new_store none) ≡ (store, loaded)
  pub valid : IsValid store
  pub entries : (j : Bytes) → entry_of store j ≡ reaped now (entry_of s j)

-- On a disk on which every step works, CreateSnapshot of a well-formed store with a log, whose
-- entries fit the record format, returns no error, and LoadSnapshot of its file into a new store
-- succeeds: that store is well formed and holds exactly the entries that had not expired at the
-- time of the snapshot.
pub load_snapshot-create_snapshot :
    (vol : Volume) (now : ℕ) (files : Files) (s : Store) (w : Wal)
    → s.wal ≡ some w
    → IsSound vol
    → IsValid s
    → IsStorable s
    → IsReloaded now s (create_snapshot vol now files s)
load_snapshot-create_snapshot vol now files s w linked ok v h =
    let made = create_snapshot-IsSound vol now files s w linked ok in
    let (loads, (valid, entries)) = load_snapshot-snapshot_bytes now s v h in
    rw made (record {
      worked = refl;
      file = snapshot_bytes now s;
      named = refl;
      store = reload now s;
      loads = loads;
      valid = valid;
      entries = entries;
    })
