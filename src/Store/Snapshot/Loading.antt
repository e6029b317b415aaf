-- ===== src/Store/Snapshot/Loading.antt =====
-- Loading the records of sets (LoadSnapshot of internal/store/snapshot.go).
use high_performance_kv_stor.Prelude.{
  ℕ, zero, suc, ◌<◌, ◌≡◌, refl, ◌∙◌, ap, false, List, [], ◌∷◌, map, Option, none, some, arith,
  length, length-append, All, Bytes, bytes_eq, bytes_beq_iff, ◌==◌, ltb, if◌then◌else◌, Bool-cases,
  Option-cases, inl, inr,
}
use high_performance_kv_stor.Prelude.Int.{ℤ}
use high_performance_kv_stor.Prelude.Table.{lookup}
use high_performance_kv_stor.Store.Entry.{Entry}
use high_performance_kv_stor.Store.Wal.{Record, encode}
use high_performance_kv_stor.Store.Wal.Read.RoundTrip.{
  IsEncodable, read_round-encode, length-encode,
}
use high_performance_kv_stor.Store.Wal.Read.Replay.{encode_all, read_round_short}
use high_performance_kv_stor.Store.State.{Store, get_shard, set_shard, entry_of, set_record}
use high_performance_kv_stor.Store.State.Shards.{IsValid, entry_of-insert}
use high_performance_kv_stor.Store.State.Invariant.{
  same_map-IsValid, insert_new-IsValid, insert_old-IsValid,
}
use high_performance_kv_stor.Store.State.Writes.{unchanged_at}
use high_performance_kv_stor.Store.Snapshot.{loaded, load_entry, load_record, load_loop}

abbrev pub Pair : Type 0
Pair = Bytes × Entry

abbrev pub load_all : List Pair → Store × ℤ → Store × ℤ
load_all [] at = at
load_all ((key, e) ∷ ws) at = load_all ws (load_entry key e at)

abbrev pub record_of_pair : Pair → Record
record_of_pair w = set_record w.0 w.1

-- What a loaded entry makes of the one that the key has.
abbrev pub newer : Option Entry → Entry → Entry
newer none e = e
newer (some c) e = if ltb c.version e.version then e else c

-- The store with the count of the load as its count of keys.
abbrev pub counted_store : Store × ℤ → Store
counted_store (s, n) = record s { key_count = n }

pub load_entry-IsValid :
    (key : Bytes) (e : Entry) (s : Store) (n : ℤ)
    → IsValid (counted_store (s, n))
    → IsValid (counted_store (load_entry key e (s, n)))
unfolding load_entry set_shard get_shard
load_entry-IsValid key e s n v = elim (Option-cases (lookup key (get_shard s key))) [
  | inl absent ↦
      rw (absent, load_entry) (same_map-IsValid (insert_new-IsValid v key e absent) refl refl)
  | inr (c, present) ↦
      rw (present, load_entry)
        (elim (Bool-cases (ltb c.version e.version)) [
          | inl fresh ↦ rw fresh (same_map-IsValid (insert_old-IsValid v key e c present) refl refl)
          | inr stale ↦ rw stale v
        ])
]

entry_of-load_entry :
    (key : Bytes) (e : Entry) (s : Store) (n : ℤ) (j : Bytes)
    → length s.shards ≡ 32
    → entry_of (load_entry key e (s, n)).0 j
      ≡ (if key == j then some (newer (entry_of s key) e) else entry_of s j)
unfolding load_entry entry_of set_shard get_shard
entry_of-load_entry key e s n j number = elim (Option-cases (lookup key (get_shard s key))) [
  | inl absent ↦ rw (absent, load_entry) (entry_of-insert s number key e j)
  | inr (c, present) ↦
      rw (present, load_entry)
        (elim (Bool-cases (ltb c.version e.version)) [
          | inl fresh ↦ rw fresh (entry_of-insert s number key e j)
          | inr stale ↦ rw stale (unchanged_at s number key j present)
        ])
]

pub load_all-IsValid :
    (ws : List Pair) (s : Store) (n : ℤ)
    → IsValid (counted_store (s, n))
    → IsValid (counted_store (load_all ws (s, n)))
load_all-IsValid [] s n v = v
load_all-IsValid ((key, e) ∷ ws) s n v =
    load_all-IsValid ws (load_entry key e (s, n)).0 (load_entry key e (s, n)).1
      (load_entry-IsValid key e s n v)

wal-load_entry :
    (key : Bytes) (e : Entry) (s : Store) (n : ℤ) → (load_entry key e (s, n)).0.wal ≡ s.wal
unfolding load_entry set_shard
wal-load_entry key e s n = ground arith

pub wal-load_all : (ws : List Pair) (s : Store) (n : ℤ) → (load_all ws (s, n)).0.wal ≡ s.wal
wal-load_all [] s n = refl
wal-load_all ((key, e) ∷ ws) s n =
    let next = load_entry key e (s, n) in wal-load_all ws next.0 next.1 ∙ wal-load_entry key e s n

-- The entries of one key, in order.
abbrev pub entries_at : Bytes → List Pair → List Entry
entries_at j [] = []
entries_at j ((k, e) ∷ ws) = if k == j then e ∷ entries_at j ws else entries_at j ws

abbrev pub newest : List Entry → Option Entry → Option Entry
newest [] o = o
newest (e ∷ es) o = newest es (some (newer o e))

-- A load leaves each key with the newest of its entries.
pub entry_of-load_all :
    (ws : List Pair) (s : Store) (n : ℤ) (j : Bytes)
    → IsValid (counted_store (s, n))
    → entry_of (load_all ws (s, n)).0 j ≡ newest (entries_at j ws) (entry_of s j)
entry_of-load_all [] s n j v = refl
entry_of-load_all ((key, e) ∷ ws) s n j v =
    let next = load_entry key e (s, n) in
    let step = entry_of-load_entry key e s n j v.shard_number in
    entry_of-load_all ws next.0 next.1 j (load_entry-IsValid key e s n v)
    ∙ elim (Bool-cases (key == j)) [
      | inl same ↦
          let eq : key ≡ j = (bytes_beq_iff key j).0 same in
          let here : entry_of next.0 j ≡ some (newer (entry_of s j) e) =
            step ∙ rw same (ap (λ k. some (newer (entry_of s k) e)) eq) in
          ap (newest (entries_at j ws)) here ∙ rw same
      | inr other ↦
          let here : entry_of next.0 j ≡ entry_of s j = step ∙ rw other in
          ap (newest (entries_at j ws)) here ∙ rw other
    ]

load_record-set :
    (w : Pair) (at : Store × ℤ) → load_record (record_of_pair w) at ≡ load_entry w.0 w.1 at
unfolding load_record
load_record-set w at = refl

pub load_loop-encode_all :
    (fuel : ℕ) (ws : List Pair) (s : Store) (n : ℤ)
    → All (λ w. IsEncodable (record_of_pair w)) ws
    → length (encode_all (map record_of_pair ws)) < fuel
    → load_loop false fuel (encode_all (map record_of_pair ws)) (s, n)
      ≡ (counted_store (load_all ws (s, n)), loaded)
unfolding load_loop
load_loop-encode_all zero ws s n ok h = absurd (omega arith)
load_loop-encode_all (suc fuel) [] s n ok h = rw (read_round_short [] (omega arith), load_loop)
load_loop-encode_all (suc fuel) (w ∷ ws) s n ok h =
    let r = record_of_pair w in
    let more = encode_all (map record_of_pair ws) in
    rw (read_round-encode r ok.0 more, load_loop)
      (let next = load_entry w.0 w.1 (s, n) in
        ap (load_loop false fuel more) (load_record-set w (s, n))
        ∙ load_loop-encode_all fuel ws next.0 next.1 ok.1
            (omega (arith, length-append (encode r) more, length-encode r)))
