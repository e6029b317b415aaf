-- ===== src/Store/Snapshot/Ends.antt =====
-- LoadSnapshot of internal/store/snapshot.go ends on every file.
use high_performance_kv_stor.Prelude.{
  ℕ, zero, suc, ◌<◌, ◌≡◌, ◌≢◌, ◌⊎◌, refl, Bool, take, drop, none, arith, length, Bytes, bytes_eq,
  ◌==◌, nat_beq, Bool-cases, inl, inr,
}
use high_performance_kv_stor.Prelude.Int.{ℤ, pos}
use high_performance_kv_stor.Store.Wal.{Record, record_type_set}
use high_performance_kv_stor.Store.Wal.Read.{
  ReadFull, full, eof, unexpected_eof, failed, read_full, get_uint, read_round,
}
use high_performance_kv_stor.Store.Wal.Read.Progress.{read_round_shrinks, Round-cases}
use high_performance_kv_stor.Store.State.{Store, new_store}
use high_performance_kv_stor.Store.State.Shards.{IsValid}
use high_performance_kv_stor.Store.State.Invariant.{new_store-IsValid}
use high_performance_kv_stor.Store.Snapshot.{
  opened, LoadError, header_missing, bad_magic, unsupported_version, bad_record, out_of_fuel, Load,
  loaded, load_failed, snapshot_magic, snapshot_version, load_record, load_loop, load_body,
  load_snapshot,
}
use high_performance_kv_stor.Store.Snapshot.Loading.{counted_store, load_entry-IsValid}

-- How a load of a file that is there may end: with a well-formed store, or with an error, which is
-- never that of the fuel.
pub data IsEnded (out : Store × Load) : Type 0 where
  filled : out.1 ≡ loaded → IsValid out.0 → IsEnded out
  refused : (e : LoadError) → out.1 ≡ load_failed e → e ≢ out_of_fuel → IsEnded out

load_record-IsValid :
    (r : Record) (s : Store) (n : ℤ)
    → IsValid (counted_store (s, n))
    → IsValid (counted_store (load_record r (s, n)))
unfolding load_record
load_record-IsValid r s n v = elim (Bool-cases (nat_beq r.rec_type record_type_set)) [
  | inl sets ↦ rw sets (load_entry-IsValid r.key _ s n v)
  | inr ignored ↦ rw ignored v
]

load_loop-IsEnded :
    (broken : Bool) (fuel : ℕ) (input : Bytes) (s : Store) (n : ℤ)
    → IsValid (counted_store (s, n))
    → length input < fuel
    → IsEnded (load_loop broken fuel input (s, n))
unfolding load_loop
load_loop-IsEnded broken zero input s n v h = absurd (omega arith)
load_loop-IsEnded broken (suc fuel) input s n v h = elim (Round-cases (read_round broken input)) [
  | inl (r, rest, e) ↦
      let shorter = read_round_shrinks broken input r rest e in
      let next = load_record r (s, n) in
      rw (e, load_loop)
        (load_loop-IsEnded broken fuel rest next.0 next.1 (load_record-IsValid r s n v)
          (omega (arith, shorter)))
  | inr (inl e) ↦ rw (e, load_loop) (filled refl v)
  | inr (inr (error, e)) ↦ rw (e, load_loop) (refused (bad_record error) refl (λ same. cc same))
]

load_body-IsEnded :
    (broken : Bool) (header rest : Bytes) (s : Store)
    → IsValid (counted_store (s, pos 0))
    → IsEnded (load_body broken header rest s)
unfolding load_body
load_body-IsEnded broken header rest s v = elim (Bool-cases (take 4 header == snapshot_magic)) [
  | inr other ↦ rw other (refused bad_magic refl (λ same. cc same))
  | inl magic ↦ elim (Bool-cases (nat_beq (get_uint (drop 4 header)) snapshot_version)) [
    | inr later ↦ rw (magic, later) (refused unsupported_version refl (λ same. cc same))
    | inl current ↦
        rw (magic, current)
          (load_loop-IsEnded broken (suc (length rest)) rest s (pos 0) v (omega arith))
  ]
]

ReadFull-cases :
    (x : ReadFull)
    → ((header : Bytes) × (rest : Bytes) × (x ≡ full header rest))
      ⊎ ((x ≡ eof) ⊎ (x ≡ unexpected_eof) ⊎ (x ≡ failed))
ReadFull-cases (full header rest) = inl (header, rest, refl)
ReadFull-cases eof = inr (inl refl)
ReadFull-cases unexpected_eof = inr (inr (inl refl))
ReadFull-cases failed = inr (inr (inr refl))

-- Whatever bytes snapshot.bin holds, and whether or not a read of it fails, LoadSnapshot of it into
-- a new store ends: with a well-formed store, or with an error. The fuel of its loop never runs out.
pub load_snapshot-IsEnded :
    (broken : Bool) (bytes : Bytes) → IsEnded (load_snapshot (opened broken bytes) (new_store none))
unfolding load_snapshot
load_snapshot-IsEnded broken bytes =
    let short = refused header_missing refl (λ same. cc same) in
    elim (ReadFull-cases (read_full broken 6 bytes)) [
      | inl (header, rest, e) ↦
          rw (e, load_snapshot)
            (load_body-IsEnded broken header rest (new_store none) (new_store-IsValid none))
      | inr (inl e) ↦ rw (e, load_snapshot) short
      | inr (inr (inl e)) ↦ rw (e, load_snapshot) short
      | inr (inr (inr e)) ↦ rw (e, load_snapshot) short
    ]
