-- ===== src/Store/Wal/Read/Replay.antt =====
-- Replay of a log that Append wrote applies its records in order (internal/store/wal.go).
use high_performance_kv_stor.Prelude.{
  ℕ, zero, suc, ◌<◌, ◌≡◌, Bool, false, List, [], ◌∷◌, ◌++◌, arith, length, length-append, All,
  Bytes, append_assoc, if◌then◌else◌,
}
use high_performance_kv_stor.Store.Wal.{Record, Wal, encode, apply_failed}
use high_performance_kv_stor.Store.Wal.Read.{
  Replayed, done, stopped, read_full, read_round, replay_loop, replay, good_reads, finished,
}
use high_performance_kv_stor.Store.Wal.Read.RoundTrip.{
  IsEncodable, read_round-encode, length-encode,
}

abbrev pub encode_all : List Record → Bytes
encode_all [] = []
encode_all (r ∷ rs) = encode r ++ encode_all rs

-- What a replay of these records is to do: the callback takes them in order, up to the first that
-- it refuses.
abbrev pub apply_all : {S : Type 0} → (Record → S → S × Bool) → List Record → S → Replayed S
apply_all f [] s = done s
apply_all f (r ∷ rs) s =
    let rest = apply_all f rs (f r s).0 in
    if (f r s).1 then rest else stopped (f r s).0 apply_failed

pub read_round_short : (tail : Bytes) → length tail < 8 → read_round false tail ≡ finished
unfolding read_round read_full
read_round_short tail h = ground arith

module _ {S : Type 0} (f : Record → S → S × Bool) where
  replay_loop-encode_all :
      (fuel : ℕ) (rs : List Record) (tail : Bytes) (s : S)
      → All IsEncodable rs
      → length tail < 8
      → length (encode_all rs ++ tail) < fuel
      → replay_loop f false fuel (encode_all rs ++ tail) s ≡ apply_all f rs s
  unfolding replay_loop
  replay_loop-encode_all zero rs tail s ok short h = absurd (omega arith)
  replay_loop-encode_all (suc fuel) [] tail s ok short h =
      ground (arith, read_round_short tail short)
  replay_loop-encode_all (suc fuel) (r ∷ rs) tail s ok short h =
      let regroup : (encode r ++ encode_all rs) ++ tail ≡ encode r ++ (encode_all rs ++ tail) =
        append_assoc (encode r) (encode_all rs) tail in
      ground (
        arith,
        regroup,
        read_round-encode r ok.0 (encode_all rs ++ tail),
        length-append (encode r) (encode_all rs ++ tail),
        length-encode r,
        replay_loop-encode_all fuel rs tail (f r s).0 ok.1 short,
      )

module _ {S : Type 0} (f : Record → S → S × Bool) (w : Wal) (rs : List Record) (tail : Bytes)
    (written : w.bytes ≡ encode_all rs ++ tail) (ok : All IsEncodable rs) where
  -- Replay of a log that holds encoded records and then at most seven bytes of another (a write
  -- that stopped inside a record's header) gives the callback every record, in order and unchanged,
  -- up to the first that the callback refuses.
  pub replay-encode_all : (s : S) → length tail < 8 → replay f good_reads w s ≡ apply_all f rs s
  unfolding replay
  replay-encode_all s short = rw written (
      ground
        (arith, replay_loop-encode_all f (suc (length (encode_all rs ++ tail))) rs tail s ok short))
