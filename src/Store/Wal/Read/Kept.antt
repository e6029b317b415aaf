-- ===== src/Store/Wal/Read/Kept.antt =====
-- What a callback keeps, Replay of internal/store/wal.go keeps, on every file.
use high_performance_kv_stor.Prelude.{
  ℕ, zero, suc, ◌<◌, ◌≡◌, refl, Bool, arith, length, Bytes, Bool-cases, inl, inr,
}
use high_performance_kv_stor.Store.Wal.{Record, Wal, WalError, apply_failed, seek_failed}
use high_performance_kv_stor.Store.Wal.Read.{
  Replayed, done, stopped, read_round, replay_loop, seek_end, Reads, replay,
}
use high_performance_kv_stor.Store.Wal.Read.Progress.{read_round_shrinks, Round-cases}

-- How a replay may end: with a state that has the property, or with an error, but not for lack of
-- fuel.
pub data IsReplayed {S : Type 0} (P : S → Type 0) (out : Replayed S) : Type 0 where
  complete : (s : S) → out ≡ done s → P s → IsReplayed P out
  broken_off : (s : S) (e : WalError) → out ≡ stopped s e → IsReplayed P out

module _ {S : Type 0} (P : S → Type 0) (f : Record → S → S × Bool)
    (keeps : (r : Record) (s : S) → P s → P (f r s).0) where
  replay_loop-IsReplayed :
      (broken : Bool) (fuel : ℕ) (input : Bytes) (s : S)
      → P s
      → length input < fuel
      → IsReplayed P (replay_loop f broken fuel input s)
  unfolding replay_loop
  replay_loop-IsReplayed broken zero input s p h = absurd (omega arith)
  replay_loop-IsReplayed broken (suc fuel) input s p h =
      elim (Round-cases (read_round broken input)) [
        | inl (r, rest, e) ↦
            let shorter = read_round_shrinks broken input r rest e in
            let more =
              replay_loop-IsReplayed broken fuel rest (f r s).0 (keeps r s p)
                (omega (arith, shorter)) in
            elim (Bool-cases (f r s).1) [
              | inl applied ↦ rw (e, replay_loop) (rw applied more)
              | inr refused ↦
                  rw (e, replay_loop) (rw refused (broken_off (f r s).0 apply_failed refl))
            ]
        | inr (inl e) ↦ rw (e, replay_loop) (complete s refl p)
        | inr (inr (error, e)) ↦ rw (e, replay_loop) (broken_off s error refl)
      ]

  seek_end-IsReplayed :
      (seeks : Bool) (out : Replayed S) → IsReplayed P out → IsReplayed P (seek_end seeks out)
  unfolding seek_end
  seek_end-IsReplayed seeks out (complete s e p) = rw e (elim (Bool-cases seeks) [
    | inl works ↦ rw works (complete s refl p)
    | inr fails ↦ rw fails (broken_off s seek_failed refl)
  ])
  seek_end-IsReplayed seeks out (broken_off s error e) = rw e (broken_off s error refl)

  pub replay-IsReplayed :
      (reads : Reads) (w : Wal) (s : S) → P s → IsReplayed P (replay f reads w s)
  unfolding replay
  replay-IsReplayed reads w s p = elim (Bool-cases reads.seeks_start) [
    | inl works ↦ rw works (
        seek_end-IsReplayed reads.seeks_end _
          (replay_loop-IsReplayed reads.broken (suc (length w.bytes)) w.bytes s p (omega arith)))
    | inr fails ↦ rw fails (broken_off s seek_failed refl)
  ]
