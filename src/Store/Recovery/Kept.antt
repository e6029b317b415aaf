-- ===== src/Store/Recovery/Kept.antt =====
-- The replay of cmd/server/main.go keeps a store well formed, whatever the log holds.
use high_performance_kv_stor.Prelude.{ℕ, nat_beq, Bool-cases, inl, inr}
use high_performance_kv_stor.Store.Wal.{Record, Wal, healthy, record_type_set, record_type_delete}
use high_performance_kv_stor.Store.Wal.Read.{Reads}
use high_performance_kv_stor.Store.Wal.Read.Kept.{IsReplayed, replay-IsReplayed}
use high_performance_kv_stor.Store.State.{Store, Result, ok, err}
use high_performance_kv_stor.Store.State.Shards.{IsValid}
use high_performance_kv_stor.Store.State.Invariant.{set-IsValid, delete_key-IsValid}
use high_performance_kv_stor.Store.Recovery.{
  Reading, remaining, lapsed, succeeded, replay_set, replay_record, callback, replay_log,
}

succeeded-IsValid {ℓ} :
    {A : Type ℓ} (out : Store × Result A) → IsValid out.0 → IsValid (succeeded out).0
succeeded-IsValid (s, ok a) v = v
succeeded-IsValid (s, err e) v = v

replay_set-IsValid :
    (now : Reading) (r : Record) (s : Store) → IsValid s → IsValid (replay_set now r s).0
unfolding replay_set
replay_set-IsValid now r s v = elim (Bool-cases (lapsed now.for_until r.expires_at)) [
  | inl old ↦ rw old v
  | inr live ↦ rw live (
      succeeded-IsValid _ (
        set-IsValid v healthy now.inside r.key r.value (remaining now.for_until r.expires_at)
          r.version))
]

replay_record-IsValid :
    (now : Reading) (r : Record) (s : Store) → IsValid s → IsValid (replay_record now r s).0
unfolding replay_record
replay_record-IsValid now r s v = elim (Bool-cases (nat_beq r.rec_type record_type_set)) [
  | inl sets ↦ rw sets (replay_set-IsValid now r s v)
  | inr not_set ↦ elim (Bool-cases (nat_beq r.rec_type record_type_delete)) [
    | inl deletes ↦
        rw (not_set, deletes)
          (succeeded-IsValid _
            (delete_key-IsValid v healthy now.inside.for_version r.key r.version))
    | inr other ↦ rw (not_set, other) v
  ]
]

-- A replay of any log, with any reads of it, ends with a well-formed store or with an error.
pub replay_log-IsReplayed :
    (clock : ℕ → Reading) (reads : Reads) (w : Wal) (s : Store)
    → IsValid s
    → IsReplayed (λ at. IsValid at.1) (replay_log clock reads w s)
replay_log-IsReplayed clock reads w s v =
    replay-IsReplayed (λ at. IsValid at.1) (callback clock)
      (λ r at p. replay_record-IsValid (clock at.0) r at.1 p) reads w (0, s) v
