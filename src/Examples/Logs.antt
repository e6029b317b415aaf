-- ===== src/Examples/Logs.antt =====
-- Runs of the theorems on the log.
use high_performance_kv_stor.Prelude.{
  ℕ, suc, ◌≡◌, refl, sym, append-nil, Bool, true, false, [], ◌∷◌, ◌++◌, arith, Bytes,
}
use high_performance_kv_stor.Store.Wal.{Record, write_fails, append, encode, payload_unread}
use high_performance_kv_stor.Store.Wal.Read.{replay, good_reads}
use high_performance_kv_stor.Store.Wal.Read.RoundTrip.{read_round-encode, length-encode}
use high_performance_kv_stor.Store.Wal.Read.Progress.{IsChecked, read_round-IsChecked}
use high_performance_kv_stor.Store.Wal.Read.Replay.{apply_all, replay-encode_all}
use high_performance_kv_stor.Store.Wal.Read.Torn.{then_fault, replay-append_torn}
use high_performance_kv_stor.Examples.Data.{
  first_record, second_record, first_record-IsEncodable, second_record-IsEncodable, first_wal,
}

-- A callback that counts the records and refuses none.
abbrev counting : Record → ℕ → ℕ × Bool
counting r n = (suc n, true)

read_round-IsChecked_example :
    (header : Bytes) × (payload : Bytes) × IsChecked header payload
      (7 ∷ [])
      (encode first_record ++ 7 ∷ [])
read_round-IsChecked_example =
    read_round-IsChecked false (encode first_record ++ 7 ∷ []) first_record (7 ∷ [])
      (read_round-encode first_record first_record-IsEncodable (7 ∷ []))

replay-encode_all_example :
    replay counting good_reads first_wal 0 ≡ apply_all counting (first_record ∷ []) 0
replay-encode_all_example =
    replay-encode_all counting first_wal (first_record ∷ []) []
      (sym (append-nil (encode first_record ++ []))) (first_record-IsEncodable, tt) 0 (omega arith)

replay-append_torn_example :
    replay counting good_reads (append (write_fails 12) first_wal second_record).0 0
    ≡ then_fault payload_unread (apply_all counting (first_record ∷ []) 0)
replay-append_torn_example =
    replay-append_torn counting first_wal second_record (first_record ∷ []) refl
      (first_record-IsEncodable, tt) second_record-IsEncodable 12 0
      (rw (length-encode second_record) (omega arith))
