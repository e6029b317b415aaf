-- ===== src/Store/Wal/Read/Torn.antt =====
-- Logs that end inside a record: what Append leaves when a write fails, and what Replay makes of it
-- (internal/store/wal.go).
use high_performance_kv_stor.Prelude.{
  ℕ, zero, suc, ◌+◌, ◌≤◌, ◌<◌, ◌≡◌, Bool, false, List, [], ◌∷◌, ◌++◌, arith, length, length-append,
  All, Bytes, append_assoc, take, drop, length-take, take_exact, if◌then◌else◌, append-nil, ltb,
  ltb→lt, ltb→ge, Bool-cases, inl, inr, sym, ◌∙◌, take-take, length-drop,
}
use high_performance_kv_stor.Store.Wal.{
  Record, Wal, WalError, healthy, write_fails, encode, append, write_sync, payload_unread, put_uint,
  encode_payload,
}
use high_performance_kv_stor.Store.Hash.{crc32}
use high_performance_kv_stor.Store.Wal.Read.{
  fault, Replayed, done, stopped, starved, read_full, read_round, read_payload, replay_loop, replay,
  good_reads, get_uint,
}
use high_performance_kv_stor.Store.Wal.Read.RoundTrip.{
  IsEncodable, read_round-encode, length-encode, length-put_uint, get_uint-put_uint,
}
use high_performance_kv_stor.Store.Wal.Read.Replay.{encode_all, apply_all, replay-encode_all}

encode_all-append :
    (rs : List Record) (r : Record) → encode_all (rs ++ r ∷ []) ≡ encode_all rs ++ encode r
encode_all-append [] r = append-nil (encode r)
encode_all-append (q ∷ rs) r = rw (encode_all-append rs r) (simp append_assoc)

pub encode_all-IsEncodable :
    (rs : List Record) (r : Record)
    → All IsEncodable rs
    → IsEncodable r
    → All IsEncodable (rs ++ r ∷ [])
encode_all-IsEncodable [] r h ok = (ok, tt)
encode_all-IsEncodable (q ∷ rs) r h ok = (h.0, encode_all-IsEncodable rs r h.1 ok)

-- The first four bytes of a record are its length.
size_field :
    (r : Record) → IsEncodable r → get_uint (take 4 (encode r)) ≡ 19 + length r.key + length r.value
unfolding encode
size_field r ok =
    let size = put_uint 4 (19 + length r.key + length r.value) in
    rw
      (take_exact 4 size (put_uint 4 (crc32 (encode_payload r)) ++ encode_payload r)
        (length-put_uint 4 (19 + length r.key + length r.value)))
      (get_uint-put_uint 4 (19 + length r.key + length r.value) ok.payload_fits)

read_payload_short :
    (header after : Bytes)
    → length after < get_uint (take 4 header)
    → read_payload false header after ≡ fault payload_unread
unfolding read_payload read_full
read_payload_short header after h = ground arith

read_round_torn :
    (r : Record) (n : ℕ)
    → IsEncodable r
    → 8 ≤ n
    → n < length (encode r)
    → read_round false (take n (encode r)) ≡ fault payload_unread
unfolding read_round read_full
read_round_torn r n ok le lt =
    let input = take n (encode r) in
    let long : length input ≡ n = length-take n (encode r) (omega arith) in
    let header : take 4 (take 8 input) ≡ take 4 (encode r) =
      take-take 4 8 input (omega arith) ∙ take-take 4 n (encode r) (omega arith) in
    let short : length (drop 8 input) < get_uint (take 4 (take 8 input)) =
      rw (header, size_field r ok) (omega (arith, length-drop 8 input, length-encode r)) in
    ground (arith, read_payload_short (take 8 input) (drop 8 input) short)

-- What a fault after the last whole record makes of a replay.
abbrev pub then_fault : {S : Type 0} → WalError → Replayed S → Replayed S
then_fault e (done s) = stopped s e
then_fault e (stopped s d) = stopped s d
then_fault e starved = starved

replay_loop_fault :
    {S : Type 0} (f : Record → S → S × Bool) (e : WalError) (fuel : ℕ) (rs : List Record)
    (tail : Bytes) (s : S)
    → All IsEncodable rs
    → read_round false tail ≡ fault e
    → length (encode_all rs ++ tail) < fuel
    → replay_loop f false fuel (encode_all rs ++ tail) s ≡ then_fault e (apply_all f rs s)
unfolding replay_loop
replay_loop_fault f e zero rs tail s ok ends h = absurd (omega arith)
replay_loop_fault f e (suc fuel) [] tail s ok ends h = ground arith
replay_loop_fault f e (suc fuel) (r ∷ rs) tail s ok ends h =
    let regroup : (encode r ++ encode_all rs) ++ tail ≡ encode r ++ (encode_all rs ++ tail) =
      append_assoc (encode r) (encode_all rs) tail in
    ground (
      arith,
      regroup,
      read_round-encode r ok.0 (encode_all rs ++ tail),
      length-append (encode r) (encode_all rs ++ tail),
      length-encode r,
      replay_loop_fault f e fuel rs tail (f r s).0 ok.1 ends,
    )

pub bytes-append :
    (w : Wal) (r : Record) (rs : List Record)
    → w.bytes ≡ encode_all rs
    → length r.key ≤ 65535
    → (append healthy w r).0.bytes ≡ encode_all (rs ++ r ∷ [])
unfolding append write_sync
bytes-append w r rs written fits = rw (encode_all-append rs r) (ground arith)

module _ {S : Type 0} (f : Record → S → S × Bool) (w : Wal) (r : Record) (rs : List Record)
    (written : w.bytes ≡ encode_all rs) (ok : All IsEncodable rs) (ok_new : IsEncodable r) where
  append_healthy : (append healthy w r).0.bytes ≡ encode_all (rs ++ r ∷ [])
  append_healthy = bytes-append w r rs written ok_new.key_fits

  -- After an Append that returned without an error, Replay of the log gives the callback the
  -- records that were there before and then the new one.
  pub replay-append :
      (s : S) → replay f good_reads (append healthy w r).0 s ≡ apply_all f (rs ++ r ∷ []) s
  replay-append s =
      replay-encode_all f (append healthy w r).0 (rs ++ r ∷ []) []
        (append_healthy ∙ sym (append-nil (encode_all (rs ++ r ∷ []))))
        (encode_all-IsEncodable rs r ok ok_new) s (omega arith)

  append_cut : (n : ℕ) → (append (write_fails n) w r).0.bytes ≡ encode_all rs ++ take n (encode r)
  unfolding append write_sync
  append_cut n = ground (arith, ok_new.key_fits)

  torn_replay :
      (n : ℕ) (s : S)
      → 8 ≤ n
      → n < length (encode r)
      → replay f good_reads (append (write_fails n) w r).0 s
        ≡ then_fault payload_unread (apply_all f rs s)
  unfolding replay
  torn_replay n s le lt = rw (append_cut n) (
      ground (
        arith,
        replay_loop_fault f payload_unread (suc (length (encode_all rs ++ take n (encode r)))) rs
            (take n (encode r)) s ok (read_round_torn r n ok_new le lt),
      ))

  -- When the disk keeps only the first n bytes of a record, fewer than the whole, Replay of the
  -- log applies every earlier record; then it ends normally if the cut lies in the record's
  -- eight-byte header, and otherwise it returns the error of an unreadable payload.
  pub replay-append_torn :
      (n : ℕ) (s : S)
      → n < length (encode r)
      → replay f good_reads (append (write_fails n) w r).0 s
        ≡ (if ltb n 8 then apply_all f rs s else then_fault payload_unread (apply_all f rs s))
  replay-append_torn n s lt = elim (Bool-cases (ltb n 8)) [
    | inl short ↦ rw short (
        replay-encode_all f (append (write_fails n) w r).0 rs (take n (encode r)) (append_cut n) ok
          s (rw (length-take n (encode r) (omega arith)) (ltb→lt n 8 short)))
    | inr long ↦ rw long (torn_replay n s (ltb→ge n 8 long) lt)
  ]
