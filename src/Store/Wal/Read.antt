-- ===== src/Store/Wal/Read.antt =====
-- Replay of internal/store/wal.go: reading the log back. An io.Reader over a file gives the bytes
-- that are left, and then the end of the file or, if the file is broken, a read error.
pub mod Progress
pub mod Kept
pub mod Replay
pub mod RoundTrip
pub mod Torn
use high_performance_kv_stor.Prelude.{
  ℕ, zero, suc, ◌+◌, ◌*◌, ◌<◌, ◌^◌, Bool, true, false, ◌&&◌, not, [], ◌∷◌, foldl, Option, none,
  some, ltb, leb, nat_beq, length, get_or, take, drop, Bytes, if◌then◌else◌,
}
use high_performance_kv_stor.Store.Entry.{Time, zero_time, instant}
use high_performance_kv_stor.Store.Hash.{crc32}
use high_performance_kv_stor.Store.Wal.{
  Record, Wal, WalError, seek_failed, header_unread, payload_unread, checksum_mismatch,
  corrupt_record, apply_failed,
}

-- io.ReadFull
pub data ReadFull : Type 0 where
  full : Bytes → Bytes → ReadFull
  eof unexpected_eof failed : ReadFull

unfoldable pub read_full : Bool → ℕ → Bytes → ReadFull
read_full broken n input =
    if leb n (length input)
    then full (take n input) (drop n input)
    else if broken
    then failed
    else if nat_beq (length input) 0
    then eof
    else unexpected_eof

-- binary.BigEndian.Uint16, Uint32 and Uint64
unfoldable pub get_uint : Bytes → ℕ
get_uint = foldl (λ acc b. acc * 256 + b) 0

-- `int64(u)`, and the zero time where it is not positive
pub expiry_time : ℕ → Time
expiry_time u = if ltb 0 u && ltb u (2 ^ 63) then instant u else zero_time

-- One round of the loop of Replay.
pub data Round : Type 0 where
  finished : Round
  fault : WalError → Round
  parsed : Record → Bytes → Round

pub parse_payload : Bytes → Bytes → Round
parse_payload payload rest =
    let key_len = get_uint (take 2 (drop 17 payload)) in
    let parsed_record =
      parsed
        (record {
          rec_type = get_or payload 0 0;
          key = take key_len (drop 19 payload);
          value = drop (19 + key_len) payload;
          version = get_uint (take 8 (drop 1 payload));
          expires_at = expiry_time (get_uint (take 8 (drop 9 payload)));
        })
        rest in
    if ltb (length payload) 19
    then fault corrupt_record
    else if ltb (length payload) (19 + key_len)
    then fault corrupt_record
    else parsed_record

pub check_payload : ℕ → Bytes → Bytes → Round
check_payload expected_crc payload rest =
    if nat_beq (crc32 payload) expected_crc
    then parse_payload payload rest
    else fault checksum_mismatch

unfoldable pub read_payload : Bool → Bytes → Bytes → Round
read_payload broken header rest = elim (read_full broken (get_uint (take 4 header)) rest) [
  | full payload after ↦ check_payload (get_uint (drop 4 header)) payload after
  | _ ↦ fault payload_unread
]

unfoldable pub read_round : Bool → Bytes → Round
read_round broken input = elim (read_full broken 8 input) [
  | full header rest ↦ read_payload broken header rest
  | eof ↦ finished
  | unexpected_eof ↦ finished
  | failed ↦ fault header_unread
]

-- The state that the callback has reached, and how the loop ended. `starved` stands for fuel that
-- ran out, which the program has not.
pub data Replayed (S : Type 0) : Type 0 where
  done : S → Replayed S
  stopped : S → WalError → Replayed S
  starved : Replayed S

module _ {S : Type 0} (apply_func : Record → S → S × Bool) (broken : Bool) where
  unfoldable pub replay_loop : ℕ → Bytes → S → Replayed S
  replay_loop zero input s = starved
  replay_loop (suc fuel) input s = elim (read_round broken input) [
    | finished ↦ done s
    | fault e ↦ stopped s e
    | parsed r rest ↦
        let (s', applied) = apply_func r s in
        let more = replay_loop fuel rest s' in if applied then more else stopped s' apply_failed
  ]

unfoldable pub seek_end : {S : Type 0} → Bool → Replayed S → Replayed S
seek_end seeks (done s) = if seeks then done s else stopped s seek_failed
seek_end seeks (stopped s e) = stopped s e
seek_end seeks starved = starved

-- What the file does to a Replay: whether each seek works, and whether its reads end in an error.
pub record Reads : Type 0 where
  pub seeks_start : Bool
  pub seeks_end : Bool
  pub broken : Bool

abbrev pub good_reads : Reads
good_reads = record { seeks_start = true; seeks_end = true; broken = false }

-- Every record takes eight bytes or more, so a fuel above the length of the file is enough.
unfoldable pub replay : {S : Type 0} → (Record → S → S × Bool) → Reads → Wal → S → Replayed S
unfolding replay_loop seek_end
replay apply_func reads w s =
    if reads.seeks_start
    then seek_end reads.seeks_end
        (replay_loop apply_func reads.broken (suc (length w.bytes)) w.bytes s)
    else stopped s seek_failed
