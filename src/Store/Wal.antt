-- ===== src/Store/Wal.antt =====
-- internal/store/wal.go: the write-ahead log and its record format. A file is its bytes; what the
-- disk does to a write is an argument.
pub mod Read
use high_performance_kv_stor.Prelude.{
  ℕ, zero, suc, ◌+◌, ◌/◌, ◌%◌, [], ◌∷◌, ◌++◌, Option, none, some, ltb, length, take, String, Bytes,
  if◌then◌else◌,
}
use high_performance_kv_stor.Store.Entry.{Time, zero_time, instant}
use high_performance_kv_stor.Store.Hash.{crc32}

abbrev pub record_type_set : ℕ
record_type_set = 1

abbrev pub record_type_delete : ℕ
record_type_delete = 2

-- The arguments of Append, which are also those of Replay's callback.
pub record Record : Type 0 where
  pub rec_type : ℕ
  pub key : Bytes
  pub value : Bytes
  pub version : ℕ
  pub expires_at : Time

pub data WalError : Type 0 where
  key_too_long write_failed sync_failed seek_failed : WalError
  header_unread payload_unread checksum_mismatch corrupt_record apply_failed : WalError

pub record Wal : Type 0 where
  pub path : String
  pub bytes : Bytes
  pub size : ℕ

-- What the disk does to one Append: a write that fails has put some first bytes into the file.
pub data Disk : Type 0 where
  healthy : Disk
  write_fails : ℕ → Disk
  sync_fails : Disk

-- binary.BigEndian: the low `w` bytes of a number, the highest first.
unfoldable pub put_uint : ℕ → ℕ → Bytes
put_uint zero n = []
put_uint (suc w) n = put_uint w (n / 256) ++ (n % 256) ∷ []

-- `uint64(expNano)` for the expiry of a record.
pub expiry_nanos : Time → ℕ
expiry_nanos zero_time = 0
expiry_nanos (instant t) = t

-- Type(1), Version(8), ExpiresAt(8), KeyLen(2), Key, Value.
pub encode_payload : Record → Bytes
encode_payload r =
    r.rec_type
    ∷ (put_uint 8 r.version
        ++ (put_uint 8 (expiry_nanos r.expires_at)
            ++ (put_uint 2 (length r.key) ++ (r.key ++ r.value))))

-- Length(4), CRC(4), payload.
pub encode : Record → Bytes
encode r =
    let payload = encode_payload r in
    put_uint 4 (19 + length r.key + length r.value) ++ (put_uint 4 (crc32 payload) ++ payload)

-- The write and the sync of Append: the state of the file, and the error.
unfoldable pub write_sync : Disk → Wal → Bytes → Wal × Option WalError
write_sync healthy w buf = (record w { bytes = w.bytes ++ buf; size = w.size + length buf }, none)
write_sync (write_fails n) w buf = (record w { bytes = w.bytes ++ take n buf }, some write_failed)
write_sync sync_fails w buf =
    (record w { bytes = w.bytes ++ buf; size = w.size + length buf }, some sync_failed)

unfoldable pub append : Disk → Wal → Record → Wal × Option WalError
unfolding write_sync
append disk w r =
    if ltb 65535 (length r.key) then (w, some key_too_long) else write_sync disk w (encode r)
