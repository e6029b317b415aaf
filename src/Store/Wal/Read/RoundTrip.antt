-- ===== src/Store/Wal/Read/RoundTrip.antt =====
-- A record that Append wrote is read back by one round of Replay (internal/store/wal.go).
use mathlib.Core.List.{foldl-append}
use native.Mathlib.Nat.{pow-suc}
use high_performance_kv_stor.Prelude.{
  ℕ, zero, suc, ◌+◌, ◌*◌, ◌/◌, ◌%◌, ◌^◌, ◌≤◌, ◌<◌, ◌≡◌, refl, ◌∙◌, [], ◌∷◌, ◌++◌, arith, length,
  take, drop, drop-append, drop-drop, get_or, Bool, take_exact, drop_exact, length-append, Bytes,
  false, append_assoc,
}
use high_performance_kv_stor.Store.Entry.{Time, zero_time, instant}
use high_performance_kv_stor.Store.Hash.{crc32, crc32-lt}
use high_performance_kv_stor.Store.Wal.{Record, put_uint, expiry_nanos, encode_payload, encode}
use high_performance_kv_stor.Store.Wal.Read.{
  get_uint, expiry_time, read_full, full, parsed, parse_payload, check_payload, read_payload,
  read_round,
}

-- An expiry that survives `uint64(expNano)` and back: the zero time, or an instant after the
-- epoch that an int64 holds.
abbrev IsTimely : Time → Type 0
IsTimely zero_time = Unit
IsTimely (instant t) = (0 < t) × (t < 2 ^ 63)

-- The field widths of the format hold the record.
pub record IsEncodable (r : Record) : Type 0 where
  pub key_fits : length r.key ≤ 65535
  pub payload_fits : 19 + length r.key + length r.value < 2 ^ 32
  pub version_fits : r.version < 2 ^ 64
  pub timely : IsTimely r.expires_at

pub length-put_uint : (w n : ℕ) → length (put_uint w n) ≡ w
unfolding put_uint
length-put_uint zero n = refl
length-put_uint (suc w) n =
    length-append (put_uint w (n / 256)) _ ∙ omega (arith, length-put_uint w (n / 256))

get_uint-append : (bs : Bytes) (b : ℕ) → get_uint (bs ++ b ∷ []) ≡ get_uint bs * 256 + b
unfolding get_uint
get_uint-append bs b = rw foldl-append

pub get_uint-put_uint : (w n : ℕ) → n < 256 ^ w → get_uint (put_uint w n) ≡ n
unfolding put_uint get_uint
get_uint-put_uint zero n h = omega arith
get_uint-put_uint (suc w) n h =
    let h' : n < 256 ^ w * 256 = rw (← pow-suc) h in
    get_uint-append (put_uint w (n / 256)) (n % 256)
    ∙ omega (arith, get_uint-put_uint w (n / 256) (omega arith))

expiry_time-expiry_nanos : (t : Time) → IsTimely t → expiry_time (expiry_nanos t) ≡ t
unfolding expiry_time expiry_nanos
expiry_time-expiry_nanos zero_time h = refl
expiry_time-expiry_nanos (instant t) h = ground arith

expiry_nanos-lt : (t : Time) → IsTimely t → expiry_nanos t < 2 ^ 64
unfolding expiry_nanos
expiry_nanos-lt zero_time h = omega arith
expiry_nanos-lt (instant t) h = omega arith

pub read_full-append :
    (broken : Bool) (n : ℕ) (xs ys : Bytes)
    → length xs ≡ n
    → read_full broken n (xs ++ ys) ≡ full xs ys
unfolding read_full
read_full-append broken n xs ys h =
    ground (arith, take_exact n xs ys, drop-append n xs ys, length-append xs ys)

module _ (r : Record) where
  abbrev version_bytes : Bytes
  version_bytes = put_uint 8 r.version

  abbrev expiry_bytes : Bytes
  expiry_bytes = put_uint 8 (expiry_nanos r.expires_at)

  abbrev key_len_bytes : Bytes
  key_len_bytes = put_uint 2 (length r.key)

  abbrev key_value : Bytes
  key_value = r.key ++ r.value

  version_field : take 8 (drop 1 (encode_payload r)) ≡ version_bytes
  unfolding encode_payload
  version_field = take_exact 8 version_bytes _ (length-put_uint 8 r.version)

  after_version : drop 9 (encode_payload r) ≡ expiry_bytes ++ (key_len_bytes ++ key_value)
  unfolding encode_payload
  after_version = drop_exact 8 0 version_bytes _ (length-put_uint 8 r.version)

  after_expiry : drop 17 (encode_payload r) ≡ key_len_bytes ++ key_value
  unfolding encode_payload
  after_expiry =
      drop_exact 8 8 version_bytes (expiry_bytes ++ (key_len_bytes ++ key_value))
        (length-put_uint 8 r.version)
      ∙ drop_exact 8 0 expiry_bytes _ (length-put_uint 8 (expiry_nanos r.expires_at))

  after_key_len : drop 19 (encode_payload r) ≡ key_value
  unfolding encode_payload
  after_key_len =
      drop_exact 8 10 version_bytes (expiry_bytes ++ (key_len_bytes ++ key_value))
        (length-put_uint 8 r.version)
      ∙ drop_exact 8 2 expiry_bytes (key_len_bytes ++ key_value)
          (length-put_uint 8 (expiry_nanos r.expires_at))
      ∙ drop_exact 2 0 key_len_bytes _ (length-put_uint 2 (length r.key))

  length-encode_payload : length (encode_payload r) ≡ 19 + length r.key + length r.value
  unfolding encode_payload
  length-encode_payload = omega (
    arith,
    length-append version_bytes (expiry_bytes ++ (key_len_bytes ++ key_value)),
    length-append expiry_bytes (key_len_bytes ++ key_value),
    length-append key_len_bytes key_value,
    length-append r.key r.value,
    length-put_uint 8 r.version,
    length-put_uint 8 (expiry_nanos r.expires_at),
    length-put_uint 2 (length r.key),
  )

  pub length-encode : length (encode r) ≡ 27 + length r.key + length r.value
  unfolding encode
  length-encode = omega (
    arith,
    length-append (put_uint 4 (19 + length r.key + length r.value))
        (put_uint 4 (crc32 (encode_payload r)) ++ encode_payload r),
    length-append (put_uint 4 (crc32 (encode_payload r))) (encode_payload r),
    length-put_uint 4 (19 + length r.key + length r.value),
    length-put_uint 4 (crc32 (encode_payload r)),
    length-encode_payload,
  )

  value_field : drop (19 + length r.key) (encode_payload r) ≡ r.value
  value_field =
      drop-drop 19 (length r.key) (encode_payload r)
      ∙ rw after_key_len (drop-append (length r.key) r.key r.value refl)

module _ (r : Record) (ok : IsEncodable r) where
  key_len_field : get_uint (take 2 (drop 17 (encode_payload r))) ≡ length r.key
  key_len_field = rw (after_expiry r) (
      rw
        (take_exact 2 (put_uint 2 (length r.key)) (r.key ++ r.value)
          (length-put_uint 2 (length r.key)))
        (get_uint-put_uint 2 (length r.key) (omega (arith, ok.key_fits))))

  version_number : get_uint (take 8 (drop 1 (encode_payload r))) ≡ r.version
  version_number = rw (version_field r) (get_uint-put_uint 8 r.version ok.version_fits)

  expiry_number : expiry_time (get_uint (take 8 (drop 9 (encode_payload r)))) ≡ r.expires_at
  expiry_number = rw (after_version r) (
      rw
        (take_exact 8 (put_uint 8 (expiry_nanos r.expires_at))
          (put_uint 2 (length r.key) ++ (r.key ++ r.value))
          (length-put_uint 8 (expiry_nanos r.expires_at)))
        (rw
          (get_uint-put_uint 8 (expiry_nanos r.expires_at) (expiry_nanos-lt r.expires_at ok.timely))
          (expiry_time-expiry_nanos r.expires_at ok.timely)))

  key_field : take (length r.key) (drop 19 (encode_payload r)) ≡ r.key
  key_field = rw (after_key_len r) (take_exact (length r.key) r.key r.value refl)

  type_field : get_or (encode_payload r) 0 0 ≡ r.rec_type
  unfolding encode_payload
  type_field = refl

  parse_payload-encode_payload :
      (rest : Bytes) → parse_payload (encode_payload r) rest ≡ parsed r rest
  unfolding parse_payload
  parse_payload-encode_payload rest = ground (
    arith,
    key_len_field,
    version_number,
    expiry_number,
    key_field,
    type_field,
    value_field r,
    length-encode_payload r,
  )

  check_payload-encode_payload :
      (rest : Bytes)
      → check_payload (get_uint (put_uint 4 (crc32 (encode_payload r)))) (encode_payload r) rest
        ≡ parsed r rest
  unfolding check_payload
  check_payload-encode_payload rest =
      rw (get_uint-put_uint 4 (crc32 (encode_payload r)) (crc32-lt (encode_payload r)))
        (ground (arith, parse_payload-encode_payload rest))

  read_payload-encode :
      (rest : Bytes)
      → read_payload false
          (put_uint 4 (19 + length r.key + length r.value) ++ put_uint 4 (crc32 (encode_payload r)))
          (encode_payload r ++ rest)
        ≡ parsed r rest
  unfolding read_payload
  read_payload-encode rest =
      let size = put_uint 4 (19 + length r.key + length r.value) in
      let crc = put_uint 4 (crc32 (encode_payload r)) in
      ground (
        arith,
        take_exact 4 size crc (length-put_uint 4 (19 + length r.key + length r.value)),
        drop-append 4 size crc (length-put_uint 4 (19 + length r.key + length r.value)),
        get_uint-put_uint 4 (19 + length r.key + length r.value) ok.payload_fits,
        read_full-append false (19 + length r.key + length r.value) (encode_payload r) rest
            (length-encode_payload r),
        check_payload-encode_payload rest,
      )

  -- One round of Replay over a log that begins with an encoded record reads exactly that record
  -- and leaves the rest of the log, if the record fits the format's fields and the disk reads well.
  pub read_round-encode : (rest : Bytes) → read_round false (encode r ++ rest) ≡ parsed r rest
  unfolding read_round encode
  read_round-encode rest =
      let size = put_uint 4 (19 + length r.key + length r.value) in
      let crc = put_uint 4 (crc32 (encode_payload r)) in
      let regroup : (size ++ (crc ++ encode_payload r)) ++ rest
          ≡ (size ++ crc) ++ (encode_payload r ++ rest) =
        simp append_assoc in
      let eight : length (size ++ crc) ≡ 8 = omega (
        arith,
        length-append size crc,
        length-put_uint 4 (19 + length r.key + length r.value),
        length-put_uint 4 (crc32 (encode_payload r)),
      ) in
      ground (
        arith,
        regroup,
        read_full-append false 8 (size ++ crc) (encode_payload r ++ rest) eight,
        read_payload-encode rest,
      )
