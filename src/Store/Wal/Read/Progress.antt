-- ===== src/Store/Wal/Read/Progress.antt =====
-- Replay ends on every file, and takes no record whose checksum does not match
-- (internal/store/wal.go).
use high_performance_kv_stor.Prelude.{
  ℕ, zero, suc, ◌≤◌, ◌<◌, ◌≡◌, ◌≢◌, refl, ◌⊎◌, Bool, inl, inr, arith, length, take, drop,
  length-drop, length-take, Bytes, ◌++◌, take-append-drop,
}
use high_performance_kv_stor.Store.Hash.{crc32}
use high_performance_kv_stor.Store.Wal.{Record, WalError}
use high_performance_kv_stor.Store.Wal.Read.{
  get_uint, read_full, Round, finished, fault, parsed, parse_payload, check_payload, read_payload,
  read_round, starved, replay_loop,
}

parse_payload-rest :
    (payload after : Bytes) {r : Record} {rest : Bytes}
    → parse_payload payload after ≡ parsed r rest
    → (rest ≡ after) × (19 ≤ length payload)
unfolding parse_payload
parse_payload-rest payload after h = ground arith

check_payload-rest :
    (crc : ℕ) (payload after : Bytes) {r : Record} {rest : Bytes}
    → check_payload crc payload after ≡ parsed r rest
    → (rest ≡ after) × (19 ≤ length payload) × (crc32 payload ≡ crc)
unfolding check_payload
check_payload-rest crc payload after {r} {rest} h =
    ground (arith, parse_payload-rest payload after {r = r} {rest = rest})

-- The record that a round took: `payload` follows its header, has the length and the checksum
-- that the header says, and `rest` follows it.
pub record IsChecked (header payload rest input : Bytes) : Type 0 where
  pub layout : input ≡ header ++ (payload ++ rest)
  pub header_length : length header ≡ 8
  pub payload_length : length payload ≡ get_uint (take 4 header)
  pub payload_holds : 19 ≤ length payload
  pub checksum : crc32 payload ≡ get_uint (drop 4 header)

read_payload-rest :
    (broken : Bool) (header after : Bytes) {r : Record} {rest : Bytes}
    → read_payload broken header after ≡ parsed r rest
    → let n = get_uint (take 4 header) in
      (n ≤ length after)
      × (rest ≡ drop n after)
      × (19 ≤ length (take n after))
      × (crc32 (take n after) ≡ get_uint (drop 4 header))
unfolding read_payload read_full
read_payload-rest broken header after {r} {rest} h =
    let n = get_uint (take 4 header) in
    let lemma_here =
      check_payload-rest (get_uint (drop 4 header)) (take n after) (drop n after) {r = r}
        {rest = rest} in
    ground (arith, lemma_here)

read_round-rest :
    (broken : Bool) (input : Bytes) {r : Record} {rest : Bytes}
    → read_round broken input ≡ parsed r rest
    → (8 ≤ length input) × (read_payload broken (take 8 input) (drop 8 input) ≡ parsed r rest)
unfolding read_round read_full
read_round-rest broken input h = ground arith

-- Whatever bytes the log holds, a record that a round of Replay hands to the callback comes with
-- the length and the CRC-32 of its header.
pub read_round-IsChecked :
    (broken : Bool) (input : Bytes) (r : Record) (rest : Bytes)
    → read_round broken input ≡ parsed r rest
    → (header : Bytes) × (payload : Bytes) × IsChecked header payload rest input
read_round-IsChecked broken input r rest h =
    let (long, taken) = read_round-rest broken input {r = r} {rest = rest} h in
    let header = take 8 input in
    let (fits, after, holds, checksum) =
      read_payload-rest broken header (drop 8 input) {r = r} {rest = rest} taken in
    let n = get_uint (take 4 header) in
    (
      header,
      take n (drop 8 input),
      record {
        layout = rw (after, take-append-drop n (drop 8 input), take-append-drop 8 input);
        header_length = length-take 8 input long;
        payload_length = length-take n (drop 8 input) fits;
        payload_holds = holds;
        checksum = checksum;
      },
    )

pub read_round_shrinks :
    (broken : Bool) (input : Bytes) (r : Record) (rest : Bytes)
    → read_round broken input ≡ parsed r rest
    → length rest < length input
read_round_shrinks broken input r rest h =
    let (long, taken) = read_round-rest broken input {r = r} {rest = rest} h in
    let (fits, after, holds, checksum) =
      read_payload-rest broken (take 8 input) (drop 8 input) {r = r} {rest = rest} taken in
    rw after (
      omega
        (arith, length-drop (get_uint (take 4 (take 8 input))) (drop 8 input), length-drop 8 input))

pub Round-cases :
    (x : Round)
    → ((r : Record) × (rest : Bytes) × (x ≡ parsed r rest))
      ⊎ (x ≡ finished)
      ⊎ ((e : WalError) × (x ≡ fault e))
Round-cases finished = inr (inl refl)
Round-cases (fault e) = inr (inr (e, refl))
Round-cases (parsed r rest) = inl (r, rest, refl)

module _ {S : Type 0} (f : Record → S → S × Bool) (broken : Bool) where
  -- The loop of Replay ends: with a fuel above the length of what is left to read it never runs
  -- out, whatever the bytes are, whatever the callback does and whether or not the disk fails.
  pub replay_loop_ends :
      (fuel : ℕ) (input : Bytes) (s : S)
      → length input < fuel
      → replay_loop f broken fuel input s ≢ starved
  unfolding replay_loop
  replay_loop_ends zero input s h = absurd (omega arith)
  replay_loop_ends (suc fuel) input s h = elim (Round-cases (read_round broken input)) [
    | inl (r, rest, e) ↦
        let shorter = read_round_shrinks broken input r rest e in
        ground (arith, replay_loop_ends fuel rest (f r s).0)
    | inr (inl e) ↦ ground arith
    | inr (inr (e, q)) ↦ ground arith
  ]
