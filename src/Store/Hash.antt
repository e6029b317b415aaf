-- ===== src/Store/Hash.antt =====
-- The two hash functions of Go's standard library that the store calls: hash/fnv New32a and
-- hash/crc32 ChecksumIEEE. A uint32 keeps its wrap-around written out.
use high_performance_kv_stor.Prelude.{
  ℕ, zero, suc, ◌*◌, ◌/◌, ◌%◌, ◌^◌, ◌<◌, ◌≡◌, refl, [], ◌∷◌, foldl, arith, nat_beq, bit_xor, Bytes,
  if◌then◌else◌,
}

-- FNV-1a, 32 bits.
unfoldable pub fnv32a : Bytes → ℕ
fnv32a = foldl (λ h b. bit_xor h b * 16777619 % 2 ^ 32) 2166136261

crc_bits : ℕ → ℕ → ℕ
crc_bits zero c = c
crc_bits (suc n) c = crc_bits n (if nat_beq (c % 2) 1 then bit_xor (c / 2) 0xedb88320 else c / 2)

-- CRC-32 with the IEEE polynomial, reflected.
pub crc32 : Bytes → ℕ
unfolding crc_bits
crc32 bs = bit_xor (foldl (λ c b. crc_bits 8 (bit_xor c b)) 0xffffffff bs) 0xffffffff % 2 ^ 32

pub crc32-lt : (bs : Bytes) → crc32 bs < 2 ^ 32
unfolding crc32
crc32-lt bs = omega arith

crc32_check : crc32 (b'1' ∷ b'2' ∷ b'3' ∷ b'4' ∷ b'5' ∷ b'6' ∷ b'7' ∷ b'8' ∷ b'9' ∷ []) ≡ 0xcbf43926
unfolding crc32
crc32_check = refl

fnv32a_check : fnv32a (b'a' ∷ []) ≡ 0xe40c292c
unfolding fnv32a
fnv32a_check = refl
