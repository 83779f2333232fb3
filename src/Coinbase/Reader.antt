-- ===== src/Coinbase/Reader.antt =====
-- src/mining_job/coinbase.cpp: `ByteReader`. A method returns its value and the reader behind it.
use btccpu.Prelude.{
  ℕ, ◌+◌, ◌-◌, ◌*◌, ◌^◌, List, get_or, length, take, drop, bit_or, ltb, ◌==◌, if◌then◌else◌, Result,
  ok, runtime_error, ◌>>=◌, ◌>>◌, throw_if,
}

pub record ByteReader : Type 0 where
  pub bytes : List ℕ
  pub pos : ℕ

unfoldable pub remaining : ByteReader → ℕ
remaining r = length r.bytes - r.pos

unfoldable pub require_bytes : ByteReader → ℕ → Result (Unit {0})
require_bytes r count = throw_if (ltb (remaining r) count) runtime_error

-- `pos_ += count`
abbrev pub advance : ByteReader → ℕ → ByteReader
advance r count = record r { pos = r.pos + count }

unfoldable pub byte_at : ByteReader → ℕ → ℕ
byte_at r i = get_or r.bytes (r.pos + i) 0

unfoldable pub read_u8 : ByteReader → Result (ℕ × ByteReader)
read_u8 r = do require_bytes r 1; ok (byte_at r 0, advance r 1)

unfoldable pub read_u32_le : ByteReader → Result (ℕ × ByteReader)
read_u32_le r = do
  require_bytes r 4
  ok (
    bit_or (bit_or (bit_or (byte_at r 0) (byte_at r 1 * 2 ^ 8)) (byte_at r 2 * 2 ^ 16))
        (byte_at r 3 * 2 ^ 24),
    advance r 4,
  )

-- The loop over `i`, unrolled.
unfoldable pub read_u64_le : ByteReader → Result (ℕ × ByteReader)
read_u64_le r = do
  require_bytes r 8
  let low =
      bit_or (bit_or (bit_or (bit_or 0 (byte_at r 0)) (byte_at r 1 * 2 ^ 8)) (byte_at r 2 * 2 ^ 16))
        (byte_at r 3 * 2 ^ 24)
  ok (
    bit_or
        (bit_or (bit_or (bit_or low (byte_at r 4 * 2 ^ 32)) (byte_at r 5 * 2 ^ 40))
          (byte_at r 6 * 2 ^ 48))
        (byte_at r 7 * 2 ^ 56),
    advance r 8,
  )

-- The two bytes behind 0xfd.
unfoldable pub read_u16_le : ByteReader → Result (ℕ × ByteReader)
read_u16_le r = do require_bytes r 2; ok (bit_or (byte_at r 0) (byte_at r 1 * 2 ^ 8), advance r 2)

unfoldable pub read_compact_size : ByteReader → Result (ℕ × ByteReader)
read_compact_size r = do
  (first, rest) ← read_u8 r
  if ltb first 0xfd
      then ok (first, rest)
      else if first == 0xfd
      then read_u16_le rest
      else if first == 0xfe
      then read_u32_le rest
      else read_u64_le rest

unfoldable pub read_bytes : ByteReader → ℕ → Result (List ℕ × ByteReader)
read_bytes r count = do require_bytes r count; ok (take count (drop r.pos r.bytes), advance r count)
