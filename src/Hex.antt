-- ===== src/Hex.antt =====
-- src/util/hex.hpp and hex.cpp: lowercase hex text of bytes and of fixed-width integers. A `char`
-- is its code; the -1 of `hex_value` is `none`.
pub mod Digits
pub mod Bytes
pub mod Integers
pub mod Wide
use btccpu.Prelude.{
  ℕ, zero, suc, ◌+◌, ◌-◌, ◌*◌, ◌/◌, ◌%◌, ◌^◌, Bool, true, false, ◌&&◌, ◌||◌, Option, none, some,
  List, [], ◌∷◌, ◌++◌, ltb, leb, ◌==◌, if◌then◌else◌, length, get_or, bit_and, bit_or, Result, ok,
  err, invalid_argument, ◌>>=◌, ◌>>◌, require, throw_if,
}
use mathlib.Core.List.{reverse}

abbrev pub hex_digits : List ℕ
hex_digits =
    b'0' ∷ b'1' ∷ b'2' ∷ b'3' ∷ b'4' ∷ b'5' ∷ b'6' ∷ b'7' ∷ b'8' ∷ b'9' ∷ b'a' ∷ b'b' ∷ b'c' ∷ b'd'
    ∷ b'e' ∷ b'f' ∷ []

-- The two digits `hex_digits[(b >> 4) & 0x0f]` and `hex_digits[b & 0x0f]` of a byte.
abbrev pub high_digit : ℕ → ℕ
high_digit b = get_or hex_digits (bit_and (b / 2 ^ 4) 0x0f) 0

abbrev pub low_digit : ℕ → ℕ
low_digit b = get_or hex_digits (bit_and b 0x0f) 0

unfoldable pub hex_value : ℕ → Option ℕ
hex_value c =
    if leb b'0' c && leb c b'9'
    then some (c - b'0')
    else if leb b'a' c && leb c b'f'
    then some (10 + (c - b'a'))
    else none

unfoldable pub is_lower_hex_digit : ℕ → Bool
is_lower_hex_digit c = (leb b'0' c && leb c b'9') || (leb b'a' c && leb c b'f')

unfoldable pub all_lower_hex : List ℕ → Bool
all_lower_hex [] = true
all_lower_hex (c ∷ s) = if is_lower_hex_digit c then all_lower_hex s else false

unfoldable pub is_lower_hex_string : List ℕ → Bool
is_lower_hex_string s = if length s % 2 == 0 then all_lower_hex s else false

-- The loop of `hex_from_u32_impl` from `byte` on, with `left` rounds to go.
unfoldable pub hex_from_u32_loop : ℕ → Bool → ℕ → ℕ → List ℕ
hex_from_u32_loop value little_endian zero byte = []
hex_from_u32_loop value little_endian (suc left) byte =
    let src_byte = if little_endian then byte else 3 - byte in
    let b = bit_and (value / 2 ^ (src_byte * 8)) 0xff in
    high_digit b ∷ low_digit b ∷ hex_from_u32_loop value little_endian left (byte + 1)

unfoldable pub hex_from_u32_be : ℕ → List ℕ
hex_from_u32_be value = hex_from_u32_loop value false 4 0

unfoldable pub hex_from_u32_le : ℕ → List ℕ
hex_from_u32_le value = hex_from_u32_loop value true 4 0

-- The loop of `hex_from_u64_be` with `left = size_bytes - i` rounds to go, so that
-- `shift_bytes = left - 1`.
unfoldable pub hex_from_u64_loop : ℕ → ℕ → List ℕ
hex_from_u64_loop value zero = []
hex_from_u64_loop value (suc shift_bytes) =
    let byte = value / 2 ^ (shift_bytes * 8) % 2 ^ 8 in
    high_digit byte ∷ low_digit byte ∷ hex_from_u64_loop value shift_bytes

unfoldable pub hex_from_u64_be : ℕ → ℕ → Result (List ℕ)
hex_from_u64_be value size_bytes = do
  throw_if (ltb 8 size_bytes) invalid_argument
  ok (hex_from_u64_loop value size_bytes)

-- `if (hi < 0 || lo < 0) throw`, then the byte `(hi << 4) | lo`.
unfoldable pub byte_of_digits : Option ℕ → Option ℕ → Result ℕ
byte_of_digits none lo = err invalid_argument
byte_of_digits (some hi) none = err invalid_argument
byte_of_digits (some hi) (some lo) = ok (bit_or (hi * 2 ^ 4) lo % 2 ^ 8)

-- The loop of `hex_to_bytes`. A last digit alone cannot occur, since the length is even.
unfoldable pub hex_to_bytes_loop : List ℕ → Result (List ℕ)
hex_to_bytes_loop [] = ok []
hex_to_bytes_loop (c ∷ []) = err invalid_argument
hex_to_bytes_loop (c ∷ d ∷ s) =
    let rest = hex_to_bytes_loop s in
    do b ← byte_of_digits (hex_value c) (hex_value d); bs ← rest; ok (b ∷ bs)

unfoldable pub hex_to_bytes : List ℕ → Result (List ℕ)
hex_to_bytes hex = do require (is_lower_hex_string hex) invalid_argument; hex_to_bytes_loop hex

unfoldable pub hex_to_array_32 : List ℕ → Result (List ℕ)
hex_to_array_32 hex = do
  bytes ← hex_to_bytes hex
  require (length bytes == 32) invalid_argument
  ok bytes

unfoldable pub bytes_to_hex : List ℕ → List ℕ
bytes_to_hex [] = []
bytes_to_hex (b ∷ bytes) = high_digit b ∷ low_digit b ∷ bytes_to_hex bytes

-- `bytes_to_hex_fixed_msb` walks the bytes from the last to the first.
unfoldable pub bytes_to_hex_fixed_msb : List ℕ → List ℕ
bytes_to_hex_fixed_msb bytes = bytes_to_hex (reverse bytes)

-- The loop of `u32_from_hex_be` over the digits.
unfoldable pub u32_from_digits : ℕ → List ℕ → Result ℕ
u32_from_digits value [] = ok value
u32_from_digits value (c ∷ s) = elim (hex_value c) [
  | none ↦ err invalid_argument
  | some v ↦ u32_from_digits (bit_or (value * 2 ^ 4 % 2 ^ 32) v) s
]

unfoldable pub u32_from_hex_be : List ℕ → Result ℕ
u32_from_hex_be hex = do
  require (length hex == 8) invalid_argument
  require (is_lower_hex_string hex) invalid_argument
  u32_from_digits 0 hex

-- `bytes[0] | bytes[1] << 8 | bytes[2] << 16 | bytes[3] << 24`
unfoldable pub le32_of_bytes : List ℕ → ℕ
le32_of_bytes bytes =
    bit_or
      (bit_or (bit_or (get_or bytes 0 0) (get_or bytes 1 0 * 2 ^ 8)) (get_or bytes 2 0 * 2 ^ 16))
      (get_or bytes 3 0 * 2 ^ 24)

unfoldable pub u32_from_hex_le : List ℕ → Result ℕ
u32_from_hex_le hex = do
  require (length hex == 8) invalid_argument
  require (is_lower_hex_string hex) invalid_argument
  bytes ← hex_to_bytes hex
  ok (le32_of_bytes bytes)
