-- ===== src/Hex/Integers.antt =====
-- src/util/hex.cpp: hex text of 32-bit and of up to 64-bit integers.
use btccpu.Prelude.{ℕ, ◌+◌, ◌*◌, ◌/◌, ◌%◌, ◌^◌, ◌<◌, ◌≡◌, ap, ◌∙◌, List, [], ◌∷◌, ok, arith, bit_or}
use btccpu.Prelude.Bits.{bit_or-field, field-bit_or, bit_and-mask}
use btccpu.Hex.{
  high_digit, low_digit, hex_from_u32_be, hex_from_u32_le, hex_from_u32_loop, bytes_to_hex,
  u32_from_digits, u32_from_hex_be, u32_from_hex_le, le32_of_bytes,
}
use btccpu.Hex.Digits.{high_digit_lem, low_digit_lem, digit, digit_fits}
use btccpu.Hex.Bytes.{is_lower-bytes_to_hex, hex_to_bytes-bytes_to_hex}
use native.Mathlib.Nat.{div-one}

-- The bytes of a 32-bit value, most significant first.
abbrev pub be_bytes32 : ℕ → List ℕ
be_bytes32 v = v / 2 ^ 24 % 256 ∷ v / 2 ^ 16 % 256 ∷ v / 2 ^ 8 % 256 ∷ v % 256 ∷ []

abbrev pub le_bytes32 : ℕ → List ℕ
le_bytes32 v = v % 256 ∷ v / 2 ^ 8 % 256 ∷ v / 2 ^ 16 % 256 ∷ v / 2 ^ 24 % 256 ∷ []

pub hex_from_u32_be_lem : (v : ℕ) → hex_from_u32_be v ≡ bytes_to_hex (be_bytes32 v)
unfolding hex_from_u32_be hex_from_u32_loop bytes_to_hex
hex_from_u32_be_lem v = rw (
  bit_and-mask 8 (v / 2 ^ 24),
  bit_and-mask 8 (v / 2 ^ 16),
  bit_and-mask 8 (v / 2 ^ 8),
  bit_and-mask 8 (v / 1),
  div-one v,
)

pub hex_from_u32_le_lem : (v : ℕ) → hex_from_u32_le v ≡ bytes_to_hex (le_bytes32 v)
unfolding hex_from_u32_le hex_from_u32_loop bytes_to_hex
hex_from_u32_le_lem v = rw (
  bit_and-mask 8 (v / 2 ^ 24),
  bit_and-mask 8 (v / 2 ^ 16),
  bit_and-mask 8 (v / 2 ^ 8),
  bit_and-mask 8 (v / 1),
  div-one v,
)

u32_from_digits-digit :
    (value n : ℕ) (s : List ℕ)
    → value < 2 ^ 28
    → n < 16
    → u32_from_digits value (digit n ∷ s) ≡ u32_from_digits (value * 16 + n) s
unfolding u32_from_digits
u32_from_digits-digit value n s h l =
    rw ((digit_fits n l).1, u32_from_digits)
      (ap (λ (t : ℕ). u32_from_digits t s)
        (ap (λ (t : ℕ). bit_or t n)
            (let e : value * 2 ^ 4 % 2 ^ 32 ≡ value * 2 ^ 4 = omega arith in e)
          ∙ bit_or-field 4 value n l))

u32_from_digits-byte :
    (value b : ℕ) (s : List ℕ)
    → value < 2 ^ 24
    → b < 256
    → u32_from_digits value (high_digit b ∷ low_digit b ∷ s) ≡ u32_from_digits (value * 256 + b) s
u32_from_digits-byte value b s h l =
    rw (high_digit_lem b l, low_digit_lem b)
      (u32_from_digits-digit value (b / 16) _ (omega arith) (omega arith)
        ∙ u32_from_digits-digit (value * 16 + b / 16) (b % 16) s (omega arith) (omega arith)
        ∙ ap (λ (t : ℕ). u32_from_digits t s) (omega arith))

u32_from_digits-bytes_to_hex :
    (a b c d : ℕ)
    → a < 256
    → b < 256
    → c < 256
    → d < 256
    → u32_from_digits 0 (bytes_to_hex (a ∷ b ∷ c ∷ d ∷ []))
      ≡ ok (a * 2 ^ 24 + b * 2 ^ 16 + c * 2 ^ 8 + d)
unfolding bytes_to_hex
u32_from_digits-bytes_to_hex a b c d ha hb hc hd =
    u32_from_digits-byte 0 a _ (omega arith) ha
    ∙ u32_from_digits-byte (0 * 256 + a) b _ (omega arith) hb
    ∙ u32_from_digits-byte ((0 * 256 + a) * 256 + b) c _ (omega arith) hc
    ∙ u32_from_digits-byte (((0 * 256 + a) * 256 + b) * 256 + c) d [] (omega arith) hd
    ∙ (unfold u32_from_digits in ap ok (omega arith))

-- Reading the big-endian hex text of a 32-bit value gives that value.
pub u32_from_hex_be-hex_from_u32_be :
    (v : ℕ) → v < 2 ^ 32 → u32_from_hex_be (hex_from_u32_be v) ≡ ok v
unfolding u32_from_hex_be bytes_to_hex
u32_from_hex_be-hex_from_u32_be v h =
    rw (hex_from_u32_be_lem v, is_lower-bytes_to_hex (be_bytes32 v) (omega arith))
      (u32_from_digits-bytes_to_hex _ _ _ _ (omega arith) (omega arith) (omega arith) (omega arith)
        ∙ ap ok (omega arith))

le32_of_bytes_lem :
    (a b c d : ℕ)
    → a < 256
    → b < 256
    → c < 256
    → le32_of_bytes (a ∷ b ∷ c ∷ d ∷ []) ≡ a + b * 2 ^ 8 + c * 2 ^ 16 + d * 2 ^ 24
unfolding le32_of_bytes
le32_of_bytes_lem a b c d ha hb hc =
    rw (field-bit_or 8 b a ha, field-bit_or 16 c (b * 2 ^ 8 + a) (omega arith))
      (field-bit_or 24 d (c * 2 ^ 16 + (b * 2 ^ 8 + a)) (omega arith) ∙ omega arith)

-- The same for the little-endian text.
pub u32_from_hex_le-hex_from_u32_le :
    (v : ℕ) → v < 2 ^ 32 → u32_from_hex_le (hex_from_u32_le v) ≡ ok v
unfolding u32_from_hex_le bytes_to_hex
u32_from_hex_le-hex_from_u32_le v h =
    rw
      (
        hex_from_u32_le_lem v,
        is_lower-bytes_to_hex (le_bytes32 v) (omega arith),
        hex_to_bytes-bytes_to_hex (le_bytes32 v) (omega arith),
      )
      (ap ok (le32_of_bytes_lem _ _ _ _ (omega arith) (omega arith) (omega arith) ∙ omega arith))
