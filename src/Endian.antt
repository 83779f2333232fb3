-- ===== src/Endian.antt =====
-- src/util/endian.hpp: the byte swaps, as the masks and shifts of the fallback branch.
use btccpu.Prelude.{
  ℕ, ◌+◌, ◌*◌, ◌/◌, ◌%◌, ◌^◌, ◌≡◌, refl, ap, ◌∙◌, List, [], ◌∷◌, length, bit_and, bit_or, arith,
}
use btccpu.Prelude.Bits.{bit_or_four, bit_and-mask, bit_and-shifted}

unfoldable pub bswap32 : ℕ → ℕ
bswap32 v =
    bit_or
      (bit_or
        (bit_or (bit_and v 0x000000ff * 2 ^ 24 % 2 ^ 32) (bit_and v 0x0000ff00 * 2 ^ 8 % 2 ^ 32))
        (bit_and v 0x00ff0000 / 2 ^ 8))
      (bit_and v 0xff000000 / 2 ^ 24)

unfoldable pub bswap64 : ℕ → ℕ
bswap64 v =
    bit_or
      (bit_or
        (bit_or
          (bit_or
            (bit_or
              (bit_or
                (bit_or (bit_and v 0x00000000000000ff * 2 ^ 56 % 2 ^ 64)
                  (bit_and v 0x000000000000ff00 * 2 ^ 40 % 2 ^ 64))
                (bit_and v 0x0000000000ff0000 * 2 ^ 24 % 2 ^ 64))
              (bit_and v 0x00000000ff000000 * 2 ^ 8 % 2 ^ 64))
            (bit_and v 0x000000ff00000000 / 2 ^ 8))
          (bit_and v 0x0000ff0000000000 / 2 ^ 24))
        (bit_and v 0x00ff000000000000 / 2 ^ 40))
      (bit_and v 0xff00000000000000 / 2 ^ 56)

unfoldable pub le32_to_be32 : ℕ → ℕ
le32_to_be32 v = bswap32 v

unfoldable pub be32_to_le32 : ℕ → ℕ
be32_to_le32 v = bswap32 v

unfoldable pub le64_to_be64 : ℕ → ℕ
le64_to_be64 v = bswap64 v

unfoldable pub be64_to_le64 : ℕ → ℕ
be64_to_le64 v = bswap64 v

unfoldable pub header_le32_to_sha_word : ℕ → ℕ
header_le32_to_sha_word v = bswap32 v

-- The loop swaps byte 0 with 3 and 1 with 2 of each group of four; a span of 32 has whole groups.
unfoldable pub byteswap_each_u32 : List ℕ → List ℕ
byteswap_each_u32 (a ∷ b ∷ c ∷ d ∷ bytes) = d ∷ c ∷ b ∷ a ∷ byteswap_each_u32 bytes
byteswap_each_u32 [] = []
byteswap_each_u32 (a ∷ []) = a ∷ []
byteswap_each_u32 (a ∷ b ∷ []) = a ∷ b ∷ []
byteswap_each_u32 (a ∷ b ∷ c ∷ []) = a ∷ b ∷ c ∷ []

-- The byte swap as arithmetic.
pub bswap32_lem :
    (v : ℕ)
    → bswap32 v
      ≡ v % 256 * 2 ^ 24 + v / 2 ^ 8 % 256 * 2 ^ 16 + v / 2 ^ 16 % 256 * 2 ^ 8 + v / 2 ^ 24 % 256
unfolding bswap32
bswap32_lem v =
    rw
      (
        bit_and-mask 8 v,
        bit_and-shifted 8 v 0xff ∙ ap (λ (t : ℕ). t * 2 ^ 8) (bit_and-mask 8 (v / 2 ^ 8)),
        bit_and-shifted 16 v 0xff ∙ ap (λ (t : ℕ). t * 2 ^ 16) (bit_and-mask 8 (v / 2 ^ 16)),
        bit_and-shifted 24 v 0xff ∙ ap (λ (t : ℕ). t * 2 ^ 24) (bit_and-mask 8 (v / 2 ^ 24)),
      )
      (bit_or_four _ _ _ _ (v % 256) (v / 2 ^ 8 % 256) (v / 2 ^ 16 % 256) (omega arith)
          (omega arith) (omega arith) (omega arith) (omega arith) (omega arith)
        ∙ omega arith)

-- Swapping the bytes of each 32-bit word twice changes nothing; bytes behind the last whole word stay.
pub byteswap_each_u32_twice : (bytes : List ℕ) → byteswap_each_u32 (byteswap_each_u32 bytes) ≡ bytes
unfolding byteswap_each_u32
byteswap_each_u32_twice (a ∷ b ∷ c ∷ d ∷ bytes) =
    ap (λ (t : List ℕ). a ∷ b ∷ c ∷ d ∷ t) (byteswap_each_u32_twice bytes)
byteswap_each_u32_twice [] = refl
byteswap_each_u32_twice (a ∷ []) = refl
byteswap_each_u32_twice (a ∷ b ∷ []) = refl
byteswap_each_u32_twice (a ∷ b ∷ c ∷ []) = refl

pub length-byteswap_each_u32 : (bytes : List ℕ) → length (byteswap_each_u32 bytes) ≡ length bytes
unfolding byteswap_each_u32
length-byteswap_each_u32 (a ∷ b ∷ c ∷ d ∷ bytes) = omega (arith, length-byteswap_each_u32 bytes)
length-byteswap_each_u32 [] = refl
length-byteswap_each_u32 (a ∷ []) = refl
length-byteswap_each_u32 (a ∷ b ∷ []) = refl
length-byteswap_each_u32 (a ∷ b ∷ c ∷ []) = refl
