-- ===== src/Sha256/Words.antt =====
-- src/sha256/sha256.cpp: the functions on single words and the byte order of words.
use btccpu.Prelude.{ℕ, ◌-◌, ◌*◌, ◌/◌, ◌%◌, ◌^◌, List, [], ◌∷◌, get_or, bit_and, bit_or, bit_xor}

-- `~x` of a word, and `std::rotr` for a count from 1 to 31.
abbrev pub complement : ℕ → ℕ
complement x = 2 ^ 32 - 1 - x

abbrev pub rotr : ℕ → ℕ → ℕ
rotr x n = bit_or (x / 2 ^ n) (x * 2 ^ (32 - n) % 2 ^ 32)

unfoldable pub ch : ℕ → ℕ → ℕ → ℕ
ch x y z = bit_xor (bit_and x y) (bit_and (complement x) z)

unfoldable pub maj : ℕ → ℕ → ℕ → ℕ
maj x y z = bit_xor (bit_xor (bit_and x y) (bit_and x z)) (bit_and y z)

unfoldable pub big_sigma0 : ℕ → ℕ
big_sigma0 x = bit_xor (bit_xor (rotr x 2) (rotr x 13)) (rotr x 22)

unfoldable pub big_sigma1 : ℕ → ℕ
big_sigma1 x = bit_xor (bit_xor (rotr x 6) (rotr x 11)) (rotr x 25)

unfoldable pub small_sigma0 : ℕ → ℕ
small_sigma0 x = bit_xor (bit_xor (rotr x 7) (rotr x 18)) (x / 2 ^ 3)

unfoldable pub small_sigma1 : ℕ → ℕ
small_sigma1 x = bit_xor (bit_xor (rotr x 17) (rotr x 19)) (x / 2 ^ 10)

-- The pointer argument is the list from that byte on.
unfoldable pub read_be32 : List ℕ → ℕ
read_be32 p =
    bit_or (bit_or (bit_or (get_or p 0 0 * 2 ^ 24) (get_or p 1 0 * 2 ^ 16)) (get_or p 2 0 * 2 ^ 8))
      (get_or p 3 0)

-- The four bytes that are stored.
unfoldable pub write_be32 : ℕ → List ℕ
write_be32 value =
    bit_and (value / 2 ^ 24) 0xff
    ∷ bit_and (value / 2 ^ 16) 0xff
    ∷ bit_and (value / 2 ^ 8) 0xff
    ∷ bit_and value 0xff
    ∷ []

unfoldable pub write_le32 : ℕ → List ℕ
write_le32 value =
    bit_and value 0xff
    ∷ bit_and (value / 2 ^ 8) 0xff
    ∷ bit_and (value / 2 ^ 16) 0xff
    ∷ bit_and (value / 2 ^ 24) 0xff
    ∷ []
