-- ===== src/Sha256/Padding.antt =====
-- src/sha256/sha256.cpp: the padding of a message.
use btccpu.Prelude.{
  ℕ, zero, suc, ◌+◌, ◌-◌, ◌*◌, ◌/◌, ◌%◌, ◌^◌, List, [], ◌∷◌, ◌++◌, replicate, bit_and,
}

-- The loop over `i` from 7 down to 0, with `n = i + 1` rounds to go.
unfoldable pub length_bytes : ℕ → ℕ → List ℕ
length_bytes bit_length zero = []
length_bytes bit_length (suc i) =
    bit_and (bit_length / 2 ^ (i * 8)) 0xff ∷ length_bytes bit_length i

unfoldable pub zero_pad_bytes : ℕ → ℕ
zero_pad_bytes message_bytes = (56 + 64 - (message_bytes + 1) % 64) % 64

unfoldable pub padding_for_bit_length : ℕ → List ℕ
padding_for_bit_length bit_length =
    0x80 ∷ (replicate (zero_pad_bytes (bit_length / 8)) 0x00 ++ length_bytes bit_length 8)
