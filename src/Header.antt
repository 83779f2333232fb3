-- ===== src/Header.antt =====
-- src/mining_job/header.hpp and header.cpp: the 80-byte block header, and the template that keeps
-- the midstate of its first 64 bytes.
pub mod Midstate
use btccpu.Prelude.{ℕ, zero, suc, ◌+◌, ◌*◌, ◌/◌, ◌%◌, ◌^◌, List, [], ◌∷◌, ◌++◌, drop, set}
use btccpu.Hex.{bytes_to_hex}
use btccpu.Endian.{header_le32_to_sha_word}
use btccpu.Sha256.{
  DigestWords, read_be32, compress_block, initial_state, dbl_sha256_two_block_header,
}

pub record HeaderTemplate : Type 0 where
  pub block0 : List ℕ
  pub block1 : List ℕ
  pub midstate : DigestWords

-- The four bytes that are stored.
unfoldable pub write_le32 : ℕ → List ℕ
write_le32 v = v % 2 ^ 8 ∷ v / 2 ^ 8 % 2 ^ 8 ∷ v / 2 ^ 16 % 2 ^ 8 ∷ v / 2 ^ 24 % 2 ^ 8 ∷ []

-- The loop over `i`, with `n` words to go; the list is the memory from the pointer on.
unfoldable pub block_words_loop : ℕ → List ℕ → List ℕ
block_words_loop zero bytes = []
block_words_loop (suc n) bytes = read_be32 bytes ∷ block_words_loop n (drop 4 bytes)

unfoldable pub block_words_from_bytes : List ℕ → List ℕ
block_words_from_bytes bytes = block_words_loop 16 bytes

-- The writes fill the array from its start to its end, one behind the other.
unfoldable pub make_sha_input_header_bytes : ℕ → List ℕ → List ℕ → ℕ → ℕ → ℕ → List ℕ
make_sha_input_header_bytes version prevhash merkle_root ntime nbits nonce =
    write_le32 version
    ++ (prevhash ++ (merkle_root ++ (write_le32 ntime ++ (write_le32 nbits ++ write_le32 nonce))))

unfoldable pub header_sha_input_hex : List ℕ → List ℕ
header_sha_input_hex header = bytes_to_hex header

-- The stores to `block1[4]` up to `block1[15]`.
unfoldable pub pad_block1 : List ℕ → List ℕ
pad_block1 b =
    let b = set b 4 0x80000000 in
    let b = set b 5 0 in
    let b = set b 6 0 in
    let b = set b 7 0 in
    let b = set b 8 0 in
    let b = set b 9 0 in
    let b = set b 10 0 in
    let b = set b 11 0 in
    let b = set b 12 0 in let b = set b 13 0 in let b = set b 14 0 in set b 15 0x00000280

-- `beyond` is the memory behind the array `bytes`: the second block is read from offset 64 of 80
-- bytes, so 48 of its bytes are not the header's.
unfoldable pub make_sha_header_template : List ℕ → ℕ → List ℕ → List ℕ → ℕ → ℕ → ℕ → HeaderTemplate
make_sha_header_template beyond version prevhash merkle_root ntime nbits nonce =
    let bytes = make_sha_input_header_bytes version prevhash merkle_root ntime nbits nonce in
    let block0 = block_words_from_bytes (bytes ++ beyond) in
    record {
      block0 = block0;
      block1 = pad_block1 (block_words_from_bytes (drop 64 (bytes ++ beyond)));
      midstate = compress_block initial_state block0;
    }

unfoldable pub set_header_nonce : HeaderTemplate → ℕ → HeaderTemplate
set_header_nonce header nonce = record header {
  block1 = set header.block1 3 (header_le32_to_sha_word nonce);
}

unfoldable pub hash_header_template : HeaderTemplate → DigestWords
hash_header_template header = dbl_sha256_two_block_header header.midstate header.block1
