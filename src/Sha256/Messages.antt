-- ===== src/Sha256/Messages.antt =====
-- src/sha256/sha256.cpp: whole messages, and the double hash.
use btccpu.Prelude.{
  ℕ, zero, suc, ◌+◌, ◌*◌, ◌/◌, ◌%◌, ◌^◌, ◌<◌, ◌≡◌, refl, sym, ap, ap₂, ◌∙◌, List, [], ◌∷◌, ◌++◌,
  length, drop, replicate, arith, length-append, drop-append, drop-all, length-replicate,
}
use btccpu.Prelude.Bits.{bit_and-mask}
use btccpu.Hex.Wide.{be_bytes, be_value, be_value-be_bytes}
use btccpu.Sha256.{
  DigestWords, read_be32, write_be32, read_words, compress_block, sha256_loop, padded_message,
  sha256_words, dbl_sha256_words, hash_digest_words, digest_words_to_padded_block,
  digest_words_to_bytes_be, initial_state, length_bytes, zero_pad_bytes, padding_for_bit_length,
}
use btccpu.Sha256.Bounds.{
  IsDigest, compress_block-IsDigest, read_words-write_be32, read_words-append,
}

length_bytes_lem : (bits n : ℕ) → length_bytes bits n ≡ be_bytes bits n
unfolding length_bytes
length_bytes_lem bits zero = refl
length_bytes_lem bits (suc n) =
    ap₂ ◌∷◌ (bit_and-mask 8 (bits / 2 ^ (n * 8))) (length_bytes_lem bits n)

-- A message shorter than 2 ^ 61 bytes is followed by 0x80, by fewer than 64 zeros and by the eight
-- big-endian bytes of its length in bits, to a multiple of 64 bytes.
pub padded_message_lem :
    (m : List ℕ)
    → length m < 2 ^ 61
    → (z : ℕ) × (tail : List ℕ) × (padded_message m ≡ m ++ (0x80 ∷ (replicate z 0x00 ++ tail)))
      × (z < 64)
      × (length tail ≡ 8)
      × (be_value tail ≡ length m * 8)
      × (length (padded_message m) % 64 ≡ 0)
unfolding padded_message padding_for_bit_length
padded_message_lem m h =
    let bits = length m * 8 % 2 ^ 64 in
    let z = zero_pad_bytes (bits / 8) in
    (
      z,
      length_bytes bits 8,
      refl,
      unfold zero_pad_bytes in omega arith,
      rw (length_bytes_lem bits 8) refl,
      rw (length_bytes_lem bits 8) (be_value-be_bytes bits 8 ∙ omega arith),
      rw
          (
            length-append m (0x80 ∷ (replicate z 0x00 ++ length_bytes bits 8)),
            length-append (replicate z 0x00) (length_bytes bits 8),
            length-replicate {A = ℕ} z 0x00,
            length_bytes_lem bits 8,
          )
          (unfold zero_pad_bytes in omega arith),
    )

-- The first block of the list is compressed, and the loop goes on with the rest.
pub sha256_loop_block :
    (n : ℕ) (block rest : List ℕ) (digest : DigestWords)
    → length block ≡ 64
    → sha256_loop (suc n) (block ++ rest) digest
      ≡ sha256_loop n rest (compress_block digest (read_words 16 block))
unfolding sha256_loop compress_block
sha256_loop_block n block rest digest e =
    rw
      (
        read_words-append 16 block rest (omega arith),
        drop-append 64 block rest (omega arith),
        drop-all 64 block e,
      )
      refl

-- The padding of a 32-byte message.
abbrev tail_32 : List ℕ
tail_32 = 0x80 ∷ (replicate 29 0x00 ++ (0x01 ∷ 0x00 ∷ []))

padded-digest :
    (d : DigestWords)
    → padded_message (digest_words_to_bytes_be d)
      ≡ write_be32 d.w0
        ++ (write_be32 d.w1
            ++ (write_be32 d.w2
                ++ (write_be32 d.w3
                    ++ (write_be32 d.w4
                        ++ (write_be32 d.w5
                            ++ (write_be32 d.w6 ++ (write_be32 d.w7 ++ tail_32)))))))
unfolding padded_message padding_for_bit_length zero_pad_bytes length_bytes digest_words_to_bytes_be
    write_be32
padded-digest d = refl

read_words-digest :
    (d : DigestWords)
    → IsDigest d
    → read_words 16 (padded_message (digest_words_to_bytes_be d)) ≡ digest_words_to_padded_block d
unfolding digest_words_to_padded_block
read_words-digest d (h0, h1, h2, h3, h4, h5, h6, h7) =
    rw
      (
        padded-digest d,
        read_words-write_be32 15 d.w0 _ h0,
        read_words-write_be32 14 d.w1 _ h1,
        read_words-write_be32 13 d.w2 _ h2,
        read_words-write_be32 12 d.w3 _ h3,
        read_words-write_be32 11 d.w4 _ h4,
        read_words-write_be32 10 d.w5 _ h5,
        read_words-write_be32 9 d.w6 _ h6,
        read_words-write_be32 8 d.w7 tail_32 h7,
      )
      (unfold read_words read_be32 in refl)

length-padded-digest : (d : DigestWords) → length (padded_message (digest_words_to_bytes_be d)) ≡ 64
unfolding write_be32
length-padded-digest d = rw (padded-digest d)

one_block :
    (m : List ℕ)
    → length m ≡ 64
    → sha256_loop ((length m + 63) / 64) m initial_state
      ≡ compress_block initial_state (read_words 16 m)
unfolding sha256_loop compress_block
one_block m e = rw e refl

-- The shortcut for a digest is the hash of the digest's 32 bytes.
pub hash_digest_words_lem :
    (d : DigestWords) → IsDigest d → hash_digest_words d ≡ sha256_words (digest_words_to_bytes_be d)
unfolding hash_digest_words sha256_words
hash_digest_words_lem d h =
    ap (compress_block initial_state) (sym (read_words-digest d h))
    ∙ sym (one_block (padded_message (digest_words_to_bytes_be d)) (length-padded-digest d))

sha256_loop-IsDigest :
    (n : ℕ) (rest : List ℕ) (digest : DigestWords)
    → IsDigest digest
    → IsDigest (sha256_loop n rest digest)
unfolding sha256_loop
sha256_loop-IsDigest zero rest digest h = h
sha256_loop-IsDigest (suc n) rest digest h =
    sha256_loop-IsDigest n (drop 64 rest) _
      (unfold compress_block in compress_block-IsDigest digest (read_words 16 rest))

pub sha256_words-IsDigest : (m : List ℕ) → IsDigest (sha256_words m)
unfolding sha256_words
sha256_words-IsDigest m = sha256_loop-IsDigest _ (padded_message m) initial_state (omega arith)

-- `dbl_sha256_words` is SHA-256 of the 32 bytes of the SHA-256 of the message.
pub dbl_sha256_words_lem :
    (m : List ℕ) → dbl_sha256_words m ≡ sha256_words (digest_words_to_bytes_be (sha256_words m))
unfolding dbl_sha256_words
dbl_sha256_words_lem m = hash_digest_words_lem (sha256_words m) (sha256_words-IsDigest m)
