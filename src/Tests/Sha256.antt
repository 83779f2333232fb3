-- ===== src/Tests/Sha256.antt =====
-- Runs of src/sha256/sha256.cpp, the vector of tests/test_sha256.cpp among them.
use btccpu.Prelude.{◌≡◌, refl, [], ◌∷◌}
use btccpu.Sha256.{
  ch, maj, big_sigma0, big_sigma1, small_sigma0, small_sigma1, read_be32, write_be32, length_bytes,
  zero_pad_bytes, padding_for_bit_length, schedule_word, schedule_loop, make_schedule, round,
  rounds, add_digest, run_schedule, read_words, sha256_loop, padded_message, sha256_words,
  digest_words_to_bytes_be,
}

abc_digest :
    digest_words_to_bytes_be (sha256_words (b'a' ∷ b'b' ∷ b'c' ∷ []))
    ≡ 0xba ∷ 0x78 ∷ 0x16 ∷ 0xbf ∷ 0x8f ∷ 0x01 ∷ 0xcf ∷ 0xea ∷ 0x41 ∷ 0x41 ∷ 0x40 ∷ 0xde ∷ 0x5d
      ∷ 0xae ∷ 0x22 ∷ 0x23 ∷ 0xb0 ∷ 0x03 ∷ 0x61 ∷ 0xa3 ∷ 0x96 ∷ 0x17 ∷ 0x7a ∷ 0x9c ∷ 0xb4 ∷ 0x10
      ∷ 0xff ∷ 0x61 ∷ 0xf2 ∷ 0x00 ∷ 0x15 ∷ 0xad ∷ []
unfolding ch maj big_sigma0 big_sigma1 small_sigma0 small_sigma1 read_be32 write_be32 length_bytes
    zero_pad_bytes padding_for_bit_length schedule_word schedule_loop make_schedule round rounds
    add_digest run_schedule read_words sha256_loop padded_message sha256_words
    digest_words_to_bytes_be
abc_digest = refl
