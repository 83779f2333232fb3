-- ===== src/Header/Midstate.antt =====
-- src/mining_job/header.cpp: hashing through the template is hashing the header.
use btccpu.Prelude.{
  ℕ, zero, suc, ◌≡◌, refl, sym, ap, ap₂, ◌∙◌, List, [], ◌∷◌, ◌++◌, length, take, drop, set, arith,
  append_assoc, length-append, drop-append, drop-all, take-append-drop, length-take, length-drop,
  four_elements,
}
use btccpu.Endian.{bswap32, bswap32_lem, header_le32_to_sha_word}
use btccpu.Sha256.{
  DigestWords, read_be32, read_words, compress_block, initial_state, hash_digest_words,
  dbl_sha256_two_block_header, dbl_sha256_words, sha256_words, sha256_loop, padded_message,
  padding_for_bit_length, zero_pad_bytes, length_bytes,
}
use btccpu.Sha256.Bounds.{read_be32_lem, read_words-append}
use btccpu.Sha256.Messages.{sha256_loop_block}
use btccpu.Header.{
  write_le32, block_words_loop, block_words_from_bytes, make_sha_input_header_bytes,
  make_sha_header_template, pad_block1, set_header_nonce, hash_header_template,
}

-- The two readers of words are the same.
block_words-read_words : (n : ℕ) (bytes : List ℕ) → block_words_loop n bytes ≡ read_words n bytes
unfolding block_words_loop read_words
block_words-read_words zero bytes = refl
block_words-read_words (suc n) bytes =
    ap (λ (t : List ℕ). read_be32 bytes ∷ t) (block_words-read_words n (drop 4 bytes))

-- Reading big-endian what was stored little-endian swaps the bytes.
read_be32-write_le32 : (v : ℕ) (rest : List ℕ) → read_be32 (write_le32 v ++ rest) ≡ bswap32 v
unfolding write_le32
read_be32-write_le32 v rest =
    read_be32_lem _ _ _ _ rest (omega arith) (omega arith) (omega arith) ∙ sym (bswap32_lem v)

split_at :
    (n : ℕ) (xs ys zs rest : List ℕ)
    → let front = xs ++ (ys ++ zs) in
      xs ++ (ys ++ (zs ++ rest)) ≡ take n front ++ (drop n front ++ rest)
split_at n xs ys zs rest =
    ap (λ (t : List ℕ). xs ++ t) (sym (append_assoc ys zs rest))
    ∙ sym (append_assoc xs (ys ++ zs) rest)
    ∙ ap (λ (t : List ℕ). t ++ rest) (sym (take-append-drop n (xs ++ (ys ++ zs))))
    ∙ append_assoc (take n (xs ++ (ys ++ zs))) (drop n (xs ++ (ys ++ zs))) rest

-- The last 16 bytes of the header, from the last four of the merkle root on.
abbrev tail_bytes : List ℕ → ℕ → ℕ → ℕ → List ℕ
tail_bytes four ntime nbits nonce =
    four ++ (write_le32 ntime ++ (write_le32 nbits ++ write_le32 nonce))

-- The words of the last block of the padded header.
abbrev last_block : ℕ → ℕ → ℕ → ℕ → List ℕ
last_block m ntime nbits nonce =
    m
    ∷ bswap32 ntime
    ∷ bswap32 nbits
    ∷ bswap32 nonce
    ∷ 0x80000000
    ∷ 0
    ∷ 0
    ∷ 0
    ∷ 0
    ∷ 0
    ∷ 0
    ∷ 0
    ∷ 0
    ∷ 0
    ∷ 0
    ∷ 0x280
    ∷ []

read_words-write_le32 :
    (n v : ℕ) (rest : List ℕ)
    → read_words (suc n) (write_le32 v ++ rest) ≡ bswap32 v ∷ read_words n rest
unfolding read_words
read_words-write_le32 n v rest =
    ap₂ ◌∷◌ (read_be32-write_le32 v rest) (ap (read_words n) (unfold write_le32 in refl))

module _ (a b c d ntime nbits nonce : ℕ) where
  abbrev four : List ℕ
  four = a ∷ b ∷ c ∷ d ∷ []

  read_tail :
      (rest : List ℕ)
      → read_words 16 (tail_bytes four ntime nbits nonce ++ rest)
        ≡ read_be32 four ∷ bswap32 ntime ∷ bswap32 nbits ∷ bswap32 nonce ∷ read_words 12 rest
  read_tail rest =
      ap (λ (t : List ℕ). read_words 16 (four ++ t))
        (append_assoc (write_le32 ntime) (write_le32 nbits ++ write_le32 nonce) rest
          ∙ ap (λ (t : List ℕ). write_le32 ntime ++ t)
              (append_assoc (write_le32 nbits) (write_le32 nonce) rest))
      ∙ (unfold read_words read_be32 in
          ap (λ (t : List ℕ). read_be32 four ∷ t)
            (read_words-write_le32 14 ntime _
              ∙ ap (λ (t : List ℕ). bswap32 ntime ∷ t)
                  (read_words-write_le32 13 nbits _
                    ∙ ap (λ (t : List ℕ). bswap32 nbits ∷ t)
                        (read_words-write_le32 12 nonce rest))))

  padded_tail :
      read_words 16 (tail_bytes four ntime nbits nonce ++ padding_for_bit_length 640)
      ≡ last_block (read_be32 four) ntime nbits nonce
  padded_tail =
      read_tail (padding_for_bit_length 640)
      ∙ (unfold read_words read_be32 padding_for_bit_length zero_pad_bytes length_bytes in refl)

-- Whatever lies behind the header, and whatever its nonce was, the template's second block comes
-- out as the padded one.
pad_block1_lem :
    (a b c d ntime nbits nonce nonce' : ℕ) (beyond : List ℕ)
    → set
        (pad_block1
          (block_words_from_bytes (tail_bytes (a ∷ b ∷ c ∷ d ∷ []) ntime nbits nonce' ++ beyond)))
        3
        (bswap32 nonce)
      ≡ last_block (read_be32 (a ∷ b ∷ c ∷ d ∷ [])) ntime nbits nonce
unfolding pad_block1 block_words_from_bytes
pad_block1_lem a b c d ntime nbits nonce nonce' beyond =
    ap (λ (t : List ℕ). set (pad_block1 t) 3 (bswap32 nonce))
      (block_words-read_words 16 _ ∙ read_tail a b c d ntime nbits nonce' beyond)
    ∙ (unfold read_words in refl)

-- A header as its first 64 bytes and its fields behind them.
module _ (head : List ℕ) (a b c d ntime nbits : ℕ) (len : length head ≡ 64) where
  abbrev rest : ℕ → List ℕ
  rest nonce = tail_bytes (a ∷ b ∷ c ∷ d ∷ []) ntime nbits nonce

  abbrev midstate : DigestWords
  midstate = compress_block initial_state (read_words 16 head)

  length-header : (nonce : ℕ) → length (head ++ rest nonce) ≡ 80
  unfolding write_le32
  length-header nonce = length-append head (rest nonce) ∙ omega arith

  padded-header :
      (nonce : ℕ)
      → padded_message (head ++ rest nonce) ≡ head ++ (rest nonce ++ padding_for_bit_length 640)
  unfolding padded_message
  padded-header nonce =
      rw (length-header nonce) (append_assoc head (rest nonce) (padding_for_bit_length 640))

  length-padded-header : (nonce : ℕ) → length (padded_message (head ++ rest nonce)) ≡ 128
  length-padded-header nonce =
      rw (padded-header nonce, length-append head (rest nonce ++ padding_for_bit_length 640), len)
        (unfold write_le32 padding_for_bit_length zero_pad_bytes length_bytes in refl)

  sha256_words-header :
      (nonce : ℕ)
      → sha256_words (head ++ rest nonce)
        ≡ compress_block midstate (last_block (read_be32 (a ∷ b ∷ c ∷ d ∷ [])) ntime nbits nonce)
  unfolding sha256_words
  sha256_words-header nonce =
      rw (length-padded-header nonce, padded-header nonce)
        (sha256_loop_block 1 head (rest nonce ++ padding_for_bit_length 640) initial_state len
          ∙ (unfold sha256_loop compress_block in
              ap (compress_block midstate) (padded_tail a b c d ntime nbits nonce)))

  -- The words that the template reads from the array and the memory behind it.
  first_block :
      (nonce : ℕ) (beyond : List ℕ)
      → block_words_from_bytes ((head ++ rest nonce) ++ beyond) ≡ read_words 16 head
  unfolding block_words_from_bytes
  first_block nonce beyond =
      block_words-read_words 16 _
      ∙ ap (read_words 16) (append_assoc head (rest nonce) beyond)
      ∙ read_words-append 16 head (rest nonce ++ beyond) (omega arith)

  behind_64 :
      (nonce : ℕ) (beyond : List ℕ)
      → drop 64 ((head ++ rest nonce) ++ beyond) ≡ rest nonce ++ beyond
  behind_64 nonce beyond =
      ap (drop 64) (append_assoc head (rest nonce) beyond)
      ∙ drop-append 64 head (rest nonce ++ beyond) (omega arith)
      ∙ ap (λ (t : List ℕ). t ++ (rest nonce ++ beyond)) (drop-all 64 head len)

length-front :
    (version : ℕ) (prevhash merkle_root : List ℕ)
    → length prevhash ≡ 32
    → length merkle_root ≡ 32
    → length (write_le32 version ++ (prevhash ++ merkle_root)) ≡ 68
unfolding write_le32
length-front version prevhash merkle_root p m = omega (arith, length-append prevhash merkle_root)

-- With two 32-byte hashes the double hash through the template, with any nonce set in it, is the
-- double SHA-256 of the 80-byte header with that nonce. It depends neither on the nonce that the
-- template was made with nor on the memory behind the header array.
pub hash_header_template_lem :
    (beyond : List ℕ) (version : ℕ) (prevhash merkle_root : List ℕ) (ntime nbits nonce' nonce : ℕ)
    → length prevhash ≡ 32
    → length merkle_root ≡ 32
    → hash_header_template (
        set_header_nonce
          (make_sha_header_template beyond version prevhash merkle_root ntime nbits nonce')
          nonce)
      ≡ dbl_sha256_words
          (make_sha_input_header_bytes version prevhash merkle_root ntime nbits nonce)
unfolding hash_header_template set_header_nonce make_sha_header_template dbl_sha256_two_block_header
    dbl_sha256_words header_le32_to_sha_word
hash_header_template_lem beyond version prevhash merkle_root ntime nbits nonce' nonce p m =
    let front = write_le32 version ++ (prevhash ++ merkle_root) in
    let len = length-front version prevhash merkle_root p m in
    let h64 = length-take 64 front (omega arith) in
    let (a, b, c, d, four) = four_elements (drop 64 front) (length-drop 64 front ∙ omega arith) in
    let bytes = λ (n : ℕ).
      split_at 64 (write_le32 version) prevhash merkle_root
        (write_le32 ntime ++ (write_le32 nbits ++ write_le32 n))
      ∙ ap (λ (t : List ℕ). take 64 front ++ tail_bytes t ntime nbits n) four in
    ap hash_digest_words (
      unfold make_sha_input_header_bytes in
      rw
        (
          bytes nonce',
          bytes nonce,
          first_block (take 64 front) a b c d ntime nbits h64 nonce' beyond,
          behind_64 (take 64 front) a b c d ntime nbits h64 nonce' beyond,
          pad_block1_lem a b c d ntime nbits nonce nonce' beyond,
          sha256_words-header (take 64 front) a b c d ntime nbits h64 nonce,
        )
        refl)
