-- ===== src/Tests/Texts.antt =====
-- Hex texts, hashes, headers and merkle branches at concrete inputs.
use btccpu.Prelude.{
  ℕ, ◌+◌, ◌-◌, ◌*◌, ◌%◌, ◌^◌, ◌≤◌, ◌<◌, ◌≡◌, ◌↔◌, ◌⊎◌, refl, true, false, List, [], ◌∷◌, ◌++◌, map,
  length, get_or, replicate, All, IsByte, ok, err, invalid_argument, arith,
}
use btccpu.Hex.{is_lower_hex_string, hex_to_bytes, bytes_to_hex, hex_from_u64_be}
use btccpu.Hex.Bytes.{hex_to_bytes-bytes_to_hex_iff, hex_to_bytes_cases}
use btccpu.Hex.Wide.{be_value, hex_from_u64_be_reads}
use btccpu.Sha256.{
  small_sigma0, small_sigma1, make_schedule, padded_message, sha256_words, dbl_sha256_words,
  digest_words_to_bytes_be,
}
use btccpu.Sha256.Schedules.{make_schedule_lem}
use btccpu.Sha256.Messages.{padded_message_lem, dbl_sha256_words_lem}
use btccpu.Header.{
  make_sha_input_header_bytes, make_sha_header_template, set_header_nonce, hash_header_template,
}
use btccpu.Header.Midstate.{hash_header_template_lem}
use btccpu.Merkle.{merkle_fold}
use btccpu.Merkle.Fold.{IsHash, root_of, merkle_fold_iff}

hex_to_bytes-bytes_to_hex_iff_example :
    (hex_to_bytes (b'0' ∷ b'a' ∷ []) ≡ ok (10 ∷ []))
    ↔ (All IsByte (10 ∷ []) × (bytes_to_hex (10 ∷ []) ≡ b'0' ∷ b'a' ∷ []))
hex_to_bytes-bytes_to_hex_iff_example = hex_to_bytes-bytes_to_hex_iff (b'0' ∷ b'a' ∷ []) (10 ∷ [])

hex_to_bytes_cases_example :
    ((is_lower_hex_string (b'0' ∷ b'A' ∷ []) ≡ true)
      × ((bs : List ℕ) × (hex_to_bytes (b'0' ∷ b'A' ∷ []) ≡ ok bs) × (2 ≡ 2 * length bs)))
    ⊎ ((is_lower_hex_string (b'0' ∷ b'A' ∷ []) ≡ false)
        × (hex_to_bytes (b'0' ∷ b'A' ∷ []) ≡ err invalid_argument))
hex_to_bytes_cases_example = hex_to_bytes_cases (b'0' ∷ b'A' ∷ [])

hex_from_u64_be_reads_example :
    (s bs : List ℕ) × (hex_from_u64_be 0x12345 3 ≡ ok s)
    × (length s ≡ 6)
    × (hex_to_bytes s ≡ ok bs)
    × (be_value bs ≡ 0x12345)
hex_from_u64_be_reads_example = hex_from_u64_be_reads 0x12345 3 (omega arith)

padded_message_lem_example :
    (z : ℕ) × (tail : List ℕ) × (padded_message (1 ∷ 2 ∷ [])
      ≡ (1 ∷ 2 ∷ []) ++ (0x80 ∷ (replicate z 0x00 ++ tail)))
    × (z < 64)
    × (length tail ≡ 8)
    × (be_value tail ≡ 16)
    × (length (padded_message (1 ∷ 2 ∷ [])) % 64 ≡ 0)
padded_message_lem_example = padded_message_lem (1 ∷ 2 ∷ []) (omega arith)

dbl_sha256_words_lem_example :
    dbl_sha256_words (1 ∷ 2 ∷ [])
    ≡ sha256_words (digest_words_to_bytes_be (sha256_words (1 ∷ 2 ∷ [])))
dbl_sha256_words_lem_example = dbl_sha256_words_lem (1 ∷ 2 ∷ [])

abbrev block : List ℕ
block = replicate 16 0x01020304

make_schedule_lem_example :
    (length (make_schedule block) ≡ 64)
    × ((t : ℕ) → t < 16 → get_or (make_schedule block) t 0 ≡ get_or block t 0)
    × ((t : ℕ)
        → 16 ≤ t
        → t < 64
        → get_or (make_schedule block) t 0
          ≡ (small_sigma1 (get_or (make_schedule block) (t - 2) 0)
              + get_or (make_schedule block) (t - 7) 0
              + small_sigma0 (get_or (make_schedule block) (t - 15) 0)
              + get_or (make_schedule block) (t - 16) 0)
            % 2 ^ 32)
make_schedule_lem_example = make_schedule_lem block refl

hash_header_template_lem_example :
    hash_header_template (
      set_header_nonce
        (make_sha_header_template
          (9 ∷ [])
          0x20000000
          (replicate 32 1)
          (replicate 32 2)
          0x69bccef7
          0x1701f0cc
          0)
        77)
    ≡ dbl_sha256_words (
        make_sha_input_header_bytes 0x20000000
          (replicate 32 1)
          (replicate 32 2)
          0x69bccef7
          0x1701f0cc
          77)
hash_header_template_lem_example =
    hash_header_template_lem (9 ∷ []) 0x20000000 (replicate 32 1) (replicate 32 2) 0x69bccef7
      0x1701f0cc 0 77 refl refl

abbrev branch : List (List ℕ)
branch = bytes_to_hex (replicate 32 7) ∷ []

merkle_fold_iff_example : (merkle_fold (replicate 32 1) branch ≡ ok (replicate 32 2)) ↔ (
    (bs : List (List ℕ)) × All IsHash bs
    × (branch ≡ map bytes_to_hex bs)
    × (replicate 32 2 ≡ root_of (replicate 32 1) bs))
merkle_fold_iff_example = merkle_fold_iff (replicate 32 1) branch (replicate 32 2)
