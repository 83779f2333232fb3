-- ===== src/Merkle.antt =====
-- src/mining_job/merkle.cpp: the fold of a coinbase hash with its merkle branch.
pub mod Fold
use btccpu.Prelude.{
  ℕ, List, [], ◌∷◌, ◌++◌, length, ◌==◌, Result, ok, err, invalid_argument, ◌>>=◌, ◌>>◌, require,
}
use btccpu.Hex.{hex_to_bytes, bytes_to_hex}
use btccpu.Sha256.{dbl_sha256_words, digest_words_to_bytes_be}

unfoldable pub to_hash_bytes : List ℕ → Result (List ℕ)
to_hash_bytes bytes = do require (length bytes == 32) invalid_argument; ok bytes

-- Each round hashes the 64-byte buffer of the current hash and the branch's hash.
unfoldable pub merkle_fold : List ℕ → List (List ℕ) → Result (List ℕ)
merkle_fold current_hash [] = ok current_hash
merkle_fold current_hash (branch_hex ∷ merkle_branch) = do
  branch_vec ← hex_to_bytes branch_hex
  branch ← to_hash_bytes branch_vec
  merkle_fold (digest_words_to_bytes_be (dbl_sha256_words (current_hash ++ branch))) merkle_branch

unfoldable pub merkle_root_raw_hex : List ℕ → List (List ℕ) → Result (List ℕ)
merkle_root_raw_hex coinbase_hash merkle_branch = do
  root ← merkle_fold coinbase_hash merkle_branch
  ok (bytes_to_hex root)
