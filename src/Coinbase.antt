-- ===== src/Coinbase.antt =====
-- src/mining_job/coinbase.hpp and coinbase.cpp: building the coinbase transaction from the job's
-- two halves and the extranonces.
pub mod Build
pub mod Reader
pub mod Bech32
use btccpu.Prelude.{
  ℕ, ◌*◌, ◌%◌, ◌^◌, List, [], ◌∷◌, ◌++◌, length, ◌==◌, Result, ok, err, invalid_argument, ◌>>=◌,
  ◌>>◌, require,
}
use btccpu.Hex.{is_lower_hex_string, hex_to_bytes, hex_from_u64_be}
use btccpu.Sha256.{dbl_sha256_words, digest_words_to_bytes_be}
use btccpu.Job.{MiningJob, SubscriptionContext}

pub record CoinbaseBuild : Type 0 where
  pub extranonce2_hex : List ℕ
  pub coinbase_hex : List ℕ
  pub coinbase_bytes : List ℕ
  pub coinbase_hash : List ℕ

unfoldable pub extranonce2_from_counter : ℕ → ℕ → Result (List ℕ)
extranonce2_from_counter value size_bytes = hex_from_u64_be value size_bytes

-- `sub.extranonce2_size * 2U` is a 64-bit product.
unfoldable pub make_coinbase_hex : MiningJob → SubscriptionContext → List ℕ → Result (List ℕ)
make_coinbase_hex job sub extranonce2_hex = do
  require (is_lower_hex_string job.coinb1) invalid_argument
  require (is_lower_hex_string job.coinb2) invalid_argument
  require (is_lower_hex_string sub.extranonce1) invalid_argument
  require (is_lower_hex_string extranonce2_hex) invalid_argument
  require (length extranonce2_hex == sub.extranonce2_size * 2 % 2 ^ 64) invalid_argument
  ok (job.coinb1 ++ (sub.extranonce1 ++ (extranonce2_hex ++ job.coinb2)))

unfoldable pub build_coinbase : MiningJob → SubscriptionContext → List ℕ → Result CoinbaseBuild
build_coinbase job sub extranonce2_hex = do
  coinbase_hex ← make_coinbase_hex job sub extranonce2_hex
  coinbase_bytes ← hex_to_bytes coinbase_hex
  ok (record {
    extranonce2_hex = extranonce2_hex;
    coinbase_hex = coinbase_hex;
    coinbase_bytes = coinbase_bytes;
    coinbase_hash = digest_words_to_bytes_be (dbl_sha256_words coinbase_bytes);
  })
