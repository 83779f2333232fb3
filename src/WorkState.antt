-- ===== src/WorkState.antt =====
-- src/mining_job/work_state.hpp and work_state.cpp: a job turned into a header template, and the
-- state of the scan over it. `beyond` is the memory behind the header array (see Header).
pub mod Template
pub mod Submission
pub mod Counter
use btccpu.Prelude.{
  ℕ, ◌+◌, ◌-◌, ◌*◌, ◌%◌, ◌^◌, Bool, true, false, ◌&&◌, List, [], ◌∷◌, ltb, ◌==◌, if◌then◌else◌,
  Result, ok, err, invalid_argument, overflow_error, ◌>>=◌, ◌>>◌, throw_if,
}
use btccpu.Hex.{hex_to_array_32, hex_from_u32_be, u32_from_hex_be}
use btccpu.Endian.{byteswap_each_u32}
use btccpu.Sha256.{digest_words_to_bytes_be}
use btccpu.Header.{HeaderTemplate, make_sha_header_template, set_header_nonce, hash_header_template}
use btccpu.Job.{MiningJob, SubscriptionContext, ShareSubmission}
use btccpu.Merkle.{merkle_root_raw_hex}
use btccpu.Coinbase.{CoinbaseBuild, extranonce2_from_counter, build_coinbase}

pub record PreparedWork : Type 0 where
  pub job : MiningJob
  pub subscription : SubscriptionContext
  pub extranonce2_counter : ℕ
  pub extranonce2_hex : List ℕ
  pub coinbase : CoinbaseBuild
  pub merkle_root_raw_hex : List ℕ
  pub prevhash_sha_input : List ℕ
  pub merkle_root_sha_input : List ℕ
  pub header_template : HeaderTemplate

pub record WorkState : Type 0 where
  pub job : MiningJob
  pub subscription : SubscriptionContext
  pub extranonce2_counter : ℕ
  pub nonce : ℕ
  pub coinbase : CoinbaseBuild
  pub merkle_root_raw_hex : List ℕ
  pub prevhash_sha_input : List ℕ
  pub merkle_root_sha_input : List ℕ
  pub header_template : HeaderTemplate

unfoldable pub max_extranonce2_value : ℕ → Result ℕ
max_extranonce2_value size_bytes = do
  throw_if (ltb 8 size_bytes) invalid_argument
  if size_bytes == 0
      then ok 0
      else if size_bytes == 8
      then ok (2 ^ 64 - 1)
      else ok (2 ^ (size_bytes * 8) - 1)

unfoldable pub compute_merkle_root_raw_hex : CoinbaseBuild → MiningJob → Result (List ℕ)
compute_merkle_root_raw_hex coinbase job =
    merkle_root_raw_hex coinbase.coinbase_hash job.merkle_branch

unfoldable pub prevhash_sha_input_from_job : MiningJob → Result (List ℕ)
prevhash_sha_input_from_job job = do
  prevhash ← hex_to_array_32 job.prevhash
  ok (byteswap_each_u32 prevhash)

unfoldable pub merkle_root_sha_input_from_hex : List ℕ → Result (List ℕ)
merkle_root_sha_input_from_hex hex = hex_to_array_32 hex

unfoldable pub make_work_header_template :
    List ℕ → MiningJob → List ℕ → List ℕ → ℕ → Result HeaderTemplate
make_work_header_template beyond job prevhash_sha_input merkle_root_sha_input nonce = do
  version ← u32_from_hex_be job.version
  ntime ← u32_from_hex_be job.ntime
  nbits ← u32_from_hex_be job.nbits
  ok (
      make_sha_header_template beyond version prevhash_sha_input merkle_root_sha_input ntime nbits
        nonce)

unfoldable pub prepare_work : List ℕ → MiningJob → SubscriptionContext → ℕ → Result PreparedWork
prepare_work beyond job subscription extranonce2_counter = do
  max_value ← max_extranonce2_value subscription.extranonce2_size
  throw_if (ltb max_value extranonce2_counter) overflow_error
  extranonce2_hex ← extranonce2_from_counter extranonce2_counter subscription.extranonce2_size
  coinbase ← build_coinbase job subscription extranonce2_hex
  root_hex ← compute_merkle_root_raw_hex coinbase job
  prevhash_sha_input ← prevhash_sha_input_from_job job
  merkle_root_sha_input ← merkle_root_sha_input_from_hex root_hex
  header_template ← make_work_header_template beyond job prevhash_sha_input merkle_root_sha_input 0
  ok (record {
    job = job;
    subscription = subscription;
    extranonce2_counter = extranonce2_counter;
    extranonce2_hex = extranonce2_hex;
    coinbase = coinbase;
    merkle_root_raw_hex = root_hex;
    prevhash_sha_input = prevhash_sha_input;
    merkle_root_sha_input = merkle_root_sha_input;
    header_template = header_template;
  })

unfoldable pub hash_prepared_work_nonce : PreparedWork → ℕ → List ℕ
hash_prepared_work_nonce prepared nonce =
    digest_words_to_bytes_be
      (hash_header_template (set_header_nonce prepared.header_template nonce))

unfoldable pub work_state_from_prepared : PreparedWork → ℕ → WorkState
work_state_from_prepared prepared nonce = record {
  job = prepared.job;
  subscription = prepared.subscription;
  extranonce2_counter = prepared.extranonce2_counter;
  nonce = nonce;
  coinbase = prepared.coinbase;
  merkle_root_raw_hex = prepared.merkle_root_raw_hex;
  prevhash_sha_input = prepared.prevhash_sha_input;
  merkle_root_sha_input = prepared.merkle_root_sha_input;
  header_template = set_header_nonce prepared.header_template nonce;
}

-- `make_share_submission` of a prepared work and a nonce.
unfoldable pub make_share_submission : PreparedWork → ℕ → ShareSubmission
make_share_submission prepared nonce = record {
  job_id = prepared.job.job_id;
  extranonce2_hex = prepared.coinbase.extranonce2_hex;
  ntime_hex = prepared.job.ntime;
  nonce_hex = hex_from_u32_be nonce;
}

-- `make_share_submission` of a work state.
unfoldable pub make_work_share_submission : WorkState → ShareSubmission
make_work_share_submission work =
    make_share_submission
      (record {
        job = work.job;
        subscription = work.subscription;
        extranonce2_counter = work.extranonce2_counter;
        extranonce2_hex = work.coinbase.extranonce2_hex;
        coinbase = work.coinbase;
        merkle_root_raw_hex = work.merkle_root_raw_hex;
        prevhash_sha_input = work.prevhash_sha_input;
        merkle_root_sha_input = work.merkle_root_sha_input;
        header_template = work.header_template;
      })
      work.nonce

abbrev is_empty : List ℕ → Bool
is_empty [] = true
is_empty (x ∷ xs) = false

unfoldable pub empty : WorkState → Bool
empty work =
    is_empty work.job.job_id
    && is_empty work.subscription.extranonce1
    && is_empty work.coinbase.coinbase_bytes

unfoldable pub make_work_state : List ℕ → MiningJob → SubscriptionContext → ℕ → Result WorkState
make_work_state beyond job subscription extranonce2_counter = do
  prepared ← prepare_work beyond job subscription extranonce2_counter
  ok (work_state_from_prepared prepared 0)

unfoldable pub reset_nonce : WorkState → WorkState
reset_nonce work = record work {
  nonce = 0;
  header_template = set_header_nonce work.header_template 0;
}

-- The counter is a `std::uint64_t`.
unfoldable pub advance_extranonce2 : List ℕ → WorkState → Result WorkState
advance_extranonce2 beyond work = do
  prepared ←
      prepare_work beyond work.job work.subscription ((work.extranonce2_counter + 1) % 2 ^ 64)
  ok (work_state_from_prepared prepared 0)

unfoldable pub with_nonce : WorkState → ℕ → WorkState
with_nonce work nonce = record work {
  nonce = nonce;
  header_template = set_header_nonce work.header_template nonce;
}
