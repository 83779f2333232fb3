-- ===== src/Job.antt =====
-- src/mining_job/job.hpp and share.hpp. A `std::string` is the list of its character codes.
use btccpu.Prelude.{ℕ, List, Bool}

pub record SubscriptionContext : Type 0 where
  pub extranonce1 : List ℕ
  pub extranonce2_size : ℕ

pub record MiningJob : Type 0 where
  pub job_id : List ℕ
  pub prevhash : List ℕ
  pub coinb1 : List ℕ
  pub coinb2 : List ℕ
  pub merkle_branch : List (List ℕ)
  pub version : List ℕ
  pub nbits : List ℕ
  pub ntime : List ℕ
  pub clean_jobs : Bool

pub record ShareSubmission : Type 0 where
  pub job_id : List ℕ
  pub extranonce2_hex : List ℕ
  pub ntime_hex : List ℕ
  pub nonce_hex : List ℕ
