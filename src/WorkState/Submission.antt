-- ===== src/WorkState/Submission.antt =====
-- src/mining_job/work_state.cpp: the share that is submitted, and the nonce of a work state.
use btccpu.Prelude.{ℕ, ◌^◌, ◌<◌, ◌≡◌, refl, sym, ap, List, [], ◌∷◌, set, Result, ok, ◌>>=◌}
use btccpu.Hex.{hex_to_bytes, u32_from_hex_be}
use btccpu.Hex.Integers.{u32_from_hex_be-hex_from_u32_be}
use btccpu.Endian.{byteswap_each_u32}
use btccpu.Header.{HeaderTemplate, make_sha_input_header_bytes, set_header_nonce}
use btccpu.Job.{MiningJob, SubscriptionContext, ShareSubmission}
use btccpu.Merkle.{merkle_fold}
use btccpu.Merkle.Fold.{double_sha256}
use btccpu.Coinbase.{build_coinbase}
use btccpu.WorkState.{
  PreparedWork, hash_prepared_work_nonce, make_share_submission, work_state_from_prepared,
  with_nonce,
}
use btccpu.WorkState.Template.{IsPrepared, hash_prepared_work_nonce_lem}

-- What a pool computes from a submission: it rebuilds the coinbase with the submitted extranonce2,
-- folds it with the branch of its job, fills in the header, and hashes it. No template is used.
unfoldable pub pool_hash : MiningJob → SubscriptionContext → ShareSubmission → Result (List ℕ)
pool_hash job sub share = do
  coinbase ← build_coinbase job sub share.extranonce2_hex
  root ← merkle_fold coinbase.coinbase_hash job.merkle_branch
  prevhash ← hex_to_bytes job.prevhash
  version ← u32_from_hex_be job.version
  ntime ← u32_from_hex_be share.ntime_hex
  nbits ← u32_from_hex_be job.nbits
  nonce ← u32_from_hex_be share.nonce_hex
  ok (
      double_sha256
        (make_sha_input_header_bytes version (byteswap_each_u32 prevhash) root ntime nbits nonce))

-- The hash that a pool computes from the submission of a prepared work and a 32-bit nonce is the
-- hash that the miner found for that nonce.
pub pool_hash-make_share_submission :
    (beyond : List ℕ) (job : MiningJob) (subscription : SubscriptionContext) (counter nonce : ℕ)
    (p : PreparedWork)
    → IsPrepared beyond job subscription counter p
    → nonce < 2 ^ 32
    → pool_hash job subscription (make_share_submission p nonce)
      ≡ ok (hash_prepared_work_nonce p nonce)
unfolding pool_hash make_share_submission hash_prepared_work_nonce
pool_hash-make_share_submission beyond job subscription counter nonce p x h =
    rw
      (
        x.built.text,
        x.builds,
        x.root,
        x.reads_prevhash,
        x.reads_version,
        x.keeps_job,
        x.reads_ntime,
        x.reads_nbits,
        u32_from_hex_be-hex_from_u32_be nonce h,
      )
      (ap ok (sym (hash_prepared_work_nonce_lem beyond job subscription counter nonce p x)))

-- A nonce set twice is the later one.
set-set : (xs : List ℕ) (i a b : ℕ) → set (set xs i a) i b ≡ set xs i b
set-set [] i a b = refl
set-set (x ∷ xs) ℕ.zero a b = refl
set-set (x ∷ xs) (ℕ.suc i) a b = ap (λ (t : List ℕ). x ∷ t) (set-set xs i a b)

pub set_header_nonce_twice :
    (t : HeaderTemplate) (a b : ℕ)
    → set_header_nonce (set_header_nonce t a) b ≡ set_header_nonce t b
unfolding set_header_nonce
set_header_nonce_twice t a b = rw (set-set t.block1 3 _ _)

-- A work state of a prepared work, moved to another nonce, is the work state made with that nonce.
pub with_nonce-work_state_from_prepared :
    (p : PreparedWork) (a b : ℕ)
    → with_nonce (work_state_from_prepared p a) b ≡ work_state_from_prepared p b
unfolding with_nonce work_state_from_prepared
with_nonce-work_state_from_prepared p a b = rw (set_header_nonce_twice p.header_template a b)
