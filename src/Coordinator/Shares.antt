-- ===== src/Coordinator/Shares.antt =====
-- src/mining_job/coordinator.cpp: the shares that a coordinator reports, as the pool sees them.
use btccpu.Prelude.{
  ℕ, ◌≤◌, ◌<◌, ◌^◌, ◌≡◌, sym, ap, true, List, ◌==◌, Bool-cases, inl, inr, some, ok, >>=-eq-ok,
  ok-injective, arith,
}
use btccpu.Job.{MiningJob, SubscriptionContext, ShareSubmission}
use btccpu.WorkState.{PreparedWork, prepare_work, make_share_submission}
use btccpu.WorkState.Template.{prepare_work-IsPrepared}
use btccpu.WorkState.Submission.{pool_hash, pool_hash-make_share_submission}
use btccpu.U256.{U256}
use btccpu.Target.{hash_meets_target}
use btccpu.Scan.{ScanControl, ScanResult, ShareCandidate}
use btccpu.Backend.{BackendScanRequest, cpu_hasher_backend}
use btccpu.Backend.Cpu.{candidate_of, cpu_scan-keeps}
use btccpu.Coordinator.{MiningCoordinator, set_job, report_submission, scan_range}

-- What holds of every share that is reported: the pool, from the submission, computes the hash of
-- the candidate, and that hash meets the share target.
abbrev pub IsValidShare :
    MiningJob → SubscriptionContext → U256 → ShareSubmission → ShareCandidate → Type 0
IsValidShare job subscription share_target share candidate =
    (pool_hash job subscription share ≡ ok candidate.hash)
    × (hash_meets_target candidate.hash share_target ≡ true)

-- A report changes the caller's state by the callback or not at all.
report_submission-keeps :
    (S : Type 0) (coordinator : MiningCoordinator S) (current_generation : S → ℕ) (p : PreparedWork)
    (candidate : ShareCandidate) (s : S) (P : S → Type 0)
    (callback : ShareSubmission → ShareCandidate → S → S)
    → coordinator.on_share_found ≡ some callback
    → P (callback (make_share_submission p candidate.nonce) candidate s)
    → P s
    → P (report_submission coordinator current_generation p candidate s)
unfolding report_submission
report_submission-keeps S coordinator current_generation p candidate s P callback registered called
      hs =
    elim (Bool-cases (coordinator.generation == current_generation s)) [
      | inl e ↦ rw (e, registered) called
      | inr e ↦ rw e hs
    ]

-- After `set_job` with a job has succeeded, a scan of 32-bit nonces with the CPU's hasher returns,
-- and the coordinator's callback is called with valid shares only: what every call with a share that
-- the pool, too, hashes to the candidate's hash, which meets the share target, keeps of the caller's
-- state, the scan keeps.
pub scan_range-IsValidShare :
    (S : Type 0) (beyond : List ℕ) (before coordinator : MiningCoordinator S) (job : MiningJob)
    (subscription : SubscriptionContext) (counter nonce_begin nonce_end progress_interval : ℕ)
    (network_target share_target : U256) (control : ScanControl) (current_generation : S → ℕ)
    (P : S → Type 0) (caller : S) (callback : ShareSubmission → ShareCandidate → S → S)
    → set_job beyond before job subscription counter ≡ ok coordinator
    → coordinator.on_share_found ≡ some callback
    → nonce_begin ≤ nonce_end
    → nonce_end < 2 ^ 32
    → ((share : ShareSubmission) (candidate : ShareCandidate) (s : S)
        → IsValidShare job subscription share_target share candidate
        → P s
        → P (callback share candidate s))
    → P caller
    → (result : ScanResult) × (end : S) × (scan_range cpu_hasher_backend coordinator
          current_generation nonce_begin nonce_end network_target share_target progress_interval
          control caller
        ≡ ok (result, end))
      × P end
unfolding scan_range set_job report_submission
scan_range-IsValidShare S beyond before coordinator job subscription counter nonce_begin nonce_end
      progress_interval network_target share_target control current_generation P caller callback set
      registered le lt keeps h =
    let (p, prepares, rest) = >>=-eq-ok (prepare_work beyond job subscription counter) _ set in
    let x = prepare_work-IsPrepared beyond job subscription counter p prepares in
    let prepared : coordinator.prepared ≡ some p =
      sym (ap MiningCoordinator.prepared (ok-injective rest)) in
    let request : BackendScanRequest = record {
      prepared = p;
      network_target = network_target;
      share_target = share_target;
      nonce_begin = nonce_begin;
      nonce_end = nonce_end;
      progress_interval = progress_interval;
      control = control;
    } in
    rw prepared (
      cpu_scan-keeps request (report_submission coordinator current_generation p) P caller le lt
        (λ nonce s from to met hs.
          report_submission-keeps S coordinator current_generation p (candidate_of request nonce) s
            P callback registered
            (keeps (make_share_submission p nonce) (candidate_of request nonce) s
              (
                pool_hash-make_share_submission beyond job subscription counter nonce p x
                    (omega arith),
                met,
              )
              hs)
            hs)
        h)
