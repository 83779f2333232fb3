-- ===== src/Coordinator.antt =====
-- src/mining_job/coordinator.cpp: the prepared work, its generation, and the scan over it. The
-- callback may change the generation, so the coordinator's current one is read from the caller's
-- state.
pub mod Shares
use btccpu.Prelude.{
  ℕ, ◌+◌, ◌%◌, ◌^◌, Bool, true, false, not, List, Option, none, some, ◌==◌, if◌then◌else◌, Result,
  ok, err, runtime_error, ◌>>=◌,
}
use btccpu.Job.{MiningJob, SubscriptionContext, ShareSubmission}
use btccpu.WorkState.{PreparedWork, prepare_work, make_share_submission}
use btccpu.U256.{U256}
use btccpu.Scan.{ScanControl, ScanResult, ShareCandidate, increment}
use btccpu.Backend.{BackendScanRequest, BackendShareFoundCallback, HasherBackend}

abbrev pub CoordinatorShareFoundCallback : Type 0 → Type 0
CoordinatorShareFoundCallback S = Option (ShareSubmission → ShareCandidate → S → S)

pub record MiningCoordinator (S : Type 0) : Type 0 where
  pub prepared : Option PreparedWork
  pub generation : ℕ
  pub on_share_found : CoordinatorShareFoundCallback S

-- The constructor.
abbrev pub make_coordinator : {S : Type 0} → MiningCoordinator S
make_coordinator = record { prepared = none; generation = 0; on_share_found = none }

-- When `prepare_work` throws, the coordinator is left as it is.
unfoldable pub set_job :
    {S : Type 0}
    → List ℕ
    → MiningCoordinator S
    → MiningJob
    → SubscriptionContext
    → ℕ
    → Result (MiningCoordinator S)
set_job beyond coordinator job subscription extranonce2_counter = do
  prepared ← prepare_work beyond job subscription extranonce2_counter
  ok (record coordinator {
    prepared = some prepared;
    generation = increment coordinator.generation;
  })

-- `on_share_found`
unfoldable pub set_on_share_found :
    {S : Type 0} → MiningCoordinator S → CoordinatorShareFoundCallback S → MiningCoordinator S
set_on_share_found coordinator cb = record coordinator { on_share_found = cb }

-- The lambda that `scan_range` hands to the backend.
unfoldable pub report_submission :
    {S : Type 0} → MiningCoordinator S → (S → ℕ) → PreparedWork → ShareCandidate → S → S
report_submission coordinator current_generation prepared candidate caller =
    if not (coordinator.generation == current_generation caller)
    then caller
    else elim coordinator.on_share_found [
      | none ↦ caller
      | some callback ↦ callback (make_share_submission prepared candidate.nonce) candidate caller
    ]

unfoldable pub scan_range :
    {S : Type 0}
    → HasherBackend
    → MiningCoordinator S
    → (S → ℕ)
    → ℕ
    → ℕ
    → U256
    → U256
    → ℕ
    → ScanControl
    → S
    → Result (ScanResult × S)
scan_range backend coordinator current_generation nonce_begin nonce_end network_target share_target
      progress_interval control caller =
    elim coordinator.prepared [
      | none ↦ err runtime_error
      | some prepared ↦
          backend.scan
            (record {
              prepared = prepared;
              network_target = network_target;
              share_target = share_target;
              nonce_begin = nonce_begin;
              nonce_end = nonce_end;
              progress_interval = progress_interval;
              control = control;
            })
            (some (report_submission coordinator current_generation prepared)) caller
    ]
