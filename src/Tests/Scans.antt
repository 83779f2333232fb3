-- ===== src/Tests/Scans.antt =====
-- Scans of a small work: to the end of the range, and stopped.
use btccpu.Prelude.{
  ℕ, ◌+◌, ◌^◌, ◌≤◌, ◌<◌, ◌≡◌, ◌≢◌, refl, Bool, true, false, List, [], ◌∷◌, All, some, none, ok, leb,
  if◌then◌else◌, arith,
}
use btccpu.Job.{ShareSubmission}
use btccpu.WorkState.{WorkState, work_state_from_prepared}
use btccpu.U256.{U256, of_u64}
use btccpu.Target.{hash_meets_target}
use btccpu.Scan.{
  exhausted, ScanControl, ScanResult, ScanState, ShareCandidate, generation_changed,
  scan_nonce_range,
}
use btccpu.Scan.Nonces.{meets, count, report}
use btccpu.Scan.Coverage.{IsScan, scan_nonce_range-IsScan, scan_nonce_range_exhausts}
use btccpu.Scan.Interrupts.{scan_nonce_range_stops, scan_nonce_range_sees_new_work}
use btccpu.Backend.{BackendScanRequest, cpu_hasher_backend}
use btccpu.Coordinator.{MiningCoordinator, set_job, scan_range}
use btccpu.Coordinator.Shares.{IsValidShare, scan_range-IsValidShare}
use btccpu.Tests.Works.{small_job, small_subscription, small_work, small_work_lem}

-- A stop is requested at 100 hashes, and the generation changes at 50.
abbrev control : ScanControl
control = record {
  stop_token = λ hashes. leb 100 hashes;
  work_generation = some (λ hashes. if leb 50 hashes then 2 else 1);
  expected_generation = 1;
  check_interval = 16;
  progress_hashes_done = true;
}

abbrev work : WorkState
work = work_state_from_prepared small_work 0

abbrev target : U256
target = record { w0 = 0; w1 = 0; w2 = 0; w3 = 2 ^ 62 }

-- The caller keeps the nonces.
abbrev keep : ℕ → List ℕ → Bool → List ℕ → List ℕ
keep nonce hash is_block nonces = nonce ∷ nonces

quiet_below_10 :
    (i : ℕ) → i < 10 → (leb 100 i ≡ false) × (generation_changed control (i + 1) ≡ false)
unfolding generation_changed
quiet_below_10 i h = (ground arith, ground arith)

scan_nonce_range_exhausts_example :
    (result : ScanResult) × (end : ScanState (List ℕ)) × (scan_nonce_range
        (of_u64 1)
        target
        control
        (some keep)
        work
        20
        29
        []
      ≡ ok (result, end))
    × (result.stop_reason ≡ exhausted)
    × (result.hashes_done ≡ 10)
    × (result.shares_found ≡ count (meets work target) 10 20)
    × (result.blocks_found ≡ count (meets work (of_u64 1)) 10 20)
    × (end.caller ≡ report work (of_u64 1) target (some keep) 10 20 [])
scan_nonce_range_exhausts_example =
    scan_nonce_range_exhausts (of_u64 1) target control (some keep) work 20 29 [] (omega arith)
      (omega arith) quiet_below_10

scan_nonce_range-IsScan_example :
    (result : ScanResult) × (end : ScanState (List ℕ)) × (scan_nonce_range
        (of_u64 1)
        target
        control
        (some keep)
        work
        20
        200
        []
      ≡ ok (result, end))
    × IsScan (of_u64 1) target control (some keep) work 181 20 [] result end
scan_nonce_range-IsScan_example =
    scan_nonce_range-IsScan (of_u64 1) target control (some keep) work 20 200 [] (omega arith)
      (omega arith)

scan_nonce_range_stops_example :
    (result : ScanResult) × (end : ScanState (List ℕ)) × (scan_nonce_range
        (of_u64 1)
        target
        control
        (some keep)
        work
        20
        2000
        []
      ≡ ok (result, end))
    × (result.hashes_done ≤ 100)
scan_nonce_range_stops_example =
    scan_nonce_range_stops (of_u64 1) target control (some keep) work 20 2000 [] 100 (omega arith)
      (omega arith) refl

abbrev generations : ℕ → ℕ
generations hashes = if leb 50 hashes then 2 else 1

other_from_50 : (i : ℕ) → 50 ≤ i → generations i ≢ 1
other_from_50 i h = ground arith

scan_nonce_range_sees_new_work_example :
    (result : ScanResult) × (end : ScanState (List ℕ)) × (scan_nonce_range
        (of_u64 1)
        target
        control
        (some keep)
        work
        20
        2000
        []
      ≡ ok (result, end))
    × (result.hashes_done ≤ 64)
scan_nonce_range_sees_new_work_example =
    scan_nonce_range_sees_new_work (of_u64 1) target control (some keep) work 20 2000 [] generations
      50 (omega arith) (omega arith) refl (omega arith) other_from_50

abbrev request : BackendScanRequest
request = record {
  prepared = small_work;
  network_target = of_u64 1;
  share_target = target;
  nonce_begin = 20;
  nonce_end = 29;
  progress_interval = 0;
  control = control;
}

-- The caller keeps the hashes, which all meet the target.
abbrev keep_hash : ShareCandidate → List (List ℕ) → List (List ℕ)
keep_hash candidate hashes = candidate.hash ∷ hashes

abbrev AllMeet : List (List ℕ) → Type 0
AllMeet hashes = All (λ hash. hash_meets_target hash target ≡ true) hashes

-- The caller keeps the shares with their candidates.
abbrev keep_share :
    ShareSubmission
    → ShareCandidate
    → List (ShareSubmission × ShareCandidate)
    → List (ShareSubmission × ShareCandidate)
keep_share share candidate shares = (share, candidate) ∷ shares

abbrev AllValid : List (ShareSubmission × ShareCandidate) → Type 0
AllValid shares = All (λ s. IsValidShare small_job small_subscription target s.0 s.1) shares

abbrev before : MiningCoordinator (List (ShareSubmission × ShareCandidate))
before = record { prepared = none; generation = 0; on_share_found = some keep_share }

abbrev coordinator : MiningCoordinator (List (ShareSubmission × ShareCandidate))
coordinator = record {
  prepared = some small_work;
  generation = 1;
  on_share_found = some keep_share;
}

set_lem : set_job [] before small_job small_subscription 5 ≡ ok coordinator
unfolding set_job
set_lem = rw small_work_lem refl

scan_range-IsValidShare_example :
    (result : ScanResult) × (end : List (ShareSubmission × ShareCandidate)) × (scan_range
        cpu_hasher_backend coordinator
        (λ s. 1)
        20
        29
        (of_u64 1)
        target
        0
        control
        []
      ≡ ok (result, end))
    × AllValid end
scan_range-IsValidShare_example =
    scan_range-IsValidShare (List (ShareSubmission × ShareCandidate)) [] before coordinator
      small_job small_subscription 5 20 29 0 (of_u64 1) target control (λ s. 1) AllValid []
      keep_share set_lem refl (omega arith) (omega arith)
      (λ share candidate shares valid all. (valid, all)) tt
