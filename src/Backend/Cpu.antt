-- ===== src/Backend/Cpu.antt =====
-- src/mining_job/cpu_backend.cpp: the candidates that the CPU's hasher reports.
use btccpu.Prelude.{
  ℕ, zero, suc, ◌+◌, ◌-◌, ◌≤◌, ◌<◌, ◌%◌, ◌^◌, ◌≡◌, refl, sym, ap, subst, true, if◌then◌else◌,
  Bool-cases, inl, inr, some, ok, arith,
}
use btccpu.Sha256.{digest_words_to_bytes_be}
use btccpu.Header.{hash_header_template}
use btccpu.WorkState.{PreparedWork, WorkState, work_state_from_prepared, hash_prepared_work_nonce}
use btccpu.WorkState.Submission.{set_header_nonce_twice, with_nonce-work_state_from_prepared}
use btccpu.U256.{U256}
use btccpu.Target.{hash_meets_target}
use btccpu.Scan.{
  ScanStopReason, exhausted, stop_requested, stale, ScanControl, ScanResult, ShareCandidate,
  ShareFoundCallback,
}
use btccpu.Scan.Nonces.{hash_of, meets, report, tell}
use btccpu.Scan.Run.{Ends}
use btccpu.Scan.Coverage.{scan_nonce_range-IsScan}
use btccpu.Backend.{BackendScanRequest, report_candidate, cpu_scan}

-- A property of the caller's state that every call of the callback keeps.
report-keeps :
    {S : Type 0} (work : WorkState) (network_target share_target : U256)
    (callback : ShareFoundCallback S) (P : S → Type 0) (n from : ℕ) (caller : S)
    → ((nonce : ℕ) (s : S)
        → from ≤ nonce
        → nonce < from + n
        → meets work share_target nonce ≡ true
        → P s
        → P (tell callback nonce (hash_of work nonce) (meets work network_target nonce) s))
    → P caller
    → P (report work network_target share_target callback n from caller)
report-keeps work nt st callback P zero from caller keeps h = h
report-keeps work nt st callback P (suc n) from caller keeps h =
    report-keeps work nt st callback P n (suc from)
      (if meets work st from
        then tell callback from (hash_of work from) (meets work nt from) caller
        else caller)
      (λ nonce s le lt. keeps nonce s (omega arith) (omega arith)) first
  where
    first : P (
        if meets work st from
        then tell callback from (hash_of work from) (meets work nt from) caller
        else caller)
    first = elim (Bool-cases (meets work st from)) [
      | inl e ↦ rw e (keeps from caller (omega arith) (omega arith) e h)
      | inr e ↦ rw e h
    ]

-- The candidate of a nonce.
abbrev pub candidate_of : BackendScanRequest → ℕ → ShareCandidate
candidate_of request nonce = record {
  work = work_state_from_prepared request.prepared nonce;
  nonce = nonce;
  hash = hash_prepared_work_nonce request.prepared nonce;
  is_block_candidate =
      hash_meets_target (hash_prepared_work_nonce request.prepared nonce) request.network_target;
  generation = request.control.expected_generation;
}

pub hash_of-work_state_from_prepared :
    (p : PreparedWork) (first nonce : ℕ)
    → hash_of (work_state_from_prepared p first) nonce ≡ hash_prepared_work_nonce p nonce
unfolding work_state_from_prepared hash_prepared_work_nonce
hash_of-work_state_from_prepared p first nonce =
    ap (λ t. digest_words_to_bytes_be (hash_header_template t))
      (set_header_nonce_twice p.header_template first nonce)

-- The call that the scan makes for a nonce is the call of the callback with its candidate.
pub tell-candidate_of :
    {S : Type 0} (request : BackendScanRequest) (callback : ShareCandidate → S → S) (nonce : ℕ)
    (s : S)
    → tell
        (some (report_candidate request (some callback)))
        nonce
        (hash_prepared_work_nonce request.prepared nonce)
        (hash_meets_target (hash_prepared_work_nonce request.prepared nonce) request.network_target)
        s
      ≡ callback (candidate_of request nonce) s
unfolding report_candidate
tell-candidate_of request callback nonce s =
    rw (with_nonce-work_state_from_prepared request.prepared 0 nonce) refl

rounds-le :
    (control : ScanControl) (reason : ScanStopReason) (left before rounds hashes : ℕ)
    → Ends control reason left before rounds hashes
    → rounds ≤ left
rounds-le control exhausted left before rounds hashes h = omega arith
rounds-le control stop_requested left before rounds hashes h = omega arith
rounds-le control stale left before rounds hashes h = omega arith

-- For a range of 32-bit nonces the CPU's hasher returns, and all that it does to the caller's state
-- is to call the callback with the candidates of nonces of the range whose hash meets the share
-- target: what every such call keeps, the scan keeps.
pub cpu_scan-keeps :
    {S : Type 0} (request : BackendScanRequest) (callback : ShareCandidate → S → S) (P : S → Type 0)
    (caller : S)
    → request.nonce_begin ≤ request.nonce_end
    → request.nonce_end < 2 ^ 32
    → ((nonce : ℕ) (s : S)
        → request.nonce_begin ≤ nonce
        → nonce ≤ request.nonce_end
        → hash_meets_target (hash_prepared_work_nonce request.prepared nonce) request.share_target
          ≡ true
        → P s
        → P (callback (candidate_of request nonce) s))
    → P caller
    → (result : ScanResult) × (end : S) × (cpu_scan request (some callback) caller
        ≡ ok (result, end))
      × P end
unfolding cpu_scan
cpu_scan-keeps request callback P caller le lt keeps h =
    let work = work_state_from_prepared request.prepared (request.nonce_begin % 2 ^ 32) in
    let cb = report_candidate request (some callback) in
    let (result, end, ran, x) =
      scan_nonce_range-IsScan request.network_target request.share_target request.control (some cb)
        work request.nonce_begin request.nonce_end caller le lt in
    let rounds =
      rounds-le request.control result.stop_reason (request.nonce_end + 1 - request.nonce_begin) 0
        x.rounds result.hashes_done x.ends in
    (
      result,
      end.caller,
      rw ran refl,
      subst P (sym x.reported) (
          report-keeps work request.network_target request.share_target (some cb) P x.rounds
            request.nonce_begin caller
            (λ nonce s from to.
              rw
                (
                  hash_of-work_state_from_prepared request.prepared (request.nonce_begin % 2 ^ 32)
                      nonce,
                  tell-candidate_of request callback nonce s,
                )
                (keeps nonce s from (omega arith)))
            h),
    )
