-- ===== src/Backend.antt =====
-- src/mining_job/backend.hpp and cpu_backend.cpp: the interface of a hasher, and the CPU's.
pub mod Cpu
use btccpu.Prelude.{ℕ, ◌%◌, ◌^◌, Bool, List, [], ◌∷◌, Option, none, some, Result, ok, ◌>>=◌}
use btccpu.WorkState.{PreparedWork, WorkState, work_state_from_prepared, with_nonce}
use btccpu.U256.{U256}
use btccpu.Scan.{ScanControl, ScanResult, ShareCandidate, scan_nonce_range}

pub record BackendScanRequest : Type 0 where
  pub prepared : PreparedWork
  pub network_target : U256
  pub share_target : U256
  pub nonce_begin : ℕ
  pub nonce_end : ℕ
  pub progress_interval : ℕ
  pub control : ScanControl

-- The callback, on the caller's state.
abbrev pub BackendShareFoundCallback : Type 0 → Type 0
BackendShareFoundCallback S = Option (ShareCandidate → S → S)

pub record HasherBackend : Type 1 where
  pub name : List ℕ
  pub scan :
      {S : Type 0} → BackendScanRequest → BackendShareFoundCallback S → S → Result (ScanResult × S)

-- The lambda that `CpuHasherBackend::scan` hands to `scan_nonce_range`.
unfoldable pub report_candidate :
    {S : Type 0} → BackendScanRequest → BackendShareFoundCallback S → ℕ → List ℕ → Bool → S → S
report_candidate request on_share_found nonce hash is_block_candidate caller = elim on_share_found [
  | none ↦ caller
  | some callback ↦
      callback
        (record {
          work = with_nonce (work_state_from_prepared request.prepared 0) nonce;
          nonce = nonce;
          hash = hash;
          is_block_candidate = is_block_candidate;
          generation = request.control.expected_generation;
        })
        caller
]

unfoldable pub cpu_scan :
    {S : Type 0} → BackendScanRequest → BackendShareFoundCallback S → S → Result (ScanResult × S)
cpu_scan request on_share_found caller = do
  let work = work_state_from_prepared request.prepared (request.nonce_begin % 2 ^ 32)
  (result, end) ←
      scan_nonce_range request.network_target request.share_target request.control
        (some (report_candidate request on_share_found)) work request.nonce_begin request.nonce_end
        caller
  ok (result, end.caller)

-- The codes of "cpu".
abbrev pub cpu_hasher_backend : HasherBackend
cpu_hasher_backend = record { name = 99 ∷ 112 ∷ 117 ∷ []; scan = cpu_scan }
