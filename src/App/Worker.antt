-- ===== src/App/Worker.antt =====
-- src/main.cpp: the worker thread, and what the main thread does with events. `beyond` is the memory
-- behind a header array (see Header).
use btccpu.Prelude.{
  ℕ, ◌+◌, ◌-◌, ◌%◌, ◌^◌, Bool, true, List, [], ◌∷◌, Option, none, some, leb, ◌==◌, if◌then◌else◌,
  Result, ok, err, ◌>>=◌,
}
use btccpu.Hex.{bytes_to_hex_fixed_msb}
use btccpu.Job.{ShareSubmission}
use btccpu.WorkState.{WorkState, advance_extranonce2}
use btccpu.Scan.{
  exhausted, stale, stop_requested, ScanControl, ScanResult, ShareCandidate, increment,
}
use btccpu.Backend.{HasherBackend}
use btccpu.Coordinator.{MiningCoordinator, set_job, set_on_share_found, scan_range}
use btccpu.App.{
  PublishedWork, Counters, chunk_started, share_found, scan_finished, thread_exited, push, Shared,
  push_event,
}

pub record ScanChunk : Type 0 where
  pub nonce_begin : ℕ
  pub nonce_end : ℕ
  pub hashes : ℕ

-- kNonceChunkSize
abbrev pub nonce_chunk_size : ℕ
nonce_chunk_size = (2 ^ 32 - 1) + 1

-- kProgressInterval
abbrev pub progress_interval : ℕ
progress_interval = 1000000

-- kMaxNonce
abbrev pub max_nonce : ℕ
max_nonce = 2 ^ 32 - 1

-- The source subtracts on `std::uint64_t`, from a greatest nonce that is not exceeded.
unfoldable pub make_scan_chunk : ℕ → ScanChunk
make_scan_chunk nonce_begin =
    let remaining = (max_nonce - nonce_begin) + 1 in
    let hashes = if leb nonce_chunk_size remaining then nonce_chunk_size else remaining in
    record { nonce_begin = nonce_begin; nonce_end = nonce_begin + hashes - 1; hashes = hashes }

-- The tokens and the generation are what they are after so many hashes (see Scan).
unfoldable pub make_scan_control : (ℕ → Bool) → (ℕ → ℕ) → ℕ → ScanControl
make_scan_control stop_token work_generation expected_generation = record {
  stop_token = stop_token;
  work_generation = some work_generation;
  expected_generation = expected_generation;
  check_interval = 16384;
  progress_hashes_done = true;
}

pub data WorkerNextAction : Type 0 where
  adopt_new_work exit_thread continue_scanning : WorkerNextAction

-- "worker"
abbrev pub worker_name : List ℕ
worker_name = (b'w' ∷ b'o' ∷ b'r' ∷ b'k' ∷ b'e' ∷ b'r' ∷ [])

-- "control"
abbrev pub control_name : List ℕ
control_name = (b'c' ∷ b'o' ∷ b'n' ∷ b't' ∷ b'r' ∷ b'o' ∷ b'l' ∷ [])

-- The counters of a share.
unfoldable pub count_found : Bool → Counters → Counters
count_found is_block_candidate counters = record counters {
  shares_found = increment counters.shares_found;
  blocks_found =
      if is_block_candidate then increment counters.blocks_found else counters.blocks_found;
}

-- The counters behind a scan.
unfoldable pub count_scan : ℕ → Counters → Counters
count_scan hashes_done counters = record counters {
  hashes_done = (counters.hashes_done + hashes_done) % 2 ^ 64;
  current_scan_hashes_done = 0;
}

module _ {Double : Type 0} where
  unfoldable pub handle_found_share :
      PublishedWork Double → ShareSubmission → ShareCandidate → Shared Double → Shared Double
  handle_found_share published submission candidate shared =
      push_event
        (share_found (record {
          job_id = candidate.work.job.job_id;
          extranonce2_hex = candidate.work.coinbase.extranonce2_hex;
          generation = candidate.generation;
          nonce = candidate.nonce;
          hash = candidate.hash;
          share_target = published.share_target;
          network_target = published.network_target;
          block_candidate = candidate.is_block_candidate;
          coinbase_hex = candidate.work.coinbase.coinbase_hex;
          coinbase_hash_hex = bytes_to_hex_fixed_msb candidate.work.coinbase.coinbase_hash;
          merkle_root_raw_hex = candidate.work.merkle_root_raw_hex;
        }))
        (record shared {
          counters = count_found candidate.is_block_candidate shared.counters;
          share_queue =
              push shared.share_queue (record { submission = submission; candidate = candidate });
        })

  -- The coordinator's own generation does not change while it scans. A scan that throws does so
  -- before its first hash.
  unfoldable pub run_scan_chunk :
      HasherBackend
      → MiningCoordinator (Shared Double)
      → PublishedWork Double
      → WorkState
      → ℕ
      → ℕ
      → (ℕ → Bool)
      → (ℕ → ℕ)
      → Shared Double
      → Shared Double × Result (ScanResult × MiningCoordinator (Shared Double))
  run_scan_chunk backend coordinator published work nonce_begin nonce_end stop_token work_generation
        shared =
      let started =
        push_event
          (chunk_started (record {
            job_id = work.job.job_id;
            extranonce2_hex = work.coinbase.extranonce2_hex;
            generation = published.generation;
            nonce_begin = nonce_begin;
            nonce_end = nonce_end;
          }))
          shared in
      let control = make_scan_control stop_token work_generation published.generation in
      let listening = set_on_share_found coordinator (some (handle_found_share published)) in
      elim (scan_range backend listening (λ caller. coordinator.generation) nonce_begin nonce_end
        published.network_target published.share_target progress_interval control started) [
          | err e ↦ (started, err e)
          | ok (result, scanned) ↦ (
            push_event
                (scan_finished (record {
                  job_id = work.job.job_id;
                  extranonce2_hex = work.coinbase.extranonce2_hex;
                  generation = published.generation;
                  result = result;
                }))
                (record scanned { counters = count_scan result.hashes_done scanned.counters }),
            ok (result, listening),
          )
        ]

  -- The shared variables, and then what is returned with the work and the coordinator, which are
  -- changed in place.
  unfoldable pub handle_scan_result :
      List ℕ
      → ScanResult
      → WorkState
      → MiningCoordinator (Shared Double)
      → ℕ
      → Shared Double
      → Shared Double × Result (WorkerNextAction × WorkState × MiningCoordinator (Shared Double))
  handle_scan_result beyond result work coordinator nonce_end shared = elim result.stop_reason [
    | stale ↦ (shared, ok (adopt_new_work, work, coordinator))
    | stop_requested ↦ (
      push_event (thread_exited (record { thread_name = worker_name })) shared,
      ok (exit_thread, work, coordinator),
    )
    | exhausted ↦
        if nonce_end == max_nonce
        then (
          shared,
          (do
            next ← advance_extranonce2 beyond work
            set ← set_job beyond coordinator next.job next.subscription next.extranonce2_counter
            ok (continue_scanning, next, set)),
        )
        else (
          shared,
          ok (continue_scanning, record work { nonce = (nonce_end + 1) % 2 ^ 32 }, coordinator),
        )
  ]

  -- A pass through the inner loop of the worker thread, when no stop is requested.
  unfoldable pub worker_round :
      List ℕ
      → HasherBackend
      → PublishedWork Double
      → (ℕ → Bool)
      → (ℕ → ℕ)
      → WorkState
      → MiningCoordinator (Shared Double)
      → Shared Double
      → Shared Double × Result (WorkerNextAction × WorkState × MiningCoordinator (Shared Double))
  worker_round beyond backend published stop_token work_generation work coordinator shared =
      let chunk = make_scan_chunk work.nonce in
      let (scanned, outcome) =
        run_scan_chunk backend coordinator published work chunk.nonce_begin chunk.nonce_end
          stop_token work_generation shared in
      elim outcome [
        | err e ↦ (scanned, err e)
        | ok (result, listening) ↦
            handle_scan_result beyond result work listening chunk.nonce_end scanned
      ]

  -- The work that the worker thread adopts, set in its coordinator; `none` if nothing is published.
  unfoldable pub adopt_work :
      List ℕ
      → MiningCoordinator (Shared Double)
      → Shared Double
      → Option (Result (PublishedWork Double × MiningCoordinator (Shared Double)))
  adopt_work beyond coordinator shared = elim shared.published [
    | none ↦ none
    | some published ↦ some (do
      set ←
          set_job beyond coordinator published.work.job published.work.subscription
            published.work.extranonce2_counter
      ok (published, set))
  ]
