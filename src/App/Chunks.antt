-- ===== src/App/Chunks.antt =====
-- src/main.cpp: the chunks that the worker scans, and what follows them.
use btccpu.App.Shares.{chunk_share, chunk_shares, report-chunk_shares}
use btccpu.Prelude.{
  Result-cases, inl, inr, ℕ, append-nil, ◌++◌, All, All-append, length, length-append, append_assoc,
  [], ◌∷◌, ◌+◌, ◌-◌, ◌%◌, ◌^◌, ◌≤◌, ◌<◌, ◌≡◌, refl, ap, sym, ◌∙◌, subst, Bool, true, List, Option,
  none, some, Result, ok, ok-injective, err, runtime_error, ◌==◌, arith,
}
use btccpu.WorkState.{
  prepare_work, WorkState, PreparedWork, make_share_submission, hash_prepared_work_nonce,
  work_state_from_prepared, advance_extranonce2,
}
use btccpu.Scan.{exhausted, ScanResult, ShareCandidate, ScanState, scan_nonce_range}
use btccpu.Scan.Coverage.{scan_nonce_range_exhausts}
use btccpu.Backend.{BackendScanRequest, report_candidate, cpu_scan, cpu_hasher_backend}
use btccpu.Coordinator.{
  MiningCoordinator, set_job, set_on_share_found, scan_range, report_submission,
}
use btccpu.Target.{hash_meets_target}
use btccpu.Backend.Cpu.{candidate_of, cpu_scan-keeps}
use btccpu.Scan.Run.{IsQuiet}
use btccpu.App.{scan_finished, push_event, chunk_started, PublishedWork, Shared, QueuedShare, push}
use btccpu.App.Worker.{
  count_found, count_scan, make_scan_chunk, make_scan_control, max_nonce, progress_interval,
  continue_scanning, handle_found_share, run_scan_chunk, handle_scan_result, worker_round,
  WorkerNextAction,
}

-- The chunk of a 32-bit nonce is the rest of the nonces: it ends with the last one, and its size is
-- the number of nonces in it.
pub make_scan_chunk_lem :
    (nonce : ℕ)
    → nonce < 2 ^ 32
    → ((make_scan_chunk nonce).nonce_begin ≡ nonce)
      × ((make_scan_chunk nonce).nonce_end ≡ 2 ^ 32 - 1)
      × (nonce + (make_scan_chunk nonce).hashes ≡ 2 ^ 32)
unfolding make_scan_chunk
make_scan_chunk_lem nonce h = (refl, ground arith, ground arith)

-- The coordinator is set to a work: it has the prepared work of the work's job, subscription and
-- counter.
abbrev pub HasWork : {S : Type 0} → List ℕ → MiningCoordinator S → WorkState → PreparedWork → Type 0
HasWork beyond coordinator work p =
    (coordinator.prepared ≡ some p)
    × (prepare_work beyond work.job work.subscription work.extranonce2_counter ≡ ok p)

set_job-HasWork :
    {S : Type 0} (beyond : List ℕ) (coordinator set : MiningCoordinator S) (work : WorkState)
    → set_job beyond coordinator work.job work.subscription work.extranonce2_counter ≡ ok set
    → (p : PreparedWork) × HasWork beyond set work p
unfolding set_job
set_job-HasWork beyond coordinator set work h =
    elim (Result-cases (prepare_work beyond work.job work.subscription work.extranonce2_counter)) [
      | inl (e, fails) ↦ let k = rw (fails, set_job) at h in cc
      | inr (p, prepares) ↦
          let k = rw (prepares, set_job) at h in
          (p, (sym (ap MiningCoordinator.prepared (ok-injective k)), prepares))
    ]

module _ {Double : Type 0} (coordinator : MiningCoordinator (Shared Double)) (p : PreparedWork)
    (published : PublishedWork Double) (stop_token : ℕ → Bool) (work_generation : ℕ → ℕ) where
  -- A share of a chunk: the prepared work's submission of a nonce, with the nonce's hash, which meets
  -- the published target, and the published generation.
  abbrev pub IsOfChunk : QueuedShare → Type 0
  IsOfChunk q =
      (q.submission ≡ make_share_submission p q.candidate.nonce)
      × (q.candidate.hash ≡ hash_prepared_work_nonce p q.candidate.nonce)
      × (hash_meets_target q.candidate.hash published.share_target ≡ true)
      × (q.candidate.generation ≡ published.generation)

  -- The shares that were queued since, and their count.
  abbrev HasQueued : Shared Double → Shared Double → Type 0
  HasQueued before after =
      (queued : List QueuedShare) × (after.share_queue ≡ before.share_queue ++ queued)
      × All IsOfChunk queued
      × (after.counters.shares_found % 2 ^ 64
          ≡ (before.counters.shares_found + length queued) % 2 ^ 64)
      × (after.counters.hashes_done ≡ before.counters.hashes_done)

  abbrev request : ℕ → ℕ → BackendScanRequest
  request nonce_begin nonce_end = record {
    prepared = p;
    network_target = published.network_target;
    share_target = published.share_target;
    nonce_begin = nonce_begin;
    nonce_end = nonce_end;
    progress_interval = progress_interval;
    control = make_scan_control stop_token work_generation published.generation;
  }

  abbrev listening : MiningCoordinator (Shared Double)
  listening = set_on_share_found coordinator (some (handle_found_share published))

  chunk_candidate :
      (first last nonce : ℕ)
      → hash_meets_target (hash_prepared_work_nonce p nonce) published.share_target ≡ true
      → IsOfChunk (record {
        submission = make_share_submission p nonce;
        candidate = candidate_of (request first last) nonce;
      })
  unfolding make_scan_control
  chunk_candidate first last nonce met = (refl, refl, met, refl)

  -- The coordinator passes every candidate of the scan on.
  report_submission-listening :
      (candidate : ShareCandidate) (s : Shared Double)
      → report_submission listening (λ caller. coordinator.generation) p candidate s
        ≡ handle_found_share published (make_share_submission p candidate.nonce) candidate s
  unfolding report_submission set_on_share_found
  report_submission-listening candidate s =
      let same : (coordinator.generation == coordinator.generation) ≡ true = ground arith in
      rw (same, report_submission) refl

  handle_found_share-HasQueued :
      (before s : Shared Double) (candidate : ShareCandidate)
      → IsOfChunk
          (record { submission = make_share_submission p candidate.nonce; candidate = candidate })
      → HasQueued before s
      → HasQueued before
          (handle_found_share published (make_share_submission p candidate.nonce) candidate s)
  unfolding handle_found_share count_found push
  handle_found_share-HasQueued before s candidate good (queued, appended, all, found, hashes) =
      let one : QueuedShare = record {
        submission = make_share_submission p candidate.nonce;
        candidate = candidate;
      } in
      let longer = length-append queued (one ∷ []) in
      (
        queued ++ (one ∷ []),
        ap (λ q. q ++ (one ∷ [])) appended ∙ append_assoc before.share_queue queued (one ∷ []),
        All-append IsOfChunk queued (one ∷ []) all (good, tt),
        omega arith,
        hashes,
      )

  abbrev started : WorkState → ℕ → ℕ → Shared Double → Shared Double
  started work nonce_begin nonce_end shared =
      push_event
        (chunk_started (record {
          job_id = work.job.job_id;
          extranonce2_hex = work.coinbase.extranonce2_hex;
          generation = published.generation;
          nonce_begin = nonce_begin;
          nonce_end = nonce_end;
        }))
        shared

  abbrev finished : WorkState → ScanResult → Shared Double → Shared Double
  finished work result scanned =
      push_event
        (scan_finished (record {
          job_id = work.job.job_id;
          extranonce2_hex = work.coinbase.extranonce2_hex;
          generation = published.generation;
          result = result;
        }))
        (record scanned { counters = count_scan result.hashes_done scanned.counters })

  -- The callback of the scan.
  abbrev submits : ShareCandidate → Shared Double → Shared Double
  submits = report_submission listening (λ caller. coordinator.generation) p

  scan_range-request :
      (nonce_begin nonce_end : ℕ) (caller : Shared Double)
      → coordinator.prepared ≡ some p
      → scan_range cpu_hasher_backend listening
          (λ s. coordinator.generation)
          nonce_begin
          nonce_end
          published.network_target
          published.share_target
          progress_interval
          (make_scan_control stop_token work_generation published.generation)
          caller
        ≡ cpu_scan (request nonce_begin nonce_end) (some submits) caller
  unfolding scan_range set_on_share_found
  scan_range-request nonce_begin nonce_end caller prepared =
      ap
        (λ (o : Option PreparedWork).
          elim o as (λ (o : Option PreparedWork). Result (ScanResult × Shared Double)) [
            | none ↦ err runtime_error
            | some q ↦
                cpu_scan (record (request nonce_begin nonce_end) { prepared = q })
                  (some (report_submission listening (λ s. coordinator.generation) q)) caller
          ])
        prepared

  run_scan_chunk-scan :
      (work : WorkState) (nonce_begin nonce_end : ℕ) (shared scanned : Shared Double)
      (result : ScanResult)
      → scan_range cpu_hasher_backend listening
          (λ s. coordinator.generation)
          nonce_begin
          nonce_end
          published.network_target
          published.share_target
          progress_interval
          (make_scan_control stop_token work_generation published.generation)
          (started work nonce_begin nonce_end shared)
        ≡ ok (result, scanned)
      → run_scan_chunk cpu_hasher_backend coordinator published work nonce_begin nonce_end
          stop_token work_generation shared
        ≡ (finished work result scanned, ok (result, listening))
  unfolding run_scan_chunk
  run_scan_chunk-scan work nonce_begin nonce_end shared scanned result ran =
      rw (ran, run_scan_chunk) refl

  -- With a prepared work, the scan of a range of 32-bit nonces returns whatever interrupts it, and the
  -- chunk leaves in the queue, behind the shares that were there, only shares of the prepared work
  -- whose hash meets the published target, each under the published generation; it counts as many
  -- shares found, and the hashes of the scan.
  pub run_scan_chunk-IsOfChunk :
      (work : WorkState) (nonce_begin nonce_end : ℕ) (shared : Shared Double)
      → coordinator.prepared ≡ some p
      → nonce_begin ≤ nonce_end
      → nonce_end < 2 ^ 32
      → (result : ScanResult) × (after : Shared Double) × (run_scan_chunk cpu_hasher_backend
            coordinator published work nonce_begin nonce_end stop_token work_generation shared
          ≡ (after, ok (result, listening)))
        × (queued : List QueuedShare) × (after.share_queue ≡ shared.share_queue ++ queued)
        × All IsOfChunk queued
        × (after.counters.shares_found % 2 ^ 64
            ≡ (shared.counters.shares_found + length queued) % 2 ^ 64)
        × (after.counters.hashes_done ≡ (shared.counters.hashes_done + result.hashes_done) % 2 ^ 64)
  unfolding count_scan
  run_scan_chunk-IsOfChunk work nonce_begin nonce_end shared prepared le lt =
      let (result, scanned, ran, (queued, appended, all, found, hashes)) =
        cpu_scan-keeps (request nonce_begin nonce_end) submits (HasQueued shared)
          (started work nonce_begin nonce_end shared) le lt
          (λ nonce s from to met h.
            subst (HasQueued shared)
              (sym (
                report_submission-listening (candidate_of (request nonce_begin nonce_end) nonce) s))
              (handle_found_share-HasQueued shared s
                (candidate_of (request nonce_begin nonce_end) nonce)
                (chunk_candidate nonce_begin nonce_end nonce met) h))
          ([], sym (append-nil shared.share_queue), tt, omega arith, refl) in
      (
        result,
        finished work result scanned,
        run_scan_chunk-scan work nonce_begin nonce_end shared scanned result (
            scan_range-request nonce_begin nonce_end (started work nonce_begin nonce_end shared)
              prepared
            ∙ ran),
        queued,
        appended,
        all,
        found,
        ap (λ (n : ℕ). (n + result.hashes_done) % 2 ^ 64) hashes,
      )

  submits-share_queue :
      (nonce_begin nonce_end nonce : ℕ) (s : Shared Double)
      → (submits (candidate_of (request nonce_begin nonce_end) nonce) s).share_queue
        ≡ s.share_queue
          ++ (chunk_share p published.network_target
                (request nonce_begin nonce_end).control.expected_generation
                nonce
              ∷ [])
  unfolding handle_found_share push
  submits-share_queue nonce_begin nonce_end nonce s =
      ap Shared.share_queue
        (report_submission-listening (candidate_of (request nonce_begin nonce_end) nonce) s)

  cpu_scan-ran :
      (nonce_begin nonce_end : ℕ) (caller : Shared Double) (end : ScanState (Shared Double))
      (result : ScanResult)
      → scan_nonce_range published.network_target published.share_target
          (make_scan_control stop_token work_generation published.generation)
          (some (report_candidate (request nonce_begin nonce_end) (some submits)))
          (work_state_from_prepared p (nonce_begin % 2 ^ 32))
          nonce_begin
          nonce_end
          caller
        ≡ ok (result, end)
      → cpu_scan (request nonce_begin nonce_end) (some submits) caller ≡ ok (result, end.caller)
  unfolding cpu_scan
  cpu_scan-ran nonce_begin nonce_end caller end result ran = rw (ran, cpu_scan) refl

  -- A scan that nothing interrupts.
  run_scan_chunk-exhausted :
      (work : WorkState) (nonce_begin nonce_end : ℕ) (shared : Shared Double)
      → coordinator.prepared ≡ some p
      → nonce_begin ≤ nonce_end
      → nonce_end < 2 ^ 32
      → ((i : ℕ)
          → i < nonce_end + 1 - nonce_begin
          → IsQuiet (make_scan_control stop_token work_generation published.generation) i)
      → (result : ScanResult) × (after : Shared Double) × (run_scan_chunk cpu_hasher_backend
            coordinator published work nonce_begin nonce_end stop_token work_generation shared
          ≡ (after, ok (result, listening)))
        × (result.stop_reason ≡ exhausted)
        × (result.hashes_done ≡ nonce_end + 1 - nonce_begin)
        × (after.share_queue
            ≡ shared.share_queue
              ++ chunk_shares p published.network_target published.share_target published.generation
                  (nonce_end + 1 - nonce_begin)
                  nonce_begin)
  unfolding make_scan_control
  run_scan_chunk-exhausted work nonce_begin nonce_end shared prepared le lt quiet =
      let cb : Option (ℕ → List ℕ → Bool → Shared Double → Shared Double) =
        some (report_candidate (request nonce_begin nonce_end) (some submits)) in
      let (result, end, ran, reason, hashes, _, _, reported) =
        scan_nonce_range_exhausts published.network_target published.share_target
          (make_scan_control stop_token work_generation published.generation) cb
          (work_state_from_prepared p (nonce_begin % 2 ^ 32)) nonce_begin nonce_end
          (started work nonce_begin nonce_end shared) le lt quiet in
      (
        result,
        finished work result end.caller,
        run_scan_chunk-scan work nonce_begin nonce_end shared end.caller result (
            scan_range-request nonce_begin nonce_end (started work nonce_begin nonce_end shared)
              prepared
            ∙ cpu_scan-ran nonce_begin nonce_end (started work nonce_begin nonce_end shared) end
                result ran),
        reason,
        hashes,
        ap Shared.share_queue reported
            ∙ report-chunk_shares (request nonce_begin nonce_end) submits (nonce_begin % 2 ^ 32)
                (nonce_end + 1 - nonce_begin) nonce_begin
                (started work nonce_begin nonce_end shared)
                (submits-share_queue nonce_begin nonce_end),
      )

  -- Behind an exhausted chunk that ends with the last nonce.
  handle_scan_result-exhausted :
      (beyond : List ℕ) (result : ScanResult) (work next : WorkState)
      (set : MiningCoordinator (Shared Double)) (nonce_end : ℕ) (shared : Shared Double)
      → result.stop_reason ≡ exhausted
      → nonce_end ≡ max_nonce
      → advance_extranonce2 beyond work ≡ ok next
      → set_job beyond listening next.job next.subscription next.extranonce2_counter ≡ ok set
      → handle_scan_result beyond result work listening nonce_end shared
        ≡ (shared, ok (continue_scanning, next, set))
  unfolding handle_scan_result
  handle_scan_result-exhausted beyond result work next set nonce_end shared reason is_last advances
        sets =
      rw (reason, is_last, advances, sets, handle_scan_result) refl

  worker_round-ran :
      (beyond : List ℕ) (work : WorkState) (shared after : Shared Double) (result : ScanResult)
      → run_scan_chunk cpu_hasher_backend coordinator published work
          (make_scan_chunk work.nonce).nonce_begin
          (make_scan_chunk work.nonce).nonce_end
          stop_token
          work_generation
          shared
        ≡ (after, ok (result, listening))
      → worker_round beyond cpu_hasher_backend published stop_token work_generation work coordinator
          shared
        ≡ handle_scan_result beyond result work listening
            (make_scan_chunk work.nonce).nonce_end
            after
  unfolding worker_round
  worker_round-ran beyond work shared after result ran =
      ap
        (λ (q : Shared Double × Result (ScanResult × MiningCoordinator (Shared Double))).
          elim q.1
            as (λ (o : Result (ScanResult × MiningCoordinator (Shared Double))).
              Shared Double
              × Result (WorkerNextAction × WorkState × MiningCoordinator (Shared Double))) [
                | err e ↦ (q.0, err e)
                | ok (r, heard) ↦
                    handle_scan_result beyond r work heard (make_scan_chunk work.nonce).nonce_end
                      q.0
              ])
        ran

  -- When the coordinator is set to the work, and nothing interrupts the worker, a pass of its loop
  -- puts in the queue, behind the shares that were there, exactly the shares of the nonces from the
  -- work's to the last one: one for each nonce whose hash, with the prepared work, meets the published
  -- target, in order; it counts them as found, and a hash for each nonce; and it goes on with the work
  -- of the next extranonce2, to which the coordinator is then set.
  pub worker_round_exhausts :
      (beyond : List ℕ) (work next : WorkState) (set : MiningCoordinator (Shared Double))
      (shared : Shared Double)
      → HasWork beyond coordinator work p
      → work.nonce < 2 ^ 32
      → ((i : ℕ)
          → i < 2 ^ 32 - work.nonce
          → IsQuiet (make_scan_control stop_token work_generation published.generation) i)
      → advance_extranonce2 beyond work ≡ ok next
      → set_job beyond listening next.job next.subscription next.extranonce2_counter ≡ ok set
      → (after : Shared Double) × (worker_round beyond cpu_hasher_backend published stop_token
            work_generation work coordinator shared
          ≡ (after, ok (continue_scanning, next, set)))
        × (after.share_queue
            ≡ shared.share_queue
              ++ chunk_shares p published.network_target published.share_target published.generation
                  (2 ^ 32 - work.nonce)
                  work.nonce)
        × (after.counters.shares_found % 2 ^ 64
            ≡ (shared.counters.shares_found
                + length (
                    chunk_shares p published.network_target published.share_target
                      published.generation
                      (2 ^ 32 - work.nonce)
                      work.nonce))
              % 2 ^ 64)
        × (after.counters.hashes_done
            ≡ (shared.counters.hashes_done + (2 ^ 32 - work.nonce)) % 2 ^ 64)
        × (following : PreparedWork) × HasWork beyond set next following
  worker_round_exhausts beyond work next set shared (prepared, _) lt quiet advances sets =
      let chunk = make_scan_chunk work.nonce in
      let (begins, ends, _) = make_scan_chunk_lem work.nonce lt in
      let (result, after, ran, reason, hashes, exactly) =
        run_scan_chunk-exhausted work chunk.nonce_begin chunk.nonce_end shared prepared
          (omega arith) (omega arith) (λ i l. quiet i (omega arith)) in
      let (other, same, ran2, queued, appended, all, found, counted) =
        run_scan_chunk-IsOfChunk work chunk.nonce_begin chunk.nonce_end shared prepared
          (omega arith) (omega arith) in
      let handled =
        handle_scan_result-exhausted beyond result work next set chunk.nonce_end after reason ends
          advances sets in
      let both = sym ran ∙ ran2 in
      let is_same : after ≡ same =
        ap (λ (q : Shared Double × Result (ScanResult × MiningCoordinator (Shared Double))). q.0)
          both in
      let is_other : result ≡ other =
        ap (λ (q : ScanResult × MiningCoordinator (Shared Double)). q.0)
          (ok-injective (
            ap
              (λ (q : Shared Double × Result (ScanResult × MiningCoordinator (Shared Double))). q.1)
              both)) in
      let total : chunk.nonce_end + 1 - chunk.nonce_begin ≡ 2 ^ 32 - work.nonce = omega arith in
      let made : other.hashes_done ≡ 2 ^ 32 - work.nonce =
        sym (ap ScanResult.hashes_done is_other) ∙ hashes ∙ total in
      let shares =
        chunk_shares p published.network_target published.share_target published.generation in
      let these : after.share_queue
          ≡ shared.share_queue ++ shares (2 ^ 32 - work.nonce) work.nonce =
        exactly
        ∙ ap (λ n. shared.share_queue ++ shares n chunk.nonce_begin) total
        ∙ ap (λ b. shared.share_queue ++ shares (2 ^ 32 - work.nonce) b) begins in
      let n = length-append shared.share_queue queued in
      let m = length-append shared.share_queue (shares (2 ^ 32 - work.nonce) work.nonce) in
      let as_many = ap length (sym these ∙ ap Shared.share_queue is_same ∙ appended) in
      let finds = ap (λ (t : Shared Double). t.counters.shares_found) is_same in
      (
        after,
        worker_round-ran beyond work shared after result ran ∙ handled,
        these,
        omega arith,
        ap (λ (t : Shared Double). t.counters.hashes_done) is_same
            ∙ counted
            ∙ ap (λ (n : ℕ). (shared.counters.hashes_done + n) % 2 ^ 64) made,
        (set_job-HasWork beyond listening set next sets).0,
        (set_job-HasWork beyond listening set next sets).1,
      )
