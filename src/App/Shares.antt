-- ===== src/App/Shares.antt =====
-- src/main.cpp: the shares that a scan of a range of nonces puts in the queue.
use btccpu.Prelude.{
  ℕ, zero, suc, ◌≡◌, refl, sym, ap, ◌∙◌, Bool, List, [], ◌∷◌, ◌++◌, append-nil, append_assoc,
  if◌then◌else◌, Option, some, Bool-cases, inl, inr,
}
use btccpu.WorkState.{
  PreparedWork, make_share_submission, hash_prepared_work_nonce, work_state_from_prepared,
}
use btccpu.U256.{U256}
use btccpu.Target.{hash_meets_target}
use btccpu.Scan.{ShareCandidate}
use btccpu.Scan.Nonces.{report, tell}
use btccpu.Backend.{BackendScanRequest, report_candidate}
use btccpu.Backend.Cpu.{candidate_of, hash_of-work_state_from_prepared, tell-candidate_of}
use btccpu.App.{QueuedShare, Shared}

-- The share of a nonce.
abbrev pub chunk_share : PreparedWork → U256 → ℕ → ℕ → QueuedShare
chunk_share p network_target generation nonce = record {
  submission = make_share_submission p nonce;
  candidate = record {
    work = work_state_from_prepared p nonce;
    nonce = nonce;
    hash = hash_prepared_work_nonce p nonce;
    is_block_candidate = hash_meets_target (hash_prepared_work_nonce p nonce) network_target;
    generation = generation;
  };
}

-- The shares of the `n` nonces from `from`: one for each nonce whose hash meets the share target, in
-- order.
abbrev pub chunk_shares : PreparedWork → U256 → U256 → ℕ → ℕ → ℕ → List QueuedShare
chunk_shares p network_target share_target generation zero from = []
chunk_shares p network_target share_target generation (suc n) from =
    let rest = chunk_shares p network_target share_target generation n (suc from) in
    if hash_meets_target (hash_prepared_work_nonce p from) share_target
    then chunk_share p network_target generation from ∷ rest
    else rest

module _ {Double : Type 0} (request : BackendScanRequest)
    (callback : ShareCandidate → Shared Double → Shared Double) where
  -- What the scan reports is what is queued, when the callback queues each candidate.
  pub report-chunk_shares :
      (first n from : ℕ) (caller : Shared Double)
      → ((nonce : ℕ) (s : Shared Double)
          → (callback (candidate_of request nonce) s).share_queue
            ≡ s.share_queue
              ++ (chunk_share request.prepared request.network_target
                    request.control.expected_generation nonce
                  ∷ []))
      → (report
          (work_state_from_prepared request.prepared first)
          request.network_target
          request.share_target
          (some (report_candidate request (some callback)))
          n
          from
          caller).share_queue
        ≡ caller.share_queue
          ++ chunk_shares request.prepared request.network_target request.share_target
              request.control.expected_generation n from
  report-chunk_shares first zero from caller queues = sym (append-nil caller.share_queue)
  report-chunk_shares first (suc n) from caller queues =
      let work = work_state_from_prepared request.prepared first in
      let cb : Option (ℕ → List ℕ → Bool → Shared Double → Shared Double) =
        some (report_candidate request (some callback)) in
      let called : List ℕ → Shared Double = λ (h : List ℕ).
        if hash_meets_target h request.share_target
        then tell cb from h (hash_meets_target h request.network_target) caller
        else caller in
      let goes_on : Shared Double → List QueuedShare = λ (s : Shared Double).
        (report work request.network_target request.share_target cb n (suc from) s).share_queue in
      let rest =
        chunk_shares request.prepared request.network_target request.share_target
          request.control.expected_generation n (suc from) in
      let same = ap called (hash_of-work_state_from_prepared request.prepared first from) in
      elim (Bool-cases
        (hash_meets_target (hash_prepared_work_nonce request.prepared from) request.share_target)) [
          | inl e ↦
              let calls : called (hash_prepared_work_nonce request.prepared from)
                  ≡ callback (candidate_of request from) caller =
                rw e (tell-candidate_of request callback from caller) in
              rw e (
                ap goes_on (same ∙ calls)
                ∙ report-chunk_shares first n (suc from)
                    (callback (candidate_of request from) caller) queues
                ∙ ap (λ (q : List QueuedShare). q ++ rest) (queues from caller)
                ∙ append_assoc caller.share_queue _ rest)
          | inr e ↦
              let calls : called (hash_prepared_work_nonce request.prepared from) ≡ caller =
                rw e refl in
              rw e
                (ap goes_on (same ∙ calls) ∙ report-chunk_shares first n (suc from) caller queues)
        ]
