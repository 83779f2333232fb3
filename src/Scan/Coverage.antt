-- ===== src/Scan/Coverage.antt =====
-- src/mining_job/scan.cpp: `scan_nonce_range` from its arguments to its result.
use btccpu.Prelude.{
  ℕ, ◌+◌, ◌-◌, ◌^◌, ◌≤◌, ◌<◌, ◌≡◌, refl, ap, ◌∙◌, subst, true, false, [], ltb, lt→ltb, ok, err,
  invalid_argument, out_of_range, arith,
}
use btccpu.WorkState.{WorkState}
use btccpu.U256.{U256}
use btccpu.Scan.{
  ScanStopReason, exhausted, stale, stop_requested, ScanControl, ScanResult, ShareFoundCallback,
  ScanState, generation_changed, store_if, scan_loop, scan_nonce_range,
}
use btccpu.Scan.Nonces.{meets, count, report}
use btccpu.Scan.Run.{Ends, IsQuiet, scan_loop-IsScanned}

module _ {S : Type 0} (network_target share_target : U256) (control : ScanControl)
    (on_share_found : ShareFoundCallback S) (work : WorkState) where
  -- What a scan of `total` nonces from `nonce_begin` found, and the caller's state behind it.
  pub record IsScan (total nonce_begin : ℕ) (caller : S) (result : ScanResult) (end : ScanState S)
      : Type 0 where
    pub rounds : ℕ
    pub ends : Ends control result.stop_reason total 0 rounds result.hashes_done
    pub quiet : (i : ℕ) → i < rounds → IsQuiet control i
    pub shares : result.shares_found ≡ count (meets work share_target) rounds nonce_begin
    pub blocks : result.blocks_found ≡ count (meets work network_target) rounds nonce_begin
    pub reported :
        end.caller
        ≡ report work network_target share_target on_share_found rounds nonce_begin caller

  -- For a range of 32-bit nonces `scan_nonce_range` returns, and it examined the nonces of the range
  -- from the first one on, each once, up to the first interruption or the end: the counts are those
  -- of the nonces that meet a target, and the callback was called for each nonce that meets the
  -- share target, in order, with its hash and whether it meets the network target.
  pub scan_nonce_range-IsScan :
      (nonce_begin nonce_end : ℕ) (caller : S)
      → nonce_begin ≤ nonce_end
      → nonce_end < 2 ^ 32
      → (result : ScanResult) × (end : ScanState S) × (scan_nonce_range network_target share_target
            control on_share_found work nonce_begin nonce_end caller
          ≡ ok (result, end))
        × IsScan (nonce_end + 1 - nonce_begin) nonce_begin caller result end
  unfolding scan_nonce_range
  scan_nonce_range-IsScan nonce_begin nonce_end caller le lt =
      let total = nonce_end + 1 - nonce_begin in
      let start : ScanState S = record {
        work = work;
        hashes_done = 0;
        shares_found = 0;
        blocks_found = 0;
        progress = store_if control [] 0;
        caller = caller;
      } in
      let end =
        scan_loop network_target share_target control on_share_found total nonce_begin start in
      let x =
        scan_loop-IsScanned network_target share_target control on_share_found work total
          nonce_begin start (omega arith)
          (record {
            header = λ n. refl;
            room = omega arith;
            shares_le = omega arith;
            blocks_le = omega arith;
          }) in
      let begins : ltb nonce_end nonce_begin ≡ false = ground arith in
      let fits : ltb (2 ^ 32 - 1) nonce_end ≡ false = ground arith in
      (
        record {
          hashes_done = end.0.hashes_done;
          shares_found = end.0.shares_found;
          blocks_found = end.0.blocks_found;
          stop_reason = end.1;
        },
        record end.0 { progress = store_if control end.0.progress end.0.hashes_done },
        rw (begins, fits) refl,
        record {
          rounds = x.rounds;
          ends = x.ends;
          quiet =
              λ i l. subst (IsQuiet control) (let e : 0 + i ≡ i = omega arith in e) (x.quiet i l);
          shares = x.shares ∙ omega arith;
          blocks = x.blocks ∙ omega arith;
          reported = x.reported;
        },
      )

  -- A range that ends before it begins is refused with `invalid_argument`, and otherwise one that
  -- ends behind the 32-bit nonces with `out_of_range`.
  pub scan_nonce_range_refuses :
      (nonce_begin nonce_end : ℕ) (caller : S)
      → (nonce_end < nonce_begin
          → scan_nonce_range network_target share_target control on_share_found work nonce_begin
              nonce_end caller
            ≡ err invalid_argument)
        × (nonce_begin ≤ nonce_end
            → 2 ^ 32 ≤ nonce_end
            → scan_nonce_range network_target share_target control on_share_found work nonce_begin
                nonce_end caller
              ≡ err out_of_range)
  unfolding scan_nonce_range
  scan_nonce_range_refuses nonce_begin nonce_end caller = (
    λ lt. rw (lt→ltb nonce_end nonce_begin lt) refl,
    λ le big.
        let begins : ltb nonce_end nonce_begin ≡ false = ground arith in
        let fits : ltb (2 ^ 32 - 1) nonce_end ≡ true = ground arith in rw (begins, fits) refl,
  )

  -- What a reason and the number of hashes are when nothing interrupts.
  Ends-exhausted :
      (reason : ScanStopReason) (total rounds hashes : ℕ)
      → Ends control reason total 0 rounds hashes
      → ((i : ℕ) → i < total → IsQuiet control i)
      → (reason ≡ exhausted) × (rounds ≡ total) × (hashes ≡ total)
  Ends-exhausted exhausted total rounds hashes h quiet = (refl, h.0, omega arith)
  Ends-exhausted stop_requested total rounds hashes (lt, e, stopped) quiet =
      let same : hashes ≡ rounds = omega arith in
      let stopped' = subst (λ (n : ℕ). control.stop_token n ≡ true) same stopped in
      let running = (quiet rounds lt).0 in cc
  Ends-exhausted stale total rounds hashes (lt, e, running, changed) quiet =
      let same : hashes ≡ rounds + 1 = omega arith in
      let changed' = subst (λ (n : ℕ). generation_changed control n ≡ true) same changed in
      let unchanged = (quiet rounds lt).1 in cc

  -- A scan of 32-bit nonces that no stop request and no new generation interrupts returns
  -- `exhausted`: it made one hash for each nonce of the range, counted all that meet a target, and
  -- reported all that meet the share target, in order.
  pub scan_nonce_range_exhausts :
      (nonce_begin nonce_end : ℕ) (caller : S)
      → nonce_begin ≤ nonce_end
      → nonce_end < 2 ^ 32
      → ((i : ℕ) → i < nonce_end + 1 - nonce_begin → IsQuiet control i)
      → (result : ScanResult) × (end : ScanState S) × (scan_nonce_range network_target share_target
            control on_share_found work nonce_begin nonce_end caller
          ≡ ok (result, end))
        × (result.stop_reason ≡ exhausted)
        × (result.hashes_done ≡ nonce_end + 1 - nonce_begin)
        × (result.shares_found
            ≡ count (meets work share_target) (nonce_end + 1 - nonce_begin) nonce_begin)
        × (result.blocks_found
            ≡ count (meets work network_target) (nonce_end + 1 - nonce_begin) nonce_begin)
        × (end.caller
            ≡ report work network_target share_target on_share_found
                (nonce_end + 1 - nonce_begin)
                nonce_begin
                caller)
  scan_nonce_range_exhausts nonce_begin nonce_end caller le lt quiet =
      let (result, end, e, x) = scan_nonce_range-IsScan nonce_begin nonce_end caller le lt in
      let total = nonce_end + 1 - nonce_begin in
      let (reason, rounds, hashes) =
        Ends-exhausted result.stop_reason total x.rounds result.hashes_done x.ends quiet in
      (
        result,
        end,
        e,
        reason,
        hashes,
        x.shares ∙ ap (λ (n : ℕ). count (meets work share_target) n nonce_begin) rounds,
        x.blocks ∙ ap (λ (n : ℕ). count (meets work network_target) n nonce_begin) rounds,
        x.reported
            ∙ ap
                (λ (n : ℕ).
                  report work network_target share_target on_share_found n nonce_begin caller)
                rounds,
      )
