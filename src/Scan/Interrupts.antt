-- ===== src/Scan/Interrupts.antt =====
-- src/mining_job/scan.cpp: how soon the loop answers a stop request and a new generation.
use btccpu.Prelude.{
  ℕ, ◌+◌, ◌-◌, ◌*◌, ◌/◌, ◌%◌, ◌^◌, ◌≤◌, ◌<◌, ◌≡◌, ◌≢◌, refl, subst, true, false, ◌==◌, Bool-cases,
  inl, inr, some, ok, leb, leb→le, arith,
}
use btccpu.WorkState.{WorkState}
use btccpu.U256.{U256}
use btccpu.Scan.{
  ScanStopReason, exhausted, stale, stop_requested, ScanControl, ScanResult, ShareFoundCallback,
  ScanState, generation_changed, scan_nonce_range,
}
use btccpu.Scan.Run.{Ends}
use btccpu.Scan.Coverage.{scan_nonce_range-IsScan}
use native.Mathlib.Nat.{mul-mod_left, div-add-mod', mod-lt}

-- A new generation is seen at every multiple of the check interval.
generation_changed_at :
    (control : ScanControl) (generation : ℕ → ℕ) (q : ℕ)
    → control.work_generation ≡ some generation
    → 0 < control.check_interval
    → generation (q * control.check_interval) ≢ control.expected_generation
    → generation_changed control (q * control.check_interval) ≡ true
unfolding generation_changed
generation_changed_at control generation q e pos differs =
    let on_time : q * control.check_interval % control.check_interval ≡ 0 =
      mul-mod_left q control.check_interval in
    let checks : (control.check_interval == 0) ≡ false = ground arith in
    let changed : (generation (q * control.check_interval) == control.expected_generation) ≡ false =
      ground arith in
    rw (e, checks, on_time, changed) refl

hashes-le_of_rounds :
    (control : ScanControl) (reason : ScanStopReason) (total rounds hashes : ℕ)
    → Ends control reason total 0 rounds hashes
    → hashes ≤ rounds + 1
hashes-le_of_rounds control exhausted total rounds hashes h = omega arith
hashes-le_of_rounds control stop_requested total rounds hashes h = omega arith
hashes-le_of_rounds control stale total rounds hashes h = omega arith

hashes-le_of_stop :
    (control : ScanControl) (reason : ScanStopReason) (total rounds hashes k : ℕ)
    → Ends control reason total 0 rounds hashes
    → rounds ≤ k
    → control.stop_token k ≡ true
    → hashes ≤ k
hashes-le_of_stop control exhausted total rounds hashes k h le stop = omega arith
hashes-le_of_stop control stop_requested total rounds hashes k h le stop = omega arith
hashes-le_of_stop control stale total rounds hashes k (lt, e, running, changed) le stop =
    elim (Bool-cases (leb k rounds)) [
      | inl here ↦
          let same : 0 + rounds ≡ k = ground arith in
          let running' = subst (λ (n : ℕ). control.stop_token n ≡ false) same running in cc
      | inr before ↦ ground arith
    ]

-- A scan makes at most `k` hashes if a stop is requested when `k` hashes are made.
pub scan_nonce_range_stops :
    {S : Type 0} (network_target share_target : U256) (control : ScanControl)
    (on_share_found : ShareFoundCallback S) (work : WorkState) (nonce_begin nonce_end : ℕ)
    (caller : S) (k : ℕ)
    → nonce_begin ≤ nonce_end
    → nonce_end < 2 ^ 32
    → control.stop_token k ≡ true
    → (result : ScanResult) × (end : ScanState S) × (scan_nonce_range network_target share_target
          control on_share_found work nonce_begin nonce_end caller
        ≡ ok (result, end))
      × (result.hashes_done ≤ k)
scan_nonce_range_stops nt st control cb work nonce_begin nonce_end caller k le lt stop =
    let (result, end, e, x) =
      scan_nonce_range-IsScan nt st control cb work nonce_begin nonce_end caller le lt in
    elim (Bool-cases (leb x.rounds k)) [
      | inl before ↦ (
        result,
        end,
        e,
        hashes-le_of_stop control result.stop_reason (nonce_end + 1 - nonce_begin) x.rounds
            result.hashes_done k x.ends (leb→le x.rounds k before) stop,
      )
      | inr beyond ↦ let running = (x.quiet k (ground arith)).0 in cc
    ]

-- If the work generation is another one from `k` hashes on, a scan makes no hash behind the next
-- multiple of the check interval, which is not 0.
pub scan_nonce_range_sees_new_work :
    {S : Type 0} (network_target share_target : U256) (control : ScanControl)
    (on_share_found : ShareFoundCallback S) (work : WorkState) (nonce_begin nonce_end : ℕ)
    (caller : S) (generation : ℕ → ℕ) (k : ℕ)
    → nonce_begin ≤ nonce_end
    → nonce_end < 2 ^ 32
    → control.work_generation ≡ some generation
    → 0 < control.check_interval
    → ((i : ℕ) → k ≤ i → generation i ≢ control.expected_generation)
    → (result : ScanResult) × (end : ScanState S) × (scan_nonce_range network_target share_target
          control on_share_found work nonce_begin nonce_end caller
        ≡ ok (result, end))
      × (result.hashes_done ≤ (k / control.check_interval + 1) * control.check_interval)
scan_nonce_range_sees_new_work nt st control cb work nonce_begin nonce_end caller generation k le lt
      e pos differs =
    let (result, end, ran, x) =
      scan_nonce_range-IsScan nt st control cb work nonce_begin nonce_end caller le lt in
    let due = (k / control.check_interval + 1) * control.check_interval in
    let after : k < due = omega (arith, div-add-mod' k control.check_interval, mod-lt k pos) in
    let changed : generation_changed control due ≡ true =
      generation_changed_at control generation (k / control.check_interval + 1) e pos
        (differs due (omega arith)) in
    let hashes =
      hashes-le_of_rounds control result.stop_reason (nonce_end + 1 - nonce_begin) x.rounds
        result.hashes_done x.ends in
    elim (Bool-cases (leb due x.rounds)) [
      | inl beyond ↦
          let same : due - 1 + 1 ≡ due = omega arith in
          let unchanged =
            subst (λ (n : ℕ). generation_changed control n ≡ false) same
              (x.quiet (due - 1) (ground arith)).1 in
          cc
      | inr before ↦ (result, end, ran, ground arith)
    ]
