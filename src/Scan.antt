-- ===== src/Scan.antt =====
-- src/mining_job/scan.hpp and scan.cpp: the loop over a range of nonces. What other threads write
-- is a function of the number of hashes made before the loop reads it, and the caller's callback
-- acts on a state of the caller. Clock readings and the rates made of them are left out.
pub mod Nonces
pub mod Run
pub mod Coverage
pub mod Interrupts
use btccpu.Prelude.{
  ℕ, zero, suc, ◌+◌, ◌-◌, ◌%◌, ◌^◌, Bool, true, false, not, ◌||◌, ◌&&◌, List, [], ◌∷◌, ◌++◌, Option,
  none, some, ltb, ◌==◌, if◌then◌else◌, Result, ok, out_of_range, invalid_argument, ◌>>=◌, ◌>>◌,
  throw_if,
}
use btccpu.Sha256.{digest_words_to_bytes_be}
use btccpu.Header.{set_header_nonce, hash_header_template}
use btccpu.WorkState.{WorkState}
use btccpu.U256.{U256}
use btccpu.Target.{hash_meets_target}

pub data ScanStopReason : Type 0 where
  exhausted stale stop_requested : ScanStopReason

pub record ShareCandidate : Type 0 where
  pub work : WorkState
  pub nonce : ℕ
  pub hash : List ℕ
  pub is_block_candidate : Bool
  pub generation : ℕ

-- `stop_token` answers, and `work_generation` holds, what they do after so many hashes; a null
-- pointer is `none`, and `progress_hashes_done` is only whether there is a counter to write.
pub record ScanControl : Type 0 where
  pub stop_token : ℕ → Bool
  pub work_generation : Option (ℕ → ℕ)
  pub expected_generation : ℕ
  pub check_interval : ℕ
  pub progress_hashes_done : Bool

pub record ScanResult : Type 0 where
  pub hashes_done : ℕ
  pub shares_found : ℕ
  pub blocks_found : ℕ
  pub stop_reason : ScanStopReason

unfoldable pub generation_changed : ScanControl → ℕ → Bool
generation_changed control hashes_done = elim control.work_generation [
  | none ↦ false
  | some work_generation ↦
      if control.check_interval == 0
      then false
      else if not (hashes_done % control.check_interval == 0)
      then false
      else not (work_generation hashes_done == control.expected_generation)
]

-- The callback: a nonce, its hash and whether it is a block, on the caller's state.
abbrev pub ShareFoundCallback : Type 0 → Type 0
ShareFoundCallback S = Option (ℕ → List ℕ → Bool → S → S)

-- The state of the loop: the work, the counts of `result`, the values stored as progress, and the
-- caller's state.
pub record ScanState (S : Type 0) : Type 0 where
  pub work : WorkState
  pub hashes_done : ℕ
  pub shares_found : ℕ
  pub blocks_found : ℕ
  pub progress : List ℕ
  pub caller : S

-- A round goes on to the next nonce or leaves the loop.
pub data Round (S : Type 0) : Type 0 where
  next : ScanState S → Round S
  leave : ScanState S → ScanStopReason → Round S

-- `std::uint64_t` arithmetic: `++count`.
abbrev pub increment : ℕ → ℕ
increment count = (count + 1) % 2 ^ 64

-- The store to the progress counter inside the loop.
unfoldable pub store_progress : ScanControl → ℕ → List ℕ → List ℕ
store_progress control hashes_done progress =
    if control.progress_hashes_done
      && (control.check_interval == 0 || hashes_done % control.check_interval == 0)
    then progress ++ (hashes_done ∷ [])
    else progress

unfoldable pub call_back : {S : Type 0} → ShareFoundCallback S → ℕ → List ℕ → Bool → S → S
call_back on_share_found nonce hash meets_network caller = elim on_share_found [
  | none ↦ caller
  | some callback ↦ callback nonce hash meets_network caller
]

-- The stores before and behind the loop.
unfoldable pub store_if : ScanControl → List ℕ → ℕ → List ℕ
store_if control progress hashes_done =
    if control.progress_hashes_done then progress ++ (hashes_done ∷ []) else progress

module _ {S : Type 0} (network_target share_target : U256) (control : ScanControl)
    (on_share_found : ShareFoundCallback S) where
  -- The body of the loop for one value of `scan_nonce`.
  unfoldable pub scan_round : ℕ → ScanState S → Round S
  scan_round scan_nonce s =
      if control.stop_token s.hashes_done
      then leave s stop_requested
      else (let nonce = scan_nonce % 2 ^ 32 in
          let header_template = set_header_nonce s.work.header_template nonce in
          let work = record s.work { nonce = nonce; header_template = header_template } in
          let hash_bytes = digest_words_to_bytes_be (hash_header_template header_template) in
          let hashes_done = increment s.hashes_done in
          let progress = store_progress control hashes_done s.progress in
          if generation_changed control hashes_done
          then leave (record s { work = work; hashes_done = hashes_done; progress = progress })
              stale
          else (let meets_network = hash_meets_target hash_bytes network_target in
              let meets_share = hash_meets_target hash_bytes share_target in
              next (record {
                work = work;
                hashes_done = hashes_done;
                shares_found = if meets_share then increment s.shares_found else s.shares_found;
                blocks_found = if meets_network then increment s.blocks_found else s.blocks_found;
                progress = progress;
                caller =
                    if meets_share
                    then call_back on_share_found nonce hash_bytes meets_network s.caller
                    else s.caller;
              })))

  -- The loop, with so many values of `scan_nonce` left up to and with `nonce_end`.
  unfoldable pub scan_loop : ℕ → ℕ → ScanState S → ScanState S × ScanStopReason
  scan_loop zero scan_nonce s = (s, exhausted)
  scan_loop (suc left) scan_nonce s = elim (scan_round scan_nonce s) [
    | next t ↦ scan_loop left (suc scan_nonce) t
    | leave t reason ↦ (t, reason)
  ]

  -- The result, and the final state: the work is the caller's object.
  unfoldable pub scan_nonce_range : WorkState → ℕ → ℕ → S → Result (ScanResult × ScanState S)
  scan_nonce_range work nonce_begin nonce_end caller = do
    throw_if (ltb nonce_end nonce_begin) invalid_argument
    throw_if (ltb (2 ^ 32 - 1) nonce_end) out_of_range
    let start : ScanState S = record {
      work = work;
      hashes_done = 0;
      shares_found = 0;
      blocks_found = 0;
      progress = store_if control [] 0;
      caller = caller;
    }
    let (s, reason) = scan_loop (nonce_end + 1 - nonce_begin) nonce_begin start
    ok (
      record {
        hashes_done = s.hashes_done;
        shares_found = s.shares_found;
        blocks_found = s.blocks_found;
        stop_reason = reason;
      },
      record s { progress = store_if control s.progress s.hashes_done },
    )
