-- ===== src/Scan/Nonces.antt =====
-- What a scan is to do, said without its state: each nonce of a range on its own.
use btccpu.Prelude.{none, some, ℕ, zero, suc, ◌+◌, ◌≤◌, Bool, List, if◌then◌else◌, arith}
use btccpu.Sha256.{digest_words_to_bytes_be}
use btccpu.Header.{set_header_nonce, hash_header_template}
use btccpu.WorkState.{WorkState}
use btccpu.U256.{U256}
use btccpu.Target.{hash_meets_target}
use btccpu.Scan.{ShareFoundCallback}

-- The hash of a nonce with a work's header.
abbrev pub hash_of : WorkState → ℕ → List ℕ
hash_of work nonce =
    digest_words_to_bytes_be (hash_header_template (set_header_nonce work.header_template nonce))

abbrev pub meets : WorkState → U256 → ℕ → Bool
meets work target nonce = hash_meets_target (hash_of work nonce) target

-- How many of `n` numbers from `from` pass a test.
abbrev pub count : (ℕ → Bool) → ℕ → ℕ → ℕ
count test zero from = 0
count test (suc n) from = (if test from then 1 else 0) + count test n (suc from)

pub count-le : (test : ℕ → Bool) (n from : ℕ) → count test n from ≤ n
count-le test zero from = omega arith
count-le test (suc n) from = ground (arith, count-le test n (suc from))

-- The caller's state behind one call of the callback, if there is one.
abbrev pub tell : {S : Type 0} → ShareFoundCallback S → ℕ → List ℕ → Bool → S → S
tell none nonce hash meets_network caller = caller
tell (some callback) nonce hash meets_network caller = callback nonce hash meets_network caller

-- The caller's state after the callback has been called for every nonce of `n` from `from` that
-- meets the share target, in order, with its hash and whether it meets the network target.
abbrev pub report : {S : Type 0} → WorkState → U256 → U256 → ShareFoundCallback S → ℕ → ℕ → S → S
report work network_target share_target callback zero from caller = caller
report work network_target share_target callback (suc n) from caller =
    report work network_target share_target callback n (suc from) (
      if meets work share_target from
      then tell callback from (hash_of work from) (meets work network_target from) caller
      else caller)
