-- ===== src/Coinbase/Build.antt =====
-- src/mining_job/coinbase.cpp: when a coinbase is built, and what its bytes and its hash are.
use btccpu.Prelude.{
  ℕ, ◌*◌, ◌%◌, ◌^◌, ◌≡◌, refl, sym, ap, ap₂, ◌∙◌, true, List, [], ◌∷◌, ◌++◌, length, IsByte,
  All-append, ok, arith, ok-injective, >>=-eq-ok,
}
use btccpu.Hex.{is_lower_hex_string, hex_to_bytes, bytes_to_hex, high_digit, low_digit}
use btccpu.Hex.Bytes.{Reads-of_ok, hex_to_bytes-bytes_to_hex, hex_to_bytes-Reads}
use btccpu.Job.{MiningJob, SubscriptionContext}
use btccpu.Merkle.Fold.{double_sha256}
use btccpu.Sha256.{digest_words_to_bytes_be}
use btccpu.Sha256.Messages.{dbl_sha256_words_lem}
use btccpu.Coinbase.{CoinbaseBuild, make_coinbase_hex, build_coinbase}

pub bytes_to_hex-append :
    (xs ys : List ℕ) → bytes_to_hex (xs ++ ys) ≡ bytes_to_hex xs ++ bytes_to_hex ys
unfolding bytes_to_hex
bytes_to_hex-append [] ys = refl
bytes_to_hex-append (x ∷ xs) ys =
    ap (λ (t : List ℕ). high_digit x ∷ low_digit x ∷ t) (bytes_to_hex-append xs ys)

pub hex_to_bytes-append :
    (s t xs ys : List ℕ)
    → hex_to_bytes s ≡ ok xs
    → hex_to_bytes t ≡ ok ys
    → hex_to_bytes (s ++ t) ≡ ok (xs ++ ys)
hex_to_bytes-append s t xs ys es et =
    let (_, bx, tx, _) = Reads-of_ok s xs es in
    let (_, by, ty, _) = Reads-of_ok t ys et in
    ap hex_to_bytes (sym (bytes_to_hex-append xs ys ∙ ap₂ ◌++◌ tx ty))
    ∙ hex_to_bytes-bytes_to_hex (xs ++ ys) (All-append IsByte xs ys bx by)

-- What a successful build is made of: the bytes of its four parts.
pub record IsBuilt (job : MiningJob) (sub : SubscriptionContext) (e2 : List ℕ) (c : CoinbaseBuild)
    : Type 0 where
  pub prefix : List ℕ
  pub nonce1 : List ℕ
  pub nonce2 : List ℕ
  pub suffix : List ℕ
  pub reads_prefix : hex_to_bytes job.coinb1 ≡ ok prefix
  pub reads_nonce1 : hex_to_bytes sub.extranonce1 ≡ ok nonce1
  pub reads_nonce2 : hex_to_bytes e2 ≡ ok nonce2
  pub reads_suffix : hex_to_bytes job.coinb2 ≡ ok suffix
  pub nonce2_size : length e2 ≡ sub.extranonce2_size * 2 % 2 ^ 64
  pub text : c.extranonce2_hex ≡ e2
  pub bytes : c.coinbase_bytes ≡ prefix ++ (nonce1 ++ (nonce2 ++ suffix))
  pub prints : c.coinbase_hex ≡ bytes_to_hex c.coinbase_bytes
  pub hash : c.coinbase_hash ≡ double_sha256 c.coinbase_bytes

-- The five guards of `make_coinbase_hex`.
guards :
    (job : MiningJob) (sub : SubscriptionContext) (e2 s : List ℕ)
    → make_coinbase_hex job sub e2 ≡ ok s
    → (is_lower_hex_string job.coinb1 ≡ true)
      × (is_lower_hex_string job.coinb2 ≡ true)
      × (is_lower_hex_string sub.extranonce1 ≡ true)
      × (is_lower_hex_string e2 ≡ true)
      × (length e2 ≡ sub.extranonce2_size * 2 % 2 ^ 64)
      × (s ≡ job.coinb1 ++ (sub.extranonce1 ++ (e2 ++ job.coinb2)))
unfolding make_coinbase_hex
guards job sub e2 s e = ground arith

-- Every coinbase that is built has as its bytes those of coinb1, extranonce1, extranonce2 and
-- coinb2 in this order, its text prints them, and its hash is their double SHA-256.
pub build_coinbase-IsBuilt :
    (job : MiningJob) (sub : SubscriptionContext) (e2 : List ℕ) (c : CoinbaseBuild)
    → build_coinbase job sub e2 ≡ ok c
    → IsBuilt job sub e2 c
unfolding build_coinbase
build_coinbase-IsBuilt job sub e2 c e =
    let (s, es, fs) = >>=-eq-ok (make_coinbase_hex job sub e2) _ e in
    let (g1, g2, g3, g4, g5, g6) = guards job sub e2 s es in
    let (p, rp) = hex_to_bytes-Reads job.coinb1 g1 in
    let (q, rq) = hex_to_bytes-Reads job.coinb2 g2 in
    let (n1, r1) = hex_to_bytes-Reads sub.extranonce1 g3 in
    let (n2, r2) = hex_to_bytes-Reads e2 g4 in
    let whole = p ++ (n1 ++ (n2 ++ q)) in
    let reads : hex_to_bytes s ≡ ok whole =
      ap hex_to_bytes g6
      ∙ hex_to_bytes-append _ _ p _ rp.0
          (hex_to_bytes-append _ _ n1 _ r1.0 (hex_to_bytes-append e2 job.coinb2 n2 q r2.0 rq.0)) in
    let (bs, eb, fb) = >>=-eq-ok (hex_to_bytes s) _ fs in
    let same : bs ≡ whole = cc in
    let built = ok-injective fb in
    let as_bytes = ap (λ (r : CoinbaseBuild). r.coinbase_bytes) (sym built) in
    record {
      prefix = p;
      nonce1 = n1;
      nonce2 = n2;
      suffix = q;
      reads_prefix = rp.0;
      reads_nonce1 = r1.0;
      reads_nonce2 = r2.0;
      reads_suffix = rq.0;
      nonce2_size = g5;
      text = cc;
      bytes = as_bytes ∙ same;
      prints =
          ap (λ (r : CoinbaseBuild). r.coinbase_hex) (sym built)
          ∙ sym (Reads-of_ok s bs eb).2
          ∙ ap bytes_to_hex (sym as_bytes);
      hash =
          ap (λ (r : CoinbaseBuild). r.coinbase_hash) (sym built)
          ∙ ap digest_words_to_bytes_be (dbl_sha256_words_lem bs)
          ∙ ap double_sha256 (sym as_bytes);
    }
