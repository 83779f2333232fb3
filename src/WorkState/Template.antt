-- ===== src/WorkState/Template.antt =====
-- src/mining_job/work_state.cpp: what a prepared work is made of, and what its hash is the hash of.
use btccpu.Prelude.{
  ℕ, ◌≤◌, ◌≡◌, refl, sym, ap, subst, ◌∙◌, true, false, Bool, List, ltb, length, ok, Error,
  overflow_error, throw_if, arith, ok-injective, >>=-eq-ok,
}
use btccpu.Hex.{hex_to_bytes, hex_to_array_32, bytes_to_hex, u32_from_hex_be}
use btccpu.Hex.Bytes.{hex_to_bytes-bytes_to_hex}
use btccpu.Endian.{byteswap_each_u32, length-byteswap_each_u32}
use btccpu.Sha256.{digest_words_to_bytes_be}
use btccpu.Sha256.Messages.{dbl_sha256_words_lem}
use btccpu.Header.{HeaderTemplate, make_sha_input_header_bytes, make_sha_header_template}
use btccpu.Header.Midstate.{hash_header_template_lem}
use btccpu.Job.{MiningJob, SubscriptionContext}
use btccpu.Merkle.{merkle_fold, merkle_root_raw_hex}
use btccpu.Merkle.Fold.{IsHash, double_sha256, digest-IsHash, merkle_fold-IsHash}
use btccpu.Coinbase.{CoinbaseBuild, extranonce2_from_counter, build_coinbase}
use btccpu.Coinbase.Build.{IsBuilt, build_coinbase-IsBuilt}
use btccpu.WorkState.{
  PreparedWork, max_extranonce2_value, compute_merkle_root_raw_hex, prevhash_sha_input_from_job,
  merkle_root_sha_input_from_hex, make_work_header_template, prepare_work, hash_prepared_work_nonce,
}

-- What a successful `prepare_work` leaves in its result.
pub record IsPrepared (beyond : List ℕ) (job : MiningJob) (subscription : SubscriptionContext)
    (counter : ℕ) (p : PreparedWork) : Type 0 where
  pub version : ℕ
  pub ntime : ℕ
  pub nbits : ℕ
  pub prevhash : List ℕ
  pub max_value : ℕ
  pub keeps_job : p.job ≡ job
  pub keeps_subscription : p.subscription ≡ subscription
  pub keeps_counter : p.extranonce2_counter ≡ counter
  pub reads_max : max_extranonce2_value subscription.extranonce2_size ≡ ok max_value
  pub within : counter ≤ max_value
  pub counter_text :
      extranonce2_from_counter counter subscription.extranonce2_size ≡ ok p.extranonce2_hex
  pub builds : build_coinbase job subscription p.extranonce2_hex ≡ ok p.coinbase
  pub built : IsBuilt job subscription p.extranonce2_hex p.coinbase
  pub root : merkle_fold p.coinbase.coinbase_hash job.merkle_branch ≡ ok p.merkle_root_sha_input
  pub root_hash : IsHash p.merkle_root_sha_input
  pub reads_prevhash : hex_to_bytes job.prevhash ≡ ok prevhash
  pub prevhash_size : length prevhash ≡ 32
  pub prevhash_input : p.prevhash_sha_input ≡ byteswap_each_u32 prevhash
  pub reads_version : u32_from_hex_be job.version ≡ ok version
  pub reads_ntime : u32_from_hex_be job.ntime ≡ ok ntime
  pub reads_nbits : u32_from_hex_be job.nbits ≡ ok nbits
  pub made_template :
      p.header_template
      ≡ make_sha_header_template beyond version p.prevhash_sha_input p.merkle_root_sha_input ntime
          nbits 0

throw_if-eq-ok : (b : Bool) (e : Error) (u : Unit {0}) → throw_if b e ≡ ok u → b ≡ false
throw_if-eq-ok true e u h = cc
throw_if-eq-ok false e u h = refl

array_32 : (s a : List ℕ) → hex_to_array_32 s ≡ ok a → (hex_to_bytes s ≡ ok a) × (length a ≡ 32)
unfolding hex_to_array_32
array_32 s a e =
    let (bs, eb, fb) = >>=-eq-ok (hex_to_bytes s) _ e in
    let size : length bs ≡ 32 = ground arith in
    let same : bs ≡ a = ground arith in (rw (← same) eb, rw (← same) size)

root_back :
    (h : List ℕ) (branch : List (List ℕ)) (text a : List ℕ)
    → IsHash h
    → merkle_root_raw_hex h branch ≡ ok text
    → hex_to_array_32 text ≡ ok a
    → (merkle_fold h branch ≡ ok a) × IsHash a
unfolding merkle_root_raw_hex
root_back h branch text a hh e f =
    let (r, er, fr) = >>=-eq-ok (merkle_fold h branch) _ e in
    let hr = merkle_fold-IsHash h branch r hh er in
    let back = hex_to_bytes-bytes_to_hex r hr.0 in
    let (got, _) = array_32 text a f in
    let printed : bytes_to_hex r ≡ text = ok-injective fr in
    let same : r ≡ a = cc in (er ∙ ap ok same, subst IsHash same hr)

-- The parts of the result, each from its step.
assemble :
    (beyond : List ℕ) (job : MiningJob) (subscription : SubscriptionContext) (counter max_value : ℕ)
    (text hex prev root : List ℕ) (c : CoinbaseBuild) (t : HeaderTemplate)
    → max_extranonce2_value subscription.extranonce2_size ≡ ok max_value
    → ltb max_value counter ≡ false
    → extranonce2_from_counter counter subscription.extranonce2_size ≡ ok text
    → build_coinbase job subscription text ≡ ok c
    → compute_merkle_root_raw_hex c job ≡ ok hex
    → prevhash_sha_input_from_job job ≡ ok prev
    → merkle_root_sha_input_from_hex hex ≡ ok root
    → make_work_header_template beyond job prev root 0 ≡ ok t
    → IsPrepared beyond job subscription counter (record {
      job = job;
      subscription = subscription;
      extranonce2_counter = counter;
      extranonce2_hex = text;
      coinbase = c;
      merkle_root_raw_hex = hex;
      prevhash_sha_input = prev;
      merkle_root_sha_input = root;
      header_template = t;
    })
unfolding compute_merkle_root_raw_hex prevhash_sha_input_from_job merkle_root_sha_input_from_hex
    make_work_header_template
assemble beyond job subscription counter max_value text hex prev root c t em et ex ec eh ep er e =
    let is_built = build_coinbase-IsBuilt job subscription text c ec in
    let hashed = subst IsHash (sym is_built.hash) (digest-IsHash _) in
    let (folded, is_hash) = root_back c.coinbase_hash job.merkle_branch hex root hashed eh er in
    let (raw, eraw, fraw) = >>=-eq-ok (hex_to_array_32 job.prevhash) _ ep in
    let (got, size) = array_32 job.prevhash raw eraw in
    let (v, ev, e1) = >>=-eq-ok (u32_from_hex_be job.version) _ e in
    let (n, en, e2) = >>=-eq-ok (u32_from_hex_be job.ntime) _ e1 in
    let (b, eb, e3) = >>=-eq-ok (u32_from_hex_be job.nbits) _ e2 in
    record {
      version = v;
      ntime = n;
      nbits = b;
      prevhash = raw;
      max_value = max_value;
      keeps_job = refl;
      keeps_subscription = refl;
      keeps_counter = refl;
      reads_max = em;
      within = ground arith;
      counter_text = ex;
      builds = ec;
      built = is_built;
      root = folded;
      root_hash = is_hash;
      reads_prevhash = got;
      prevhash_size = size;
      prevhash_input = sym (ok-injective fraw);
      reads_version = ev;
      reads_ntime = en;
      reads_nbits = eb;
      made_template = sym (ok-injective e3);
    }

-- A prepared work holds the inputs that it was asked for, a coinbase built from them with the
-- counter's text as its extranonce2, the merkle root above that coinbase's hash, the byte-swapped
-- previous hash, and the header template of these with the job's version, time and target bits.
pub prepare_work-IsPrepared :
    (beyond : List ℕ) (job : MiningJob) (subscription : SubscriptionContext) (counter : ℕ)
    (p : PreparedWork)
    → prepare_work beyond job subscription counter ≡ ok p
    → IsPrepared beyond job subscription counter p
unfolding prepare_work
prepare_work-IsPrepared beyond job subscription counter p e =
    let (max_value, em, e1) = >>=-eq-ok (max_extranonce2_value subscription.extranonce2_size) _ e in
    let (u, et, e2) = >>=-eq-ok (throw_if (ltb max_value counter) overflow_error) _ e1 in
    let (text, ex, e3) =
      >>=-eq-ok (extranonce2_from_counter counter subscription.extranonce2_size) _ e2 in
    let (c, ec, e4) = >>=-eq-ok (build_coinbase job subscription text) _ e3 in
    let (hex, eh, e5) = >>=-eq-ok (compute_merkle_root_raw_hex c job) _ e4 in
    let (prev, ep, e6) = >>=-eq-ok (prevhash_sha_input_from_job job) _ e5 in
    let (root, er, e7) = >>=-eq-ok (merkle_root_sha_input_from_hex hex) _ e6 in
    let (t, eh', e8) = >>=-eq-ok (make_work_header_template beyond job prev root 0) _ e7 in
    subst (IsPrepared beyond job subscription counter) (ok-injective e8) (
      assemble beyond job subscription counter max_value text hex prev root c t em
        (throw_if-eq-ok (ltb max_value counter) overflow_error u et) ex ec eh ep er eh')

-- With any nonce, `hash_prepared_work_nonce` of a prepared work is the double SHA-256 of the
-- 80-byte header of its parts.
pub hash_prepared_work_nonce_lem :
    (beyond : List ℕ) (job : MiningJob) (subscription : SubscriptionContext) (counter nonce : ℕ)
    (p : PreparedWork) (x : IsPrepared beyond job subscription counter p)
    → hash_prepared_work_nonce p nonce
      ≡ double_sha256 (
          make_sha_input_header_bytes x.version
            (byteswap_each_u32 x.prevhash)
            p.merkle_root_sha_input
            x.ntime
            x.nbits
            nonce)
unfolding hash_prepared_work_nonce
hash_prepared_work_nonce_lem beyond job subscription counter nonce p x =
    rw (x.made_template, x.prevhash_input)
      (ap digest_words_to_bytes_be (
        hash_header_template_lem beyond x.version (byteswap_each_u32 x.prevhash)
          p.merkle_root_sha_input x.ntime x.nbits 0 nonce
          (length-byteswap_each_u32 x.prevhash ∙ x.prevhash_size) x.root_hash.1
        ∙ dbl_sha256_words_lem _))
