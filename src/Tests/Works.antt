-- ===== src/Tests/Works.antt =====
-- A small job, prepared and advanced.
use btccpu.Prelude.{
  ◌^◌, ◌≡◌, refl, true, [], ◌∷◌, replicate, ok, err, invalid_argument, overflow_error, ◌*◌, ◌<◌,
  ◌≤◌, is_ok, get_ok, get_ok_lem, arith,
}
use btccpu.Hex.{
  hex_value, is_lower_hex_digit, all_lower_hex, is_lower_hex_string, hex_from_u32_loop,
  hex_from_u32_be, hex_from_u64_loop, hex_from_u64_be, byte_of_digits, hex_to_bytes_loop,
  hex_to_bytes, hex_to_array_32, bytes_to_hex, bytes_to_hex_fixed_msb, u32_from_digits,
  u32_from_hex_be,
}
use btccpu.Job.{MiningJob, SubscriptionContext}
use btccpu.Sha256.{
  ch, maj, big_sigma0, big_sigma1, small_sigma0, small_sigma1, read_be32, write_be32,
}
use btccpu.Sha256.{length_bytes, zero_pad_bytes, padding_for_bit_length}
use btccpu.Sha256.{
  schedule_word, schedule_loop, make_schedule, round, rounds, add_digest, run_schedule, read_words,
  compress_block, sha256_loop, padded_message, sha256_words, digest_words_to_padded_block,
  hash_digest_words, dbl_sha256_words, digest_words_to_bytes_be,
}
use btccpu.Merkle.{to_hash_bytes, merkle_fold, merkle_root_raw_hex}
use btccpu.Coinbase.{extranonce2_from_counter, make_coinbase_hex, build_coinbase}
use btccpu.Coinbase.Build.{IsBuilt, build_coinbase-IsBuilt}
use btccpu.WorkState.Template.{IsPrepared, prepare_work-IsPrepared}
use btccpu.WorkState.Submission.{pool_hash, pool_hash-make_share_submission}
use btccpu.WorkState.Counter.{Advances, prepare_work_range, advance_extranonce2-Advances}
use btccpu.WorkState.{
  PreparedWork, make_work_state, work_state_from_prepared, advance_extranonce2,
  make_share_submission, hash_prepared_work_nonce, prepare_work, max_extranonce2_value,
  compute_merkle_root_raw_hex, prevhash_sha_input_from_job, merkle_root_sha_input_from_hex,
  make_work_header_template,
}

abbrev pub small_job : MiningJob
small_job = record {
  job_id = 0x61 ∷ [];
  prevhash = bytes_to_hex (replicate 32 0x11);
  coinb1 = bytes_to_hex (0x01 ∷ 0x02 ∷ []);
  coinb2 = bytes_to_hex (0x03 ∷ []);
  merkle_branch = bytes_to_hex (replicate 32 0x07) ∷ [];
  version = hex_from_u32_be 0x20000000;
  nbits = hex_from_u32_be 0x1701f0cc;
  ntime = hex_from_u32_be 0x69bccef7;
  clean_jobs = true;
}

abbrev pub small_subscription : SubscriptionContext
small_subscription = record { extranonce1 = bytes_to_hex (0x3f ∷ 0x3e ∷ []); extranonce2_size = 2 }

pub small_work_is_ok : is_ok (prepare_work [] small_job small_subscription 5) ≡ true
unfolding prepare_work max_extranonce2_value compute_merkle_root_raw_hex prevhash_sha_input_from_job
    merkle_root_sha_input_from_hex make_work_header_template extranonce2_from_counter
    hex_from_u64_be build_coinbase make_coinbase_hex is_lower_hex_string bytes_to_hex all_lower_hex
    is_lower_hex_digit hex_from_u64_loop hex_to_bytes hex_to_bytes_loop byte_of_digits hex_value
    merkle_root_raw_hex merkle_fold to_hash_bytes hex_to_array_32 u32_from_digits u32_from_hex_be
    hex_from_u32_be hex_from_u32_loop bytes_to_hex_fixed_msb padding_for_bit_length length_bytes
    zero_pad_bytes read_be32 write_be32 ch maj big_sigma0 big_sigma1 small_sigma0 small_sigma1
    add_digest compress_block dbl_sha256_words digest_words_to_bytes_be digest_words_to_padded_block
    hash_digest_words make_schedule padded_message read_words round rounds run_schedule
    schedule_loop schedule_word sha256_loop sha256_words
small_work_is_ok = refl

abbrev pub small_work : PreparedWork
small_work = get_ok (prepare_work [] small_job small_subscription 5) small_work_is_ok

pub small_work_lem : prepare_work [] small_job small_subscription 5 ≡ ok small_work
small_work_lem = get_ok_lem (prepare_work [] small_job small_subscription 5) small_work_is_ok

prepare_work-IsPrepared_example : IsPrepared [] small_job small_subscription 5 small_work
prepare_work-IsPrepared_example =
    prepare_work-IsPrepared [] small_job small_subscription 5 small_work small_work_lem

pool_hash-make_share_submission_example :
    pool_hash small_job small_subscription (make_share_submission small_work 7)
    ≡ ok (hash_prepared_work_nonce small_work 7)
pool_hash-make_share_submission_example =
    pool_hash-make_share_submission [] small_job small_subscription 5 7 small_work
      (prepare_work-IsPrepared [] small_job small_subscription 5 small_work small_work_lem)
      (omega arith)

pub next_is_ok : is_ok (prepare_work [] small_job small_subscription 6) ≡ true
unfolding prepare_work max_extranonce2_value compute_merkle_root_raw_hex prevhash_sha_input_from_job
    merkle_root_sha_input_from_hex make_work_header_template extranonce2_from_counter
    hex_from_u64_be build_coinbase make_coinbase_hex is_lower_hex_string bytes_to_hex all_lower_hex
    is_lower_hex_digit hex_from_u64_loop hex_to_bytes hex_to_bytes_loop byte_of_digits hex_value
    merkle_root_raw_hex merkle_fold to_hash_bytes hex_to_array_32 u32_from_digits u32_from_hex_be
    hex_from_u32_be hex_from_u32_loop bytes_to_hex_fixed_msb padding_for_bit_length length_bytes
    zero_pad_bytes read_be32 write_be32 ch maj big_sigma0 big_sigma1 small_sigma0 small_sigma1
    add_digest compress_block dbl_sha256_words digest_words_to_bytes_be digest_words_to_padded_block
    hash_digest_words make_schedule padded_message read_words round rounds run_schedule
    schedule_loop schedule_word sha256_loop sha256_words
next_is_ok = refl

abbrev pub next_work : PreparedWork
next_work = get_ok (prepare_work [] small_job small_subscription 6) next_is_ok

pub next_work_lem : prepare_work [] small_job small_subscription 6 ≡ ok next_work
next_work_lem = get_ok_lem (prepare_work [] small_job small_subscription 6) next_is_ok

make_state_lem :
    make_work_state [] small_job small_subscription 5 ≡ ok (work_state_from_prepared small_work 0)
unfolding make_work_state
make_state_lem = rw small_work_lem refl

advance_lem :
    advance_extranonce2 [] (work_state_from_prepared small_work 0)
    ≡ ok (work_state_from_prepared next_work 0)
unfolding advance_extranonce2 work_state_from_prepared
advance_lem =
    let x = prepare_work-IsPrepared [] small_job small_subscription 5 small_work small_work_lem in
    rw (x.keeps_job, x.keeps_subscription, x.keeps_counter, next_work_lem) refl

advance_extranonce2-Advances_example :
    Advances small_job small_subscription 5
      (work_state_from_prepared small_work 0)
      (work_state_from_prepared next_work 0)
advance_extranonce2-Advances_example =
    advance_extranonce2-Advances [] small_job small_subscription 5
      (work_state_from_prepared small_work 0) (work_state_from_prepared next_work 0) make_state_lem
      advance_lem

prepare_work_range_example :
    (8 < 2 → prepare_work [] small_job small_subscription 65536 ≡ err invalid_argument)
    × (2 ≤ 8
        → 2 ^ (2 * 8) ≤ 65536
        → prepare_work [] small_job small_subscription 65536 ≡ err overflow_error)
prepare_work_range_example = prepare_work_range [] small_job small_subscription 65536

build_coinbase-IsBuilt_example :
    IsBuilt small_job small_subscription small_work.extranonce2_hex small_work.coinbase
build_coinbase-IsBuilt_example =
    build_coinbase-IsBuilt small_job small_subscription small_work.extranonce2_hex
      small_work.coinbase
      (prepare_work-IsPrepared [] small_job small_subscription 5 small_work small_work_lem).builds

pub first_work_is_ok : is_ok (prepare_work [] small_job small_subscription 0) ≡ true
unfolding prepare_work max_extranonce2_value compute_merkle_root_raw_hex prevhash_sha_input_from_job
    merkle_root_sha_input_from_hex make_work_header_template extranonce2_from_counter
    hex_from_u64_be build_coinbase make_coinbase_hex is_lower_hex_string bytes_to_hex all_lower_hex
    is_lower_hex_digit hex_from_u64_loop hex_to_bytes hex_to_bytes_loop byte_of_digits hex_value
    merkle_root_raw_hex merkle_fold to_hash_bytes hex_to_array_32 u32_from_digits u32_from_hex_be
    hex_from_u32_be hex_from_u32_loop bytes_to_hex_fixed_msb padding_for_bit_length length_bytes
    zero_pad_bytes read_be32 write_be32 ch maj big_sigma0 big_sigma1 small_sigma0 small_sigma1
    add_digest compress_block dbl_sha256_words digest_words_to_bytes_be digest_words_to_padded_block
    hash_digest_words make_schedule padded_message read_words round rounds run_schedule
    schedule_loop schedule_word sha256_loop sha256_words
first_work_is_ok = refl

abbrev pub first_work : PreparedWork
first_work = get_ok (prepare_work [] small_job small_subscription 0) first_work_is_ok

pub first_state_lem :
    make_work_state [] small_job small_subscription 0 ≡ ok (work_state_from_prepared first_work 0)
unfolding make_work_state
first_state_lem =
    rw (get_ok_lem (prepare_work [] small_job small_subscription 0) first_work_is_ok) refl

pub small_nbits : u32_from_hex_be small_job.nbits ≡ ok 0x1701f0cc
unfolding u32_from_hex_be u32_from_digits hex_value hex_from_u32_be hex_from_u32_loop
    is_lower_hex_string all_lower_hex is_lower_hex_digit
small_nbits = refl
