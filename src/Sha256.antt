-- ===== src/Sha256.antt =====
-- src/sha256/sha256.hpp and sha256.cpp. A `Word` is a number below 2 ^ 32 with its wrap-around
-- written out; `DigestWords` is a record of eight words, `BlockWords` and `Schedule` are lists.
mod Words
mod Padding
pub mod Bounds
pub mod Schedules
pub mod Messages
unfoldable pub use Words.*
unfoldable pub use Padding.*
use btccpu.Prelude.{
  ℕ, zero, suc, ◌+◌, ◌-◌, ◌*◌, ◌/◌, ◌%◌, ◌^◌, List, [], ◌∷◌, ◌++◌, length, get_or, drop,
}

pub record DigestWords : Type 0 where
  pub w0 : ℕ
  pub w1 : ℕ
  pub w2 : ℕ
  pub w3 : ℕ
  pub w4 : ℕ
  pub w5 : ℕ
  pub w6 : ℕ
  pub w7 : ℕ

-- Section 4.4.2 of the standard.
abbrev pub k_words : List ℕ
k_words =
    0x428a2f98 ∷ 0x71374491 ∷ 0xb5c0fbcf ∷ 0xe9b5dba5 ∷ 0x3956c25b ∷ 0x59f111f1 ∷ 0x923f82a4
    ∷ 0xab1c5ed5 ∷ 0xd807aa98 ∷ 0x12835b01 ∷ 0x243185be ∷ 0x550c7dc3 ∷ 0x72be5d74 ∷ 0x80deb1fe
    ∷ 0x9bdc06a7 ∷ 0xc19bf174 ∷ 0xe49b69c1 ∷ 0xefbe4786 ∷ 0x0fc19dc6 ∷ 0x240ca1cc ∷ 0x2de92c6f
    ∷ 0x4a7484aa ∷ 0x5cb0a9dc ∷ 0x76f988da ∷ 0x983e5152 ∷ 0xa831c66d ∷ 0xb00327c8 ∷ 0xbf597fc7
    ∷ 0xc6e00bf3 ∷ 0xd5a79147 ∷ 0x06ca6351 ∷ 0x14292967 ∷ 0x27b70a85 ∷ 0x2e1b2138 ∷ 0x4d2c6dfc
    ∷ 0x53380d13 ∷ 0x650a7354 ∷ 0x766a0abb ∷ 0x81c2c92e ∷ 0x92722c85 ∷ 0xa2bfe8a1 ∷ 0xa81a664b
    ∷ 0xc24b8b70 ∷ 0xc76c51a3 ∷ 0xd192e819 ∷ 0xd6990624 ∷ 0xf40e3585 ∷ 0x106aa070 ∷ 0x19a4c116
    ∷ 0x1e376c08 ∷ 0x2748774c ∷ 0x34b0bcb5 ∷ 0x391c0cb3 ∷ 0x4ed8aa4a ∷ 0x5b9cca4f ∷ 0x682e6ff3
    ∷ 0x748f82ee ∷ 0x78a5636f ∷ 0x84c87814 ∷ 0x8cc70208 ∷ 0x90befffa ∷ 0xa4506ceb ∷ 0xbef9a3f7
    ∷ 0xc67178f2 ∷ []

-- Section 5.3.3 of the standard, `H0`.
abbrev pub initial_state : DigestWords
initial_state = record {
  w0 = 0x6a09e667;
  w1 = 0xbb67ae85;
  w2 = 0x3c6ef372;
  w3 = 0xa54ff53a;
  w4 = 0x510e527f;
  w5 = 0x9b05688c;
  w6 = 0x1f83d9ab;
  w7 = 0x5be0cd19;
}

-- `schedule[t]` from the `t` words before it.
unfoldable pub schedule_word : List ℕ → ℕ → ℕ
schedule_word schedule t =
    (small_sigma1 (get_or schedule (t - 2) 0)
      + get_or schedule (t - 7) 0
      + small_sigma0 (get_or schedule (t - 15) 0)
      + get_or schedule (t - 16) 0)
    % 2 ^ 32

-- The loop of `make_schedule` at `t` with `left` rounds to go; the list is `schedule[0 .. t)`.
unfoldable pub schedule_loop : ℕ → ℕ → List ℕ → List ℕ
schedule_loop zero t schedule = schedule
schedule_loop (suc left) t schedule =
    schedule_loop left (t + 1) (schedule ++ (schedule_word schedule t ∷ []))

unfoldable pub make_schedule : List ℕ → List ℕ
make_schedule block = schedule_loop 48 16 block

-- One round over the variables `a` to `h`.
unfoldable pub round : ℕ → ℕ → DigestWords → DigestWords
round k w s =
    let t1 = (s.w7 + big_sigma1 s.w4 + ch s.w4 s.w5 s.w6 + k + w) % 2 ^ 32 in
    let t2 = (big_sigma0 s.w0 + maj s.w0 s.w1 s.w2) % 2 ^ 32 in
    record {
      w0 = (t1 + t2) % 2 ^ 32;
      w1 = s.w0;
      w2 = s.w1;
      w3 = s.w2;
      w4 = (s.w3 + t1) % 2 ^ 32;
      w5 = s.w4;
      w6 = s.w5;
      w7 = s.w6;
    }

-- The loop of `run_schedule` over what is left of `K` and of the schedule.
unfoldable pub rounds : List ℕ → List ℕ → DigestWords → DigestWords
rounds [] schedule s = s
rounds (k ∷ ks) [] s = s
rounds (k ∷ ks) (w ∷ ws) s = rounds ks ws (round k w s)

-- `digest[i] += …`
unfoldable pub add_digest : DigestWords → DigestWords → DigestWords
add_digest d s = record {
  w0 = (d.w0 + s.w0) % 2 ^ 32;
  w1 = (d.w1 + s.w1) % 2 ^ 32;
  w2 = (d.w2 + s.w2) % 2 ^ 32;
  w3 = (d.w3 + s.w3) % 2 ^ 32;
  w4 = (d.w4 + s.w4) % 2 ^ 32;
  w5 = (d.w5 + s.w5) % 2 ^ 32;
  w6 = (d.w6 + s.w6) % 2 ^ 32;
  w7 = (d.w7 + s.w7) % 2 ^ 32;
}

unfoldable pub run_schedule : List ℕ → DigestWords → DigestWords
run_schedule schedule digest = add_digest digest (rounds k_words schedule digest)

-- The 16 words that the block loop reads from the bytes at an offset.
unfoldable pub read_words : ℕ → List ℕ → List ℕ
read_words zero bytes = []
read_words (suc n) bytes = read_be32 bytes ∷ read_words n (drop 4 bytes)

unfoldable pub compress_block : DigestWords → List ℕ → DigestWords
compress_block state block = run_schedule (make_schedule block) state

-- The block loop of `sha256_impl`, with `n` blocks to go; the list is the message from `offset` on.
unfoldable pub sha256_loop : ℕ → List ℕ → DigestWords → DigestWords
sha256_loop zero rest digest = digest
sha256_loop (suc n) rest digest =
    sha256_loop n (drop 64 rest) (run_schedule (make_schedule (read_words 16 rest)) digest)

-- `message` after the padding is appended; the bit length is a `std::uint64_t`.
unfoldable pub padded_message : List ℕ → List ℕ
padded_message data_bytes = data_bytes ++ padding_for_bit_length (length data_bytes * 8 % 2 ^ 64)

unfoldable pub sha256_words : List ℕ → DigestWords
sha256_words data_bytes =
    let message = padded_message data_bytes in
    sha256_loop ((length message + 63) / 64) message initial_state

unfoldable pub digest_words_to_padded_block : DigestWords → List ℕ
digest_words_to_padded_block d =
    d.w0 ∷ d.w1 ∷ d.w2 ∷ d.w3 ∷ d.w4 ∷ d.w5 ∷ d.w6 ∷ d.w7 ∷ 0x80000000 ∷ 0 ∷ 0 ∷ 0 ∷ 0 ∷ 0 ∷ 0
    ∷ 0x00000100 ∷ []

unfoldable pub hash_digest_words : DigestWords → DigestWords
hash_digest_words digest = compress_block initial_state (digest_words_to_padded_block digest)

unfoldable pub dbl_sha256_two_block_header : DigestWords → List ℕ → DigestWords
dbl_sha256_two_block_header midstate block1 = hash_digest_words (compress_block midstate block1)

unfoldable pub dbl_sha256_words : List ℕ → DigestWords
dbl_sha256_words data_bytes = hash_digest_words (sha256_words data_bytes)

unfoldable pub digest_words_to_bytes_be : DigestWords → List ℕ
digest_words_to_bytes_be d =
    write_be32 d.w0
    ++ (write_be32 d.w1
        ++ (write_be32 d.w2
            ++ (write_be32 d.w3
                ++ (write_be32 d.w4 ++ (write_be32 d.w5 ++ (write_be32 d.w6 ++ write_be32 d.w7))))))

unfoldable pub digest_words_to_bytes_le : DigestWords → List ℕ
digest_words_to_bytes_le d =
    write_le32 d.w0
    ++ (write_le32 d.w1
        ++ (write_le32 d.w2
            ++ (write_le32 d.w3
                ++ (write_le32 d.w4 ++ (write_le32 d.w5 ++ (write_le32 d.w6 ++ write_le32 d.w7))))))
