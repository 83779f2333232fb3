-- ===== src/Sha256/Bounds.antt =====
-- src/sha256/sha256.cpp: words read from bytes and stored as bytes.
use btccpu.Prelude.{
  ℕ, zero, suc, ◌+◌, ◌*◌, ◌/◌, ◌%◌, ◌^◌, ◌≤◌, ◌<◌, ◌≡◌, refl, ap, ap₂, ◌∙◌, List, [], ◌∷◌, ◌++◌,
  All-append, length, drop, All, IsByte, IsWord, arith,
}
use btccpu.Prelude.Bits.{bit_or_four, bit_and-mask}
use btccpu.Sha256.{
  DigestWords, read_be32, write_be32, read_words, compress_block, run_schedule, add_digest,
  digest_words_to_bytes_be,
}

-- Every word of the digest is below 2 ^ 32.
abbrev pub IsDigest : DigestWords → Type 0
IsDigest d =
    IsWord d.w0
    × IsWord d.w1
    × IsWord d.w2
    × IsWord d.w3
    × IsWord d.w4
    × IsWord d.w5
    × IsWord d.w6
    × IsWord d.w7

pub compress_block-IsDigest :
    (state : DigestWords) (block : List ℕ) → IsDigest (compress_block state block)
unfolding compress_block run_schedule add_digest
compress_block-IsDigest state block = omega arith

pub read_be32_lem :
    (a b c d : ℕ) (rest : List ℕ)
    → b < 256
    → c < 256
    → d < 256
    → read_be32 (a ∷ b ∷ c ∷ d ∷ rest) ≡ a * 2 ^ 24 + b * 2 ^ 16 + c * 2 ^ 8 + d
unfolding read_be32
read_be32_lem a b c d rest hb hc hd = bit_or_four _ _ _ d a b c refl refl refl hb hc hd

pub write_be32_lem :
    (v : ℕ) → write_be32 v ≡ v / 2 ^ 24 % 256 ∷ v / 2 ^ 16 % 256 ∷ v / 2 ^ 8 % 256 ∷ v % 256 ∷ []
unfolding write_be32
write_be32_lem v = rw (
  bit_and-mask 8 (v / 2 ^ 24),
  bit_and-mask 8 (v / 2 ^ 16),
  bit_and-mask 8 (v / 2 ^ 8),
  bit_and-mask 8 v,
)

pub read_be32-write_be32 :
    (v : ℕ) (rest : List ℕ) → v < 2 ^ 32 → read_be32 (write_be32 v ++ rest) ≡ v
read_be32-write_be32 v rest h =
    rw (write_be32_lem v)
      (read_be32_lem _ _ _ _ rest (omega arith) (omega arith) (omega arith) ∙ omega arith)

-- The stored words at the front are read back in order.
pub read_words-write_be32 :
    (n v : ℕ) (rest : List ℕ)
    → v < 2 ^ 32
    → read_words (suc n) (write_be32 v ++ rest) ≡ v ∷ read_words n rest
unfolding read_words
read_words-write_be32 n v rest h =
    ap₂ ◌∷◌ (read_be32-write_be32 v rest h) (ap (read_words n) (unfold write_be32 in refl))

-- Only the first `4 * n` bytes matter.
pub read_words-append :
    (n : ℕ) (xs ys : List ℕ) → n * 4 ≤ length xs → read_words n (xs ++ ys) ≡ read_words n xs
unfolding read_words read_be32
read_words-append zero xs ys h = refl
read_words-append (suc n) [] ys h = absurd (omega arith)
read_words-append (suc n) (a ∷ []) ys h = absurd (omega arith)
read_words-append (suc n) (a ∷ b ∷ []) ys h = absurd (omega arith)
read_words-append (suc n) (a ∷ b ∷ c ∷ []) ys h = absurd (omega arith)
read_words-append (suc n) (a ∷ b ∷ c ∷ d ∷ xs) ys h =
    ap (λ (t : List ℕ). read_be32 (a ∷ b ∷ c ∷ d ∷ []) ∷ t)
      (read_words-append n xs ys (omega arith))

pub length-read_words : (n : ℕ) (xs : List ℕ) → length (read_words n xs) ≡ n
unfolding read_words
length-read_words zero xs = refl
length-read_words (suc n) xs = ap suc (length-read_words n (drop 4 xs))

pub length-digest_words_to_bytes_be : (d : DigestWords) → length (digest_words_to_bytes_be d) ≡ 32
unfolding digest_words_to_bytes_be write_be32
length-digest_words_to_bytes_be d = refl

write_be32-IsByte : (v : ℕ) → All IsByte (write_be32 v)
write_be32-IsByte v = rw (write_be32_lem v) (omega arith)

pub digest_words_to_bytes_be-IsByte : (d : DigestWords) → All IsByte (digest_words_to_bytes_be d)
unfolding digest_words_to_bytes_be
digest_words_to_bytes_be-IsByte d = join d.w0 _ (
    join d.w1 _ (
      join d.w2 _ (join d.w3 _ (join d.w4 _ (join d.w5 _ (join d.w6 _ (write_be32-IsByte d.w7)))))))
  where
    join : (v : ℕ) (bs : List ℕ) → All IsByte bs → All IsByte (write_be32 v ++ bs)
    join v bs h = All-append IsByte (write_be32 v) bs (write_be32-IsByte v) h
