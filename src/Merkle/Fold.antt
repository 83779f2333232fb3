-- ===== src/Merkle/Fold.antt =====
-- src/mining_job/merkle.cpp: what the fold computes, and on which branches it throws.
use mathlib.Core.List.{foldl}
use btccpu.Prelude.{
  ℕ, ◌≡◌, refl, sym, ap, ap₂, ◌∙◌, ◌↔◌, List, [], ◌∷◌, ◌++◌, map, length, All, IsByte, ok,
  >>=-eq-ok, arith, ok-injective,
}
use btccpu.Hex.{hex_to_bytes, bytes_to_hex}
use btccpu.Hex.Bytes.{Reads-of_ok, hex_to_bytes-bytes_to_hex}
use btccpu.Sha256.{sha256_words, dbl_sha256_words, digest_words_to_bytes_be}
use btccpu.Sha256.Messages.{dbl_sha256_words_lem}
use btccpu.Sha256.Bounds.{length-digest_words_to_bytes_be, digest_words_to_bytes_be-IsByte}
use btccpu.Merkle.{to_hash_bytes, merkle_fold}

-- SHA-256 of a byte string as bytes, and twice.
abbrev pub sha256 : List ℕ → List ℕ
sha256 m = digest_words_to_bytes_be (sha256_words m)

abbrev pub double_sha256 : List ℕ → List ℕ
double_sha256 m = sha256 (sha256 m)

abbrev pub IsHash : List ℕ → Type 0
IsHash h = All IsByte h × (length h ≡ 32)

-- The merkle root of the leftmost leaf from its sibling hashes.
abbrev pub root_of : List ℕ → List (List ℕ) → List ℕ
root_of = foldl (λ h b. double_sha256 (h ++ b))

pub to_hash_bytes-eq-ok : (bs b : List ℕ) → to_hash_bytes bs ≡ ok b → (length bs ≡ 32) × (bs ≡ b)
unfolding to_hash_bytes
to_hash_bytes-eq-ok bs b e = ground arith

pub to_hash_bytes_lem : (b : List ℕ) → length b ≡ 32 → to_hash_bytes b ≡ ok b
unfolding to_hash_bytes
to_hash_bytes_lem b e = rw e refl

merkle_fold_runs :
    (h : List ℕ) (bs : List (List ℕ))
    → All IsHash bs
    → merkle_fold h (map bytes_to_hex bs) ≡ ok (root_of h bs)
unfolding merkle_fold
merkle_fold_runs h [] a = refl
merkle_fold_runs h (b ∷ bs) a =
    rw
      (
        hex_to_bytes-bytes_to_hex b (a.0.0),
        to_hash_bytes_lem b (a.0.1),
        dbl_sha256_words_lem (h ++ b),
      )
      (merkle_fold_runs (double_sha256 (h ++ b)) bs a.1)

merkle_fold_reads :
    (h : List ℕ) (branch : List (List ℕ)) (r : List ℕ)
    → merkle_fold h branch ≡ ok r
    → (bs : List (List ℕ)) × All IsHash bs × (branch ≡ map bytes_to_hex bs) × (r ≡ root_of h bs)
unfolding merkle_fold
merkle_fold_reads h [] r e = ([], tt, refl, ok-injective (sym e))
merkle_fold_reads h (s ∷ branch) r e =
    let (v, ev, fv) = >>=-eq-ok (hex_to_bytes s) _ e in
    let (b, eb, fb) = >>=-eq-ok (to_hash_bytes v) _ fv in
    let (len, same) = to_hash_bytes-eq-ok v b eb in
    let (got, bytes, text, _) = Reads-of_ok s v ev in
    let (bs, a, m, q) =
      merkle_fold_reads (digest_words_to_bytes_be (dbl_sha256_words (h ++ b))) branch r fb in
    (
      v ∷ bs,
      ((bytes, len), a),
      ap₂ ◌∷◌ (sym text) m,
      q
          ∙ ap (λ (t : List ℕ). root_of t bs)
              (ap digest_words_to_bytes_be (dbl_sha256_words_lem (h ++ b))
                ∙ ap (λ (t : List ℕ). double_sha256 (h ++ t)) (sym same)),
    )

-- The fold returns a hash exactly when every branch entry is the lowercase hex text of a 32-byte
-- hash, and then it is the merkle root: each step is the double SHA-256 of the two hashes.
pub merkle_fold_iff :
    (h : List ℕ) (branch : List (List ℕ)) (r : List ℕ)
    → (merkle_fold h branch ≡ ok r)
      ↔ ((bs : List (List ℕ)) × All IsHash bs × (branch ≡ map bytes_to_hex bs) × (r ≡ root_of h bs))
merkle_fold_iff h branch r =
    (merkle_fold_reads h branch r, λ x. rw (x.2, x.3) (merkle_fold_runs h x.0 x.1))

pub digest-IsHash : (m : List ℕ) → IsHash (sha256 m)
digest-IsHash m = (
  digest_words_to_bytes_be-IsByte (sha256_words m),
  length-digest_words_to_bytes_be (sha256_words m),
)

root_of-IsHash : (h : List ℕ) (bs : List (List ℕ)) → IsHash h → IsHash (root_of h bs)
root_of-IsHash h [] a = a
root_of-IsHash h (b ∷ bs) a =
    root_of-IsHash (double_sha256 (h ++ b)) bs (digest-IsHash (sha256 (h ++ b)))

pub merkle_fold-IsHash :
    (h : List ℕ) (branch : List (List ℕ)) (r : List ℕ)
    → IsHash h
    → merkle_fold h branch ≡ ok r
    → IsHash r
merkle_fold-IsHash h branch r a e =
    let (bs, _, _, q) = merkle_fold_reads h branch r e in rw q (root_of-IsHash h bs a)
