-- ===== src/U256/BigEndian.antt =====
-- src/util/uint256.hpp: `to_bytes_be` and `from_bytes_be`.
use btccpu.Prelude.{
  ℕ, ◌+◌, ◌*◌, ◌/◌, ◌%◌, ◌^◌, ◌<◌, ◌≡◌, refl, ◌∙◌, List, [], ◌∷◌, ◌++◌, get_or, drop, bit_or, arith,
}
use btccpu.Prelude.Bits.{bit_or-above}
use btccpu.U256.{U256, IsU256}

-- The eight bytes of a limb, most significant first.
unfoldable pub bytes_of_limb_be : ℕ → List ℕ
bytes_of_limb_be v =
    v / 2 ^ 56 % 2 ^ 8
    ∷ v / 2 ^ 48 % 2 ^ 8
    ∷ v / 2 ^ 40 % 2 ^ 8
    ∷ v / 2 ^ 32 % 2 ^ 8
    ∷ v / 2 ^ 24 % 2 ^ 8
    ∷ v / 2 ^ 16 % 2 ^ 8
    ∷ v / 2 ^ 8 % 2 ^ 8
    ∷ v % 2 ^ 8
    ∷ []

unfoldable pub to_bytes_be : U256 → List ℕ
to_bytes_be x =
    bytes_of_limb_be x.w3
    ++ (bytes_of_limb_be x.w2 ++ (bytes_of_limb_be x.w1 ++ bytes_of_limb_be x.w0))

unfoldable pub limb_of_bytes_be : List ℕ → ℕ
limb_of_bytes_be b =
    bit_or
      (bit_or
        (bit_or
          (bit_or
            (bit_or
              (bit_or (bit_or (get_or b 0 0 * 2 ^ 56) (get_or b 1 0 * 2 ^ 48))
                (get_or b 2 0 * 2 ^ 40))
              (get_or b 3 0 * 2 ^ 32))
            (get_or b 4 0 * 2 ^ 24))
          (get_or b 5 0 * 2 ^ 16))
        (get_or b 6 0 * 2 ^ 8))
      (get_or b 7 0)

unfoldable pub from_bytes_be : List ℕ → U256
from_bytes_be bytes = record {
  w0 = limb_of_bytes_be (drop 24 bytes);
  w1 = limb_of_bytes_be (drop 16 bytes);
  w2 = limb_of_bytes_be (drop 8 bytes);
  w3 = limb_of_bytes_be bytes;
}

-- A limb from fields that are put together from the top.
eight_fields :
    (a b c d e f g h : ℕ)
    → b < 256
    → c < 256
    → d < 256
    → e < 256
    → f < 256
    → g < 256
    → h < 256
    → bit_or
        (bit_or
          (bit_or
            (bit_or
              (bit_or (bit_or (bit_or (a * 2 ^ 56) (b * 2 ^ 48)) (c * 2 ^ 40)) (d * 2 ^ 32))
              (e * 2 ^ 24))
            (f * 2 ^ 16))
          (g * 2 ^ 8))
        h
      ≡ a * 2 ^ 56 + b * 2 ^ 48 + c * 2 ^ 40 + d * 2 ^ 32 + e * 2 ^ 24 + f * 2 ^ 16 + g * 2 ^ 8 + h
eight_fields a b c d e f g h hb hc hd he hf hg hh =
    let s2 = a * 2 ^ 56 + b * 2 ^ 48 in
    let s3 = s2 + c * 2 ^ 40 in
    let s4 = s3 + d * 2 ^ 32 in
    let s5 = s4 + e * 2 ^ 24 in
    let s6 = s5 + f * 2 ^ 16 in
    rw
      (
        bit_or-above 56 a (b * 2 ^ 48) (a * 2 ^ 56) refl (omega arith),
        bit_or-above 48 (a * 2 ^ 8 + b) (c * 2 ^ 40) s2 (omega arith) (omega arith),
        bit_or-above 40 ((a * 2 ^ 8 + b) * 2 ^ 8 + c) (d * 2 ^ 32) s3 (omega arith) (omega arith),
        bit_or-above 32 (((a * 2 ^ 8 + b) * 2 ^ 8 + c) * 2 ^ 8 + d) (e * 2 ^ 24) s4 (omega arith)
            (omega arith),
        bit_or-above 24 ((((a * 2 ^ 8 + b) * 2 ^ 8 + c) * 2 ^ 8 + d) * 2 ^ 8 + e) (f * 2 ^ 16) s5
            (omega arith) (omega arith),
        bit_or-above 16 (((((a * 2 ^ 8 + b) * 2 ^ 8 + c) * 2 ^ 8 + d) * 2 ^ 8 + e) * 2 ^ 8 + f)
            (g * 2 ^ 8) s6 (omega arith) (omega arith),
        bit_or-above 8
            ((((((a * 2 ^ 8 + b) * 2 ^ 8 + c) * 2 ^ 8 + d) * 2 ^ 8 + e) * 2 ^ 8 + f) * 2 ^ 8 + g) h
            (s6 + g * 2 ^ 8) (omega arith) (omega arith),
      )
      refl

limb_back : (w : ℕ) (rest : List ℕ) → w < 2 ^ 64 → limb_of_bytes_be (bytes_of_limb_be w ++ rest) ≡ w
unfolding limb_of_bytes_be bytes_of_limb_be
limb_back w rest h =
    eight_fields (w / 2 ^ 56 % 2 ^ 8) (w / 2 ^ 48 % 2 ^ 8) (w / 2 ^ 40 % 2 ^ 8) (w / 2 ^ 32 % 2 ^ 8)
      (w / 2 ^ 24 % 2 ^ 8) (w / 2 ^ 16 % 2 ^ 8) (w / 2 ^ 8 % 2 ^ 8) (w % 2 ^ 8) (omega arith)
      (omega arith) (omega arith) (omega arith) (omega arith) (omega arith) (omega arith)
    ∙ omega arith

-- A 256-bit number is what its 32 big-endian bytes read back as.
pub from_bytes_be-to_bytes_be : (x : U256) → IsU256 x → from_bytes_be (to_bytes_be x) ≡ x
unfolding from_bytes_be to_bytes_be bytes_of_limb_be
from_bytes_be-to_bytes_be x (h0, h1, h2, h3) =
    rw
      (
        limb_back x.w3 (bytes_of_limb_be x.w2 ++ (bytes_of_limb_be x.w1 ++ bytes_of_limb_be x.w0))
            h3,
        limb_back x.w2 (bytes_of_limb_be x.w1 ++ bytes_of_limb_be x.w0) h2,
        limb_back x.w1 (bytes_of_limb_be x.w0) h1,
        limb_back x.w0 [] h0,
      )
      refl
