-- ===== src/U256/Bytes.antt =====
-- src/util/uint256.hpp: `from_bytes_le` and `to_bytes_le`.
use btccpu.Prelude.{
  ℕ, ◌+◌, ◌*◌, ◌/◌, ◌%◌, ◌^◌, ◌<◌, ◌≤◌, ◌≡◌, refl, ap, ◌∙◌, List, [], ◌∷◌, ◌++◌, length, drop,
  drop-drop, drop-all, length-drop, subst, All, IsByte, bit_or, arith,
}
use btccpu.Prelude.Bits.{bit_or_comm, bit_or-above}
use btccpu.U256.{U256, IsU256, value, limb_of_bytes, from_bytes_le, bytes_of_limb, to_bytes_le}

-- The number that a string of bytes spells, least significant first.
abbrev pub le_value : List ℕ → ℕ
le_value [] = 0
le_value (b ∷ bs) = b + 256 * le_value bs

field : (k x r t : ℕ) → t ≡ x * 2 ^ k → r < 2 ^ k → bit_or r t ≡ r + t
field k x r t e h = bit_or_comm r t ∙ (bit_or-above k x r t e h ∙ omega arith)

limb_of_eight :
    (a b c d e f g h : ℕ) (bs : List ℕ)
    → All IsByte (a ∷ b ∷ c ∷ d ∷ e ∷ f ∷ g ∷ h ∷ [])
    → limb_of_bytes (a ∷ b ∷ c ∷ d ∷ e ∷ f ∷ g ∷ h ∷ bs)
      ≡ a + b * 2 ^ 8 + c * 2 ^ 16 + d * 2 ^ 24 + e * 2 ^ 32 + f * 2 ^ 40 + g * 2 ^ 48 + h * 2 ^ 56
unfolding limb_of_bytes
limb_of_eight a b c d e f g h bs (ha, (hb, (hc, (hd, (he, (hf, (hg, (hh, rest)))))))) =
    rw
      (
        field 8 b a (b * 2 ^ 8) refl (omega arith),
        field 16 c (a + b * 2 ^ 8) (c * 2 ^ 16) refl (omega arith),
        field 24 d (a + b * 2 ^ 8 + c * 2 ^ 16) (d * 2 ^ 24) refl (omega arith),
        field 32 e (a + b * 2 ^ 8 + c * 2 ^ 16 + d * 2 ^ 24) (e * 2 ^ 32) refl (omega arith),
        field 40 f (a + b * 2 ^ 8 + c * 2 ^ 16 + d * 2 ^ 24 + e * 2 ^ 32) (f * 2 ^ 40) refl
            (omega arith),
        field 48 g (a + b * 2 ^ 8 + c * 2 ^ 16 + d * 2 ^ 24 + e * 2 ^ 32 + f * 2 ^ 40) (g * 2 ^ 48)
            refl (omega arith),
        field 56 h (a + b * 2 ^ 8 + c * 2 ^ 16 + d * 2 ^ 24 + e * 2 ^ 32 + f * 2 ^ 40 + g * 2 ^ 48)
            (h * 2 ^ 56) refl (omega arith),
      )
      refl

-- One limb is the eight lowest bytes.
limb_of_bytes_lem :
    (bs : List ℕ)
    → All IsByte bs
    → 8 ≤ length bs
    → (le_value bs ≡ limb_of_bytes bs + 2 ^ 64 * le_value (drop 8 bs))
      × (limb_of_bytes bs < 2 ^ 64)
      × All IsByte (drop 8 bs)
limb_of_bytes_lem (a ∷ b ∷ c ∷ d ∷ e ∷ f ∷ g ∷ h ∷ bs) all l =
    let (ha, (hb, (hc, (hd, (he, (hf, (hg, (hh, rest)))))))) = all in
    let eight =
      limb_of_eight a b c d e f g h bs (ha, (hb, (hc, (hd, (he, (hf, (hg, (hh, tt)))))))) in
    (omega arith, omega arith, rest)
limb_of_bytes_lem [] all l = absurd (omega arith)
limb_of_bytes_lem (_ ∷ []) all l = absurd (omega arith)
limb_of_bytes_lem (_ ∷ _ ∷ []) all l = absurd (omega arith)
limb_of_bytes_lem (_ ∷ _ ∷ _ ∷ []) all l = absurd (omega arith)
limb_of_bytes_lem (_ ∷ _ ∷ _ ∷ _ ∷ []) all l = absurd (omega arith)
limb_of_bytes_lem (_ ∷ _ ∷ _ ∷ _ ∷ _ ∷ []) all l = absurd (omega arith)
limb_of_bytes_lem (_ ∷ _ ∷ _ ∷ _ ∷ _ ∷ _ ∷ []) all l = absurd (omega arith)
limb_of_bytes_lem (_ ∷ _ ∷ _ ∷ _ ∷ _ ∷ _ ∷ _ ∷ []) all l = absurd (omega arith)

digits_of_limb : (w : ℕ) (rest : List ℕ) → w < 2 ^ 64 → limb_of_bytes (bytes_of_limb w ++ rest) ≡ w
unfolding bytes_of_limb
digits_of_limb w rest h =
    limb_of_eight (w % 2 ^ 8) (w / 2 ^ 8 % 2 ^ 8) (w / 2 ^ 16 % 2 ^ 8) (w / 2 ^ 24 % 2 ^ 8)
      (w / 2 ^ 32 % 2 ^ 8) (w / 2 ^ 40 % 2 ^ 8) (w / 2 ^ 48 % 2 ^ 8) (w / 2 ^ 56 % 2 ^ 8) rest
      (
        byte w,
        (
          byte (w / 2 ^ 8),
          (
            byte (w / 2 ^ 16),
            (
              byte (w / 2 ^ 24),
              (
                byte (w / 2 ^ 32),
                (byte (w / 2 ^ 40), (byte (w / 2 ^ 48), (byte (w / 2 ^ 56), tt))),
              ),
            ),
          ),
        ),
      )
    ∙ omega arith
  where
    byte : (v : ℕ) → v % 256 < 256
    byte v = omega arith

-- The 256-bit number of 32 bytes is the number that they spell, least significant byte first, and
-- its limbs are in range.
pub from_bytes_le_lem :
    (bs : List ℕ)
    → length bs ≡ 32
    → All IsByte bs
    → (value (from_bytes_le bs) ≡ le_value bs) × IsU256 (from_bytes_le bs)
unfolding from_bytes_le
from_bytes_le_lem bs l all =
    let (e0, r0, a0) = limb_of_bytes_lem bs all (omega arith) in
    let (e1, r1, a1) = limb_of_bytes_lem (drop 8 bs) a0 (omega (arith, length-drop 8 bs)) in
    let (e2, r2, a2) =
      limb_of_bytes_lem (drop 16 bs) (subst (All IsByte) (drop-drop 8 8 bs) a1)
        (omega (arith, length-drop 16 bs)) in
    let (e3, r3, a3) =
      limb_of_bytes_lem (drop 24 bs) (subst (All IsByte) (drop-drop 8 16 bs) a2)
        (omega (arith, length-drop 24 bs)) in
    let none_left : drop 8 (drop 24 bs) ≡ [] =
      drop-all 8 (drop 24 bs) (omega (arith, length-drop 24 bs)) in
    (
      omega (
        arith,
        e0,
        e1,
        e2,
        e3,
        ap le_value (drop-drop 8 8 bs),
        ap le_value (drop-drop 8 16 bs),
        ap le_value none_left,
      ),
      (r0, r1, r2, r3),
    )

-- A 256-bit number is what its 32 bytes read back as.
pub from_bytes_le-to_bytes_le : (x : U256) → IsU256 x → from_bytes_le (to_bytes_le x) ≡ x
unfolding from_bytes_le to_bytes_le bytes_of_limb
from_bytes_le-to_bytes_le x (h0, h1, h2, h3) =
    rw
      (
        digits_of_limb x.w0 (bytes_of_limb x.w1 ++ (bytes_of_limb x.w2 ++ bytes_of_limb x.w3)) h0,
        digits_of_limb x.w1 (bytes_of_limb x.w2 ++ bytes_of_limb x.w3) h1,
        digits_of_limb x.w2 (bytes_of_limb x.w3) h2,
        digits_of_limb x.w3 [] h3,
      )
      refl
