-- ===== src/U256/Division/Quotient.antt =====
-- src/util/uint256.hpp: `divmod` by a divisor of 64 bits.
use btccpu.Prelude.{ℕ, ◌+◌, ◌*◌, ◌/◌, ◌%◌, ◌^◌, ◌<◌, ◌≡◌, sym, ap, ◌∙◌, false, bit_or, arith}
use btccpu.Prelude.Bits.{bit_or-above, bit_or-zero, mod-field, div-field}
use btccpu.U256.{U256, IsU256, value, of_u64, is_zero}
use btccpu.U256.Division.{fits_u64, divide_limb, divmod_u64, divmod}
use native.Mathlib.Nat.{div-add-mod', mod-lt, mod-eq_of_lt, lt_of_mul-lt-mul_right}

divide_limb_lem :
    (r w d : ℕ)
    → r < d
    → d < 2 ^ 64
    → w < 2 ^ 64
    → ((divide_limb r w d).0 * d + (divide_limb r w d).1 ≡ r * 2 ^ 64 + w)
      × ((divide_limb r w d).0 < 2 ^ 64)
      × ((divide_limb r w d).1 < d)
unfolding divide_limb
divide_limb_lem r w d hr hd hw =
    let n = bit_or (r * 2 ^ 64 % 2 ^ 128) w in
    let whole : n ≡ r * 2 ^ 64 + w =
      bit_or-above 64 r w (r * 2 ^ 64 % 2 ^ 128) (omega arith) hw ∙ omega arith in
    let small : n / d < 2 ^ 64 =
      lt_of_mul-lt-mul_right d (omega (arith, whole, div-add-mod' n d)) in
    let uncut : n / d % 2 ^ 64 ≡ n / d = mod-eq_of_lt small in
    (
      omega (arith, whole, div-add-mod' n d, ap (λ (t : ℕ). t * d) uncut),
      omega arith,
      mod-lt n (let pos : 0 < d = omega arith in pos),
    )

divmod_u64_lem :
    (n : U256) (d : ℕ)
    → IsU256 n
    → 0 < d
    → d < 2 ^ 64
    → (value (divmod_u64 n d).0 * d + (divmod_u64 n d).1 ≡ value n)
      × ((divmod_u64 n d).1 < d)
      × IsU256 (divmod_u64 n d).0
unfolding divmod_u64
divmod_u64_lem n d (h0, h1, h2, h3) hp hd =
    let (e3, q3, r3) = divide_limb_lem 0 n.w3 d hp hd h3 in
    let (e2, q2, r2) = divide_limb_lem (divide_limb 0 n.w3 d).1 n.w2 d r3 hd h2 in
    let (e1, q1, r1) =
      divide_limb_lem (divide_limb (divide_limb 0 n.w3 d).1 n.w2 d).1 n.w1 d r2 hd h1 in
    let (e0, q0, r0) =
      divide_limb_lem (divide_limb (divide_limb (divide_limb 0 n.w3 d).1 n.w2 d).1 n.w1 d).1 n.w0 d
        r1 hd h0 in
    (omega (arith, e0, e1, e2, e3), omega arith, (q0, q1, q2, q3))

is_zero-of_u64 : (d : ℕ) → 0 < d → is_zero (of_u64 d) ≡ false
unfolding is_zero
is_zero-of_u64 d h = rw (bit_or-zero d, bit_or-zero d, bit_or-zero d) (ground arith)

-- Division of a 256-bit number by a divisor of 64 bits that is not zero is the quotient and the
-- remainder of their numbers, and the limbs of the quotient are in range.
pub divmod_lem :
    (n : U256) (d : ℕ)
    → IsU256 n
    → 0 < d
    → d < 2 ^ 64
    → (value (divmod n (of_u64 d)).0 ≡ value n / d)
      × (value (divmod n (of_u64 d)).1 ≡ value n % d)
      × IsU256 (divmod n (of_u64 d)).0
unfolding divmod fits_u64
divmod_lem n d h hp hd =
    let (e, lt, range) = divmod_u64_lem n d h hp hd in
    let whole : value n ≡ value (divmod_u64 n d).0 * d + (divmod_u64 n d).1 = sym e in
    rw (is_zero-of_u64 d hp) (
      sym (div-field (value n) (value (divmod_u64 n d).0) (divmod_u64 n d).1 d whole lt),
      omega (arith, mod-field (value n) (value (divmod_u64 n d).0) (divmod_u64 n d).1 d whole lt),
      range,
    )
