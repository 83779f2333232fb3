-- ===== src/Target/Compact.antt =====
-- src/mining_job/target.cpp: the compact form and the comparison of a hash with a target.
use btccpu.Prelude.{
  ℕ, ◌-◌, ◌*◌, ◌/◌, ◌%◌, ◌^◌, ◌<◌, ◌≤◌, ◌≡◌, ◌↔◌, ap, subst, ◌∙◌, true, List, length, All, IsByte,
  leb, if◌then◌else◌, Bool-cases, inl, inr, arith,
}
use btccpu.Prelude.Bits.{bit_and-mask, mod-mul}
use btccpu.U256.{U256, IsU256, value, of_u64, mul, shift_left}
use btccpu.U256.Bytes.{le_value, from_bytes_le_lem}
use btccpu.U256.Order.{less_equal_iff}
use btccpu.U256.Shifts.{shift_left_lem}
use btccpu.U256.Products.{mul_lem}
use btccpu.Target.{expand_compact_target, hash_digest_to_uint256, hash_meets_target}
use native.Mathlib.Nat.{div-le_self}

-- The number that a compact target stands for: the low 23 bits, times 256 to the top byte less 3.
abbrev pub compact_value : ℕ → ℕ
compact_value compact =
    if leb (compact / 2 ^ 24 % 256) 3
    then compact % 2 ^ 23 / 2 ^ (8 * (3 - compact / 2 ^ 24 % 256))
    else compact % 2 ^ 23 * 2 ^ (8 * (compact / 2 ^ 24 % 256 - 3))

-- Every compact target expands to the number it stands for modulo 2 ^ 256, with limbs in range.
pub expand_compact_target_lem :
    (compact : ℕ)
    → (value (expand_compact_target compact) ≡ compact_value compact % 2 ^ 256)
      × IsU256 (expand_compact_target compact)
unfolding expand_compact_target
expand_compact_target_lem compact = elim (Bool-cases (leb exponent 3)) [
  | inl e ↦
      rw (bit_and-mask 8 (compact / 2 ^ 24), bit_and-mask 23 compact, e)
        (small (coefficient / 2 ^ (8 * (3 - exponent)))
          (omega (arith, div-le_self coefficient (2 ^ (8 * (3 - exponent))))))
  | inr e ↦
      rw (bit_and-mask 8 (compact / 2 ^ 24), bit_and-mask 23 compact, e)
        (large (8 * (exponent - 3)))
]
  where
    exponent : ℕ
    exponent = compact / 2 ^ 24 % 256

    coefficient : ℕ
    coefficient = compact % 2 ^ 23

    small : (c : ℕ) → c < 2 ^ 23 → (value (of_u64 c) ≡ c % 2 ^ 256) × IsU256 (of_u64 c)
    small c h = (omega arith, (omega arith, omega arith, omega arith, omega arith))

    large :
        (s : ℕ)
        → (value (mul (of_u64 coefficient) (shift_left (of_u64 1) s))
            ≡ coefficient * 2 ^ s % 2 ^ 256)
          × IsU256 (mul (of_u64 coefficient) (shift_left (of_u64 1) s))
    large s =
        let (e_shift, h_shift) = shift_left_lem (of_u64 1) s (small 1 (omega arith)).1 in
        let (e_mul, h_mul) =
          mul_lem (of_u64 coefficient) (shift_left (of_u64 1) s) (small coefficient (omega arith)).1
            h_shift in
        let swapped : value (of_u64 coefficient) * value (shift_left (of_u64 1) s)
            ≡ 2 ^ s % 2 ^ 256 * coefficient =
          omega (
            arith,
            ap (λ (t : ℕ). coefficient * t) e_shift,
            ap (λ (t : ℕ). coefficient * (t % 2 ^ 256)) one_times,
          ) in
        (
          e_mul
              ∙ ap (λ (t : ℕ). t % 2 ^ 256) swapped
              ∙ mod-mul (2 ^ s) coefficient (2 ^ 256)
              ∙ ap (λ (t : ℕ). t % 2 ^ 256) (omega arith),
          h_mul,
        )
      where
        one_times : value (of_u64 1) * 2 ^ s ≡ 2 ^ s
        one_times = omega arith

-- A digest meets a target if and only if the number that its bytes spell, least significant byte
-- first, is at most the target.
pub hash_meets_target_iff :
    (digest : List ℕ) (target : U256)
    → length digest ≡ 32
    → All IsByte digest
    → IsU256 target
    → (hash_meets_target digest target ≡ true) ↔ (le_value digest ≤ value target)
unfolding hash_meets_target hash_digest_to_uint256
hash_meets_target_iff digest target l all h =
    let (e, range) = from_bytes_le_lem digest l all in
    subst (λ (n : ℕ). (hash_meets_target digest target ≡ true) ↔ (n ≤ value target)) e
      (less_equal_iff (hash_digest_to_uint256 digest) target range h)
