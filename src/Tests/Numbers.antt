-- ===== src/Tests/Numbers.antt =====
-- The 256-bit numbers and the targets at concrete inputs.
use btccpu.Prelude.{
  ℕ, ℤ, pos, negsuc, suc, ◌∷◌, [], not, ◌==◌, ◌+◌, ◌-◌, ◌*◌, ◌/◌, ◌%◌, ◌^◌, ◌≤◌, ◌<◌, ◌≡◌, ◌↔◌, ◌⊎◌,
  refl, true, replicate, ok, err, invalid_argument, leb, arith,
}
use btccpu.U256.{U256, IsU256, value, of_u64, mul}
use btccpu.U256.Bytes.{le_value}
use btccpu.U256.Products.{mul_lem}
use btccpu.U256.Division.{divmod}
use btccpu.U256.Division.Quotient.{divmod_lem}
use btccpu.Target.{
  FloatingPoint, expand_compact_target, hash_meets_target, share_target_from_difficulty,
}
use btccpu.Target.Compact.{compact_value, expand_compact_target_lem, hash_meets_target_iff}
use btccpu.Target.Difficulty.{IsShareTarget, share_target_from_difficulty_lem}

abbrev a : U256
a = record { w0 = 2 ^ 64 - 1; w1 = 2 ^ 64 - 1; w2 = 5; w3 = 2 ^ 63 }

abbrev b : U256
b = record { w0 = 2; w1 = 2 ^ 64 - 1; w2 = 7; w3 = 2 ^ 63 + 1 }

a-IsU256 : IsU256 a
a-IsU256 = (omega arith, omega arith, omega arith, omega arith)

b-IsU256 : IsU256 b
b-IsU256 = (omega arith, omega arith, omega arith, omega arith)

mul_lem_example : (value (mul a b) ≡ value a * value b % 2 ^ 256) × IsU256 (mul a b)
mul_lem_example = mul_lem a b a-IsU256 b-IsU256

divmod_lem_example :
    (value (divmod a (of_u64 1000)).0 ≡ value a / 1000)
    × (value (divmod a (of_u64 1000)).1 ≡ value a % 1000)
    × IsU256 (divmod a (of_u64 1000)).0
divmod_lem_example = divmod_lem a 1000 a-IsU256 (omega arith) (omega arith)

expand_compact_target_lem_example :
    (value (expand_compact_target 0x1701f0cc) ≡ compact_value 0x1701f0cc % 2 ^ 256)
    × IsU256 (expand_compact_target 0x1701f0cc)
expand_compact_target_lem_example = expand_compact_target_lem 0x1701f0cc

hash_meets_target_iff_example :
    (hash_meets_target (replicate 32 0x81) b ≡ true) ↔ (le_value (replicate 32 0x81) ≤ value b)
hash_meets_target_iff_example =
    hash_meets_target_iff (replicate 32 0x81) b refl (ground arith) b-IsU256

-- Difficulties that are whole numbers, with the overflow of the conversion cut off.
abbrev magnitude : ℤ → ℕ
magnitude (pos n) = n
magnitude (negsuc n) = suc n

abbrev pub whole_numbers : FloatingPoint
whole_numbers = record {
  Double = ℕ;
  LongDouble = ℕ;
  from_u64 = λ n. n;
  from_i64 = λ i. magnitude i;
  differ = λ m n. not (m == n);
  print = λ n. n ∷ [];
  truncate_u64 = λ n. n;
  is_positive = λ n. leb 1 n;
  is_finite = λ n. true;
  scale = λ n. n * 2 ^ 32;
  is_at_least_one = λ n. leb 1 n;
  is_above_u64_max = λ n. leb (2 ^ 64) n;
  round_u64 = λ n. n % 2 ^ 64;
}

round_u64-lt : (n : ℕ) → n % 2 ^ 64 < 2 ^ 64
round_u64-lt n = omega arith

share_target_from_difficulty_lem_example :
    (share_target_from_difficulty whole_numbers 1000 ≡ err invalid_argument)
    ⊎ ((target : U256) × (share_target_from_difficulty whole_numbers 1000 ≡ ok target)
        × IsShareTarget whole_numbers 1000 target)
share_target_from_difficulty_lem_example =
    share_target_from_difficulty_lem whole_numbers 1000 round_u64-lt
