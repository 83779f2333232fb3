-- ===== src/Target.antt =====
-- src/mining_job/target.cpp. Floating point is a parameter: an interface of the tests and
-- conversions that the source makes.
pub mod Compact
pub mod Difficulty
use btccpu.Prelude.{
  ℕ, ℤ, ◌-◌, ◌*◌, ◌/◌, ◌^◌, Bool, not, ◌||◌, List, leb, ◌==◌, if◌then◌else◌, bit_and, Result, ok,
  invalid_argument, ◌>>=◌, ◌>>◌, throw_if,
}
use btccpu.U256.{U256, of_u64, mul, shift_left, from_bytes_le, less_equal}
use btccpu.U256.Division.{divmod}

unfoldable pub expand_compact_target : ℕ → U256
expand_compact_target compact =
    let exponent = bit_and (compact / 2 ^ 24) 0xff in
    let coefficient = bit_and compact 0x007fffff in
    if leb exponent 3
    then of_u64 (coefficient / 2 ^ (8 * (3 - exponent)))
    else mul (of_u64 coefficient) (shift_left (of_u64 1) (8 * (exponent - 3)))

unfoldable pub difficulty_1_target : U256
difficulty_1_target = expand_compact_target 0x1d00ffff

unfoldable pub hash_digest_to_uint256 : List ℕ → U256
hash_digest_to_uint256 digest_bytes = from_bytes_le digest_bytes

unfoldable pub hash_meets_target : List ℕ → U256 → Bool
hash_meets_target digest_bytes target = less_equal (hash_digest_to_uint256 digest_bytes) target

-- `double` and `long double`, with what the program asks of them.
pub record FloatingPoint : Type 1 where
  pub Double : Type 0
  pub LongDouble : Type 0
  pub from_u64 : ℕ → Double
  pub from_i64 : ℤ → Double
  -- `!=`
  pub differ : Double → Double → Bool
  -- What `<<` prints.
  pub print : Double → List ℕ
  pub truncate_u64 : Double → ℕ
  pub is_positive : Double → Bool
  pub is_finite : Double → Bool
  -- The product with 2 ^ 32.
  pub scale : Double → LongDouble
  pub is_at_least_one : LongDouble → Bool
  pub is_above_u64_max : LongDouble → Bool
  -- `std::llround`, converted to `std::uint64_t`.
  pub round_u64 : LongDouble → ℕ

module _ (f : FloatingPoint) where
  unfoldable pub share_target_from_difficulty : f.Double → Result U256
  share_target_from_difficulty difficulty = do
    throw_if (not (f.is_positive difficulty) || not (f.is_finite difficulty)) invalid_argument
    let scaled_ld = f.scale difficulty
    throw_if (not (f.is_at_least_one scaled_ld) || f.is_above_u64_max scaled_ld) invalid_argument
    let scaled = f.round_u64 scaled_ld
    throw_if (scaled == 0) invalid_argument
    ok (divmod (shift_left difficulty_1_target 32) (of_u64 scaled)).0

  -- The overload for `std::uint64_t`.
  unfoldable pub share_target_from_whole_difficulty : ℕ → Result U256
  share_target_from_whole_difficulty difficulty = do
    throw_if (difficulty == 0) invalid_argument
    share_target_from_difficulty (f.from_u64 difficulty)
