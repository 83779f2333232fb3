-- ===== src/Target/Difficulty.antt =====
-- src/mining_job/target.cpp: the target of a pool's difficulty.
use btccpu.Prelude.{
  ℕ, ◌*◌, ◌/◌, ◌%◌, ◌^◌, ◌<◌, ◌≡◌, ◌⊎◌, refl, Bool, ap, ◌∙◌, true, false, not, ◌||◌, inl, inr, ok,
  err, invalid_argument, ◌>>◌, throw_if, ◌==◌, arith,
}
use btccpu.U256.{U256, IsU256, value, of_u64, shift_left}
use btccpu.U256.Shifts.{shift_left_lem}
use btccpu.U256.Division.{divmod}
use btccpu.U256.Division.Quotient.{divmod_lem}
use btccpu.Target.{
  FloatingPoint, expand_compact_target, difficulty_1_target, share_target_from_difficulty,
}
use btccpu.Target.Compact.{expand_compact_target_lem}

-- The target of difficulty 1, shifted by 32 bits, fits.
shifted_difficulty_1 :
    (value (shift_left difficulty_1_target 32) ≡ 0xffff * 2 ^ 240)
    × IsU256 (shift_left difficulty_1_target 32)
unfolding difficulty_1_target
shifted_difficulty_1 =
    let (e, h) = expand_compact_target_lem 0x1d00ffff in
    let (es, hs) = shift_left_lem (expand_compact_target 0x1d00ffff) 32 h in
    (es ∙ ap (λ (t : ℕ). t * 2 ^ 32 % 2 ^ 256) e, hs)

-- Three tests that throw, one after the other.
three_guards :
    (a b c : Bool) (x : U256)
    → ((throw_if a invalid_argument
          >> (throw_if b invalid_argument >> (throw_if c invalid_argument >> ok x)))
        ≡ err invalid_argument)
      ⊎ ((a ≡ false)
          × (b ≡ false)
          × (c ≡ false)
          × ((throw_if a invalid_argument
                >> (throw_if b invalid_argument >> (throw_if c invalid_argument >> ok x)))
              ≡ ok x))
three_guards true b c x = inl refl
three_guards false true c x = inl refl
three_guards false false true x = inl refl
three_guards false false false x = inr (refl, refl, refl, refl)

both_true : (a b : Bool) → (not a || not b) ≡ false → (a ≡ true) × (b ≡ true)
both_true true true h = (refl, refl)
both_true true false h = absurd (ground arith)
both_true false b h = absurd (ground arith)

-- What the target of a difficulty is to be.
abbrev pub IsShareTarget : (f : FloatingPoint) → f.Double → U256 → Type 0
IsShareTarget f difficulty target =
    (f.is_positive difficulty ≡ true)
    × (f.is_finite difficulty ≡ true)
    × (0 < f.round_u64 (f.scale difficulty))
    × (value target ≡ 0xffff * 2 ^ 240 / f.round_u64 (f.scale difficulty))
    × IsU256 target

-- A difficulty is refused with `invalid_argument`, or it is positive and finite and the target is
-- the difficulty-1 target times 2 ^ 32, divided by the difficulty times 2 ^ 32 as it is rounded
-- to 64 bits.
pub share_target_from_difficulty_lem :
    (f : FloatingPoint) (difficulty : f.Double)
    → ((x : f.LongDouble) → f.round_u64 x < 2 ^ 64)
    → (share_target_from_difficulty f difficulty ≡ err invalid_argument)
      ⊎ ((target : U256) × (share_target_from_difficulty f difficulty ≡ ok target)
          × IsShareTarget f difficulty target)
unfolding share_target_from_difficulty
share_target_from_difficulty_lem f difficulty range =
    let scaled_ld = f.scale difficulty in
    let scaled = f.round_u64 scaled_ld in
    let target = (divmod (shift_left difficulty_1_target 32) (of_u64 scaled)).0 in
    elim (three_guards (not (f.is_positive difficulty) || not (f.is_finite difficulty))
      (not (f.is_at_least_one scaled_ld) || f.is_above_u64_max scaled_ld) (scaled == 0) target) [
        | inl refused ↦ inl refused
        | inr (admissible, in_range, not_zero, accepted) ↦
            let positive : 0 < scaled = ground arith in
            let (e, h) = shifted_difficulty_1 in
            let (quotient, remainder, limbs) =
              divmod_lem (shift_left difficulty_1_target 32) scaled h positive (range scaled_ld) in
            inr (
              target,
              accepted,
              (
                (both_true (f.is_positive difficulty) (f.is_finite difficulty) admissible).0,
                (both_true (f.is_positive difficulty) (f.is_finite difficulty) admissible).1,
                positive,
                quotient ∙ ap (λ (t : ℕ). t / scaled) e,
                limbs,
              ),
            )
      ]
