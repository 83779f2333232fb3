-- ===== src/U256/Division.antt =====
-- src/util/uint256.hpp: `divmod` and the helpers it calls.
pub mod Quotient
use btccpu.Prelude.{
  ℕ, zero, suc, ◌+◌, ◌-◌, ◌*◌, ◌/◌, ◌%◌, ◌^◌, ◌<◌, ◌≡◌, refl, ap, Bool, true, false, ◌&&◌, List, [],
  ◌∷◌, Option, none, some, ◌==◌, leb, if◌then◌else◌, bit_and, bit_or, arith,
}
use btccpu.U256.{U256, IsU256, value, of_u64, is_zero, greater_equal, sub, limb, limbs, shift_right}

unfoldable pub fits_u64 : U256 → Bool
fits_u64 x = x.w1 == 0 && (x.w2 == 0 && x.w3 == 0)

-- One step of `divmod_u64`: the quotient limb and the remainder, from the remainder above and a limb.
unfoldable pub divide_limb : ℕ → ℕ → ℕ → ℕ × ℕ
divide_limb r w d = let n = bit_or (r * 2 ^ 64 % 2 ^ 128) w in (n / d % 2 ^ 64, n % d)

-- The quotient and the remainder.
unfoldable pub divmod_u64 : U256 → ℕ → U256 × ℕ
divmod_u64 n d =
    let s3 = divide_limb 0 n.w3 d in
    let s2 = divide_limb s3.1 n.w2 d in
    let s1 = divide_limb s2.1 n.w1 d in
    let s0 = divide_limb s1.1 n.w0 d in
    (record { w0 = s0.0; w1 = s1.0; w2 = s2.0; w3 = s3.0 }, s0.1 % 2 ^ 64)

-- `std::has_single_bit`
abbrev has_single_bit : ℕ → Bool
has_single_bit zero = false
has_single_bit (suc v) = bit_and (suc v) v == 0

-- `std::countr_zero` of a number of at most `width` bits.
unfoldable pub countr_zero : ℕ → ℕ → ℕ
countr_zero zero v = 0
countr_zero (suc width) v = if v % 2 == 1 then 0 else suc (countr_zero width (v / 2))

-- The loop over the limbs: the only limb that is not zero, with its index.
unfoldable pub single_limb : ℕ → List ℕ → Option (ℕ × ℕ) → Option (ℕ × ℕ)
single_limb i [] found = found
single_limb i (w ∷ ws) none = single_limb (suc i) ws (if w == 0 then none else some (i, w))
single_limb i (w ∷ ws) (some found) = elim (w == 0) [
  | true ↦ single_limb (suc i) ws (some found)
  | false ↦ none
]

-- `is_power_of_two_and_ctz`: the index of the only bit.
unfoldable pub is_power_of_two_and_ctz : U256 → Option ℕ
is_power_of_two_and_ctz x = elim (single_limb 0 (limbs x) none) [
  | none ↦ none
  | some (i, v) ↦ if has_single_bit v then some (i * 64 + countr_zero 64 v) else none
]

unfoldable pub shl1 : U256 → U256
shl1 x = record {
  w0 = bit_or (x.w0 * 2 % 2 ^ 64) 0;
  w1 = bit_or (x.w1 * 2 % 2 ^ 64) (x.w0 / 2 ^ 63);
  w2 = bit_or (x.w2 * 2 % 2 ^ 64) (x.w1 / 2 ^ 63);
  w3 = bit_or (x.w3 * 2 % 2 ^ 64) (x.w2 / 2 ^ 63);
}

unfoldable pub get_bit : U256 → ℕ → Bool
get_bit x i = bit_and (limb x (i / 64) / 2 ^ (i % 64)) 1 == 1

unfoldable pub set_limb : U256 → ℕ → ℕ → U256
set_limb x zero v = record { w0 = v; w1 = x.w1; w2 = x.w2; w3 = x.w3 }
set_limb x (suc zero) v = record { w0 = x.w0; w1 = v; w2 = x.w2; w3 = x.w3 }
set_limb x (suc (suc zero)) v = record { w0 = x.w0; w1 = x.w1; w2 = v; w3 = x.w3 }
set_limb x (suc (suc (suc i))) v = record { w0 = x.w0; w1 = x.w1; w2 = x.w2; w3 = v }

unfoldable pub set_bit : U256 → ℕ → U256
set_bit x i = set_limb x (i / 64) (bit_or (limb x (i / 64)) (2 ^ (i % 64)))

-- `&`
unfoldable pub and_limbs : U256 → U256 → U256
and_limbs a b = record {
  w0 = bit_and a.w0 b.w0;
  w1 = bit_and a.w1 b.w1;
  w2 = bit_and a.w2 b.w2;
  w3 = bit_and a.w3 b.w3;
}

-- The body of the loop of the long division for bit `i`, on the quotient and the remainder.
unfoldable pub divide_bit : U256 → U256 → ℕ → U256 × U256 → U256 × U256
divide_bit n d i (q, r) =
    let doubled = shl1 r in
    let next = if get_bit n i then set_limb doubled 0 (bit_or doubled.w0 1) else doubled in
    if greater_equal next d then (set_bit q i, sub next d) else (q, next)

-- The loop from bit `i - 1` down to bit 0.
unfoldable pub divide_bits : U256 → U256 → ℕ → U256 × U256 → U256 × U256
divide_bits n d zero state = state
divide_bits n d (suc i) state = divide_bits n d i (divide_bit n d i state)

unfoldable pub divmod : U256 → U256 → U256 × U256
divmod n d =
    if is_zero d
    then (of_u64 0, of_u64 0)
    else if fits_u64 d
    then (let result = divmod_u64 n d.w0 in (result.0, of_u64 result.1))
    else elim (is_power_of_two_and_ctz d) [
      | some k ↦ (if leb 256 k then of_u64 0 else shift_right n k, and_limbs n (sub d (of_u64 1)))
      | none ↦ divide_bits n d 256 (of_u64 0, of_u64 0)
    ]
