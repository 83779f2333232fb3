-- ===== src/U256.antt =====
-- src/util/uint256.hpp: the 256-bit unsigned integer, four 64-bit limbs, least significant first.
-- The 128-bit intermediate values are plain numbers where they cannot overflow.
pub mod Order
pub mod Sums
pub mod Bytes
pub mod BigEndian
pub mod Shifts
pub mod Products
pub mod Division
use btccpu.Prelude.{
  ℕ, zero, suc, ◌+◌, ◌-◌, ◌*◌, ◌/◌, ◌%◌, ◌^◌, ◌<◌, Bool, true, false, not, ◌&&◌, List, [], ◌∷◌,
  ◌++◌, ltb, leb, ◌==◌, if◌then◌else◌, get_or, drop, bit_and, bit_or, bit_xor,
}

pub record U256 : Type 0 where
  pub w0 : ℕ
  pub w1 : ℕ
  pub w2 : ℕ
  pub w3 : ℕ

-- Each limb is a `std::uint64_t`.
abbrev pub IsU256 : U256 → Type 0
IsU256 x = (x.w0 < 2 ^ 64) × (x.w1 < 2 ^ 64) × (x.w2 < 2 ^ 64) × (x.w3 < 2 ^ 64)

-- The number that the limbs stand for.
abbrev pub value : U256 → ℕ
value x = x.w0 + x.w1 * 2 ^ 64 + x.w2 * 2 ^ 128 + x.w3 * 2 ^ 192

-- `uint256{x}`
abbrev pub of_u64 : ℕ → U256
of_u64 x = record { w0 = x; w1 = 0; w2 = 0; w3 = 0 }

unfoldable pub is_zero : U256 → Bool
is_zero x = bit_or (bit_or (bit_or x.w0 x.w1) x.w2) x.w3 == 0

unfoldable pub equal : U256 → U256 → Bool
equal a b = a.w0 == b.w0 && (a.w1 == b.w1 && (a.w2 == b.w2 && a.w3 == b.w3))

-- `operator<`: the loop from the top limb returns at the first difference.
unfoldable pub less : U256 → U256 → Bool
less a b =
    if a.w3 == b.w3
    then (if a.w2 == b.w2
        then (if a.w1 == b.w1
            then (if a.w0 == b.w0 then false else ltb a.w0 b.w0)
            else ltb a.w1 b.w1)
        else ltb a.w2 b.w2)
    else ltb a.w3 b.w3

-- `operator<=` and `operator>=`.
unfoldable pub less_equal : U256 → U256 → Bool
less_equal a b = not (less b a)

unfoldable pub greater_equal : U256 → U256 → Bool
greater_equal a b = not (less a b)

-- The sum of two limbs and a carry, and the carry out.
unfoldable pub add_carry : ℕ → ℕ → ℕ → ℕ × ℕ
add_carry a b carry = let sum = a + b + carry in (sum % 2 ^ 64, sum / 2 ^ 64 % 2 ^ 64)

-- The difference of two limbs and a borrow, in 128 bits, and the borrow out.
unfoldable pub sub_borrow : ℕ → ℕ → ℕ → ℕ × ℕ
sub_borrow a b borrow =
    let bb = b + borrow in ((a + 2 ^ 128 - bb) % 2 ^ 128 % 2 ^ 64, if ltb a bb then 1 else 0)

unfoldable pub add : U256 → U256 → U256
add a b =
    let s0 = add_carry a.w0 b.w0 0 in
    let s1 = add_carry a.w1 b.w1 s0.1 in
    let s2 = add_carry a.w2 b.w2 s1.1 in
    let s3 = add_carry a.w3 b.w3 s2.1 in record { w0 = s0.0; w1 = s1.0; w2 = s2.0; w3 = s3.0 }

unfoldable pub sub : U256 → U256 → U256
sub a b =
    let s0 = sub_borrow a.w0 b.w0 0 in
    let s1 = sub_borrow a.w1 b.w1 s0.1 in
    let s2 = sub_borrow a.w2 b.w2 s1.1 in
    let s3 = sub_borrow a.w3 b.w3 s2.1 in record { w0 = s0.0; w1 = s1.0; w2 = s2.0; w3 = s3.0 }

-- `w[i]`
abbrev pub limb : U256 → ℕ → ℕ
limb x zero = x.w0
limb x (suc zero) = x.w1
limb x (suc (suc zero)) = x.w2
limb x (suc (suc (suc i))) = x.w3

-- The limb loop of `<<=`. It runs from the top, so each limb is read before it is written.
unfoldable pub shift_limbs_up : U256 → ℕ → U256
shift_limbs_up x s =
    let at = λ (i : ℕ). if leb s i then limb x (i - s) else 0 in
    record { w0 = at 0; w1 = at 1; w2 = at 2; w3 = at 3 }

-- The bit loop of `<<=`, from the top as well.
unfoldable pub shift_bits_up : U256 → ℕ → U256
shift_bits_up x s = record {
  w0 = bit_or (x.w0 * 2 ^ s % 2 ^ 64) 0;
  w1 = bit_or (x.w1 * 2 ^ s % 2 ^ 64) (x.w0 / 2 ^ (64 - s));
  w2 = bit_or (x.w2 * 2 ^ s % 2 ^ 64) (x.w1 / 2 ^ (64 - s));
  w3 = bit_or (x.w3 * 2 ^ s % 2 ^ 64) (x.w2 / 2 ^ (64 - s));
}

-- `<<=`
unfoldable pub shift_left : U256 → ℕ → U256
shift_left x s =
    if leb 256 s
    then of_u64 0
    else (let limbs = if s / 64 == 0 then x else shift_limbs_up x (s / 64) in
        if s % 64 == 0 then limbs else shift_bits_up limbs (s % 64))

-- The limb loop of `>>=`, from the bottom.
unfoldable pub shift_limbs_down : U256 → ℕ → U256
shift_limbs_down x s =
    let at = λ (i : ℕ). if ltb (i + s) 4 then limb x (i + s) else 0 in
    record { w0 = at 0; w1 = at 1; w2 = at 2; w3 = at 3 }

unfoldable pub shift_bits_down : U256 → ℕ → U256
shift_bits_down x s = record {
  w0 = bit_or (x.w0 / 2 ^ s) (x.w1 * 2 ^ (64 - s) % 2 ^ 64);
  w1 = bit_or (x.w1 / 2 ^ s) (x.w2 * 2 ^ (64 - s) % 2 ^ 64);
  w2 = bit_or (x.w2 / 2 ^ s) (x.w3 * 2 ^ (64 - s) % 2 ^ 64);
  w3 = bit_or (x.w3 / 2 ^ s) 0;
}

-- `>>=`
unfoldable pub shift_right : U256 → ℕ → U256
shift_right x s =
    if leb 256 s
    then of_u64 0
    else (let limbs = if s / 64 == 0 then x else shift_limbs_down x (s / 64) in
        if s % 64 == 0 then limbs else shift_bits_down limbs (s % 64))

-- One limb from eight bytes, least significant first.
unfoldable pub limb_of_bytes : List ℕ → ℕ
limb_of_bytes b =
    bit_or
      (bit_or
        (bit_or
          (bit_or
            (bit_or (bit_or (bit_or (get_or b 0 0) (get_or b 1 0 * 2 ^ 8)) (get_or b 2 0 * 2 ^ 16))
              (get_or b 3 0 * 2 ^ 24))
            (get_or b 4 0 * 2 ^ 32))
          (get_or b 5 0 * 2 ^ 40))
        (get_or b 6 0 * 2 ^ 48))
      (get_or b 7 0 * 2 ^ 56)

unfoldable pub from_bytes_le : List ℕ → U256
from_bytes_le bytes = record {
  w0 = limb_of_bytes bytes;
  w1 = limb_of_bytes (drop 8 bytes);
  w2 = limb_of_bytes (drop 16 bytes);
  w3 = limb_of_bytes (drop 24 bytes);
}

-- The eight bytes of a limb.
unfoldable pub bytes_of_limb : ℕ → List ℕ
bytes_of_limb v =
    v % 2 ^ 8
    ∷ v / 2 ^ 8 % 2 ^ 8
    ∷ v / 2 ^ 16 % 2 ^ 8
    ∷ v / 2 ^ 24 % 2 ^ 8
    ∷ v / 2 ^ 32 % 2 ^ 8
    ∷ v / 2 ^ 40 % 2 ^ 8
    ∷ v / 2 ^ 48 % 2 ^ 8
    ∷ v / 2 ^ 56 % 2 ^ 8
    ∷ []

unfoldable pub to_bytes_le : U256 → List ℕ
to_bytes_le x =
    bytes_of_limb x.w0 ++ (bytes_of_limb x.w1 ++ (bytes_of_limb x.w2 ++ bytes_of_limb x.w3))

-- The inner loop of `operator*` over `j`: `r[i + j]` is replaced, and the carry goes on.
unfoldable pub mul_row : ℕ → List ℕ → List ℕ → ℕ → List ℕ
mul_row a bs [] carry = []
mul_row a [] (r ∷ rs) carry = r ∷ rs
mul_row a (b ∷ bs) (r ∷ rs) carry =
    let cur = a * b + r + carry in cur % 2 ^ 64 ∷ mul_row a bs rs (cur / 2 ^ 64)

-- The outer loop over `i`: the list is `r[i ..]`, and the first limb of a row is final.
unfoldable pub mul_rows : List ℕ → List ℕ → List ℕ → List ℕ
mul_rows [] bs rs = rs
mul_rows (a ∷ more) bs rs = elim (mul_row a bs rs 0) [
  | [] ↦ []
  | r ∷ rest ↦ r ∷ mul_rows more bs rest
]

abbrev pub limbs : U256 → List ℕ
limbs x = x.w0 ∷ x.w1 ∷ x.w2 ∷ x.w3 ∷ []

abbrev pub of_limbs : List ℕ → U256
of_limbs l = record { w0 = get_or l 0 0; w1 = get_or l 1 0; w2 = get_or l 2 0; w3 = get_or l 3 0 }

unfoldable pub mul : U256 → U256 → U256
mul a b = of_limbs (mul_rows (limbs a) (limbs b) (0 ∷ 0 ∷ 0 ∷ 0 ∷ []))
