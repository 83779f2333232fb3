-- ===== src/Prelude/Bits.antt =====
-- `&`, `|` and `^` at variables: one equation for the lowest digit, and from it the laws of
-- shifted fields and of masks as plain arithmetic.
use Prim.Native.Nat.{
  ℕ, zero, suc, ◌+◌, ◌-◌, ◌*◌, ◌/◌, ◌%◌, ◌^◌, ◌≤◌, ◌<◌, min, max, bit_and, bit_or, bit_xor, digits,
}
use Prim.Native.Nat.{bitwise, differ, bit_and-bitwise, bit_or-bitwise, bit_xor-bitwise}
use mathlib.Core.Path.{◌≡◌, refl, sym, ap, ◌∙◌}
use native.Mathlib.Nat.{
  pow-suc, one-le-pow, mul-add-mod_self_right, mul-add-div_right, mod-eq_of_lt, div-eq_of_lt,
  div-add-mod', add-mul-mod_self_right, div-div-eq-div-mul,
}
use native.Mathlib.Omega.{arith}

-- The fuel of `digits` is immaterial once it reaches the first number.
module _ (z : ℕ → ℕ) (f : ℕ → ℕ → ℕ) where
  digits-zero : (n b : ℕ) → digits z f n 0 b ≡ z b
  digits-zero zero b = refl
  digits-zero (suc n) b = refl

  digits_enough : (n m a b : ℕ) → a ≤ n → a ≤ m → digits z f n a b ≡ digits z f m a b
  digits_enough n m zero b hn hm = digits-zero n b ∙ sym (digits-zero m b)
  digits_enough zero m (suc a) b hn hm = absurd (omega arith)
  digits_enough (suc n) zero (suc a) b hn hm = absurd (omega arith)
  digits_enough (suc n) (suc m) (suc a) b hn hm =
      ap (λ (t : ℕ). t * 2 + f (suc a % 2) (b % 2))
        (digits_enough n m (suc a / 2) (b / 2) (omega arith) (omega arith))

  bitwise_step :
      (a b : ℕ)
      → bitwise z f (suc a) b ≡ bitwise z f (suc a / 2) (b / 2) * 2 + f (suc a % 2) (b % 2)
  bitwise_step a b =
      ap (λ (t : ℕ). t * 2 + f (suc a % 2) (b % 2))
        (digits_enough a (suc a / 2) (suc a / 2) (b / 2) (omega arith) (omega arith))

pub pow-plus : (m n : ℕ) → 2 ^ (m + n) ≡ 2 ^ m * 2 ^ n
pow-plus zero n = ap (λ (t : ℕ). 2 ^ t) (let e : 0 + n ≡ n = omega arith in e) ∙ omega arith
pow-plus (suc m) n =
    ap (λ (t : ℕ). 2 ^ t) (let e : suc m + n ≡ suc (m + n) = omega arith in e)
    ∙ omega (
      arith,
      pow-suc 2 (m + n),
      pow-suc 2 m,
      pow-plus m n,
      ap (λ (t : ℕ). t * 2 ^ n) (pow-suc 2 m),
    )

pub bit_and_step : (x y : ℕ) → bit_and x y ≡ bit_and (x / 2) (y / 2) * 2 + min (x % 2) (y % 2)
bit_and_step zero y = simp bit_and-bitwise (omega arith)
bit_and_step (suc x) y = simp bit_and-bitwise (bitwise_step (λ low. 0) min x y)

pub bit_or_step : (x y : ℕ) → bit_or x y ≡ bit_or (x / 2) (y / 2) * 2 + max (x % 2) (y % 2)
bit_or_step zero y = simp bit_or-bitwise (omega arith)
bit_or_step (suc x) y = simp bit_or-bitwise (bitwise_step (λ low. low) max x y)

differ_digits : (a b : ℕ) → a < 2 → b < 2 → differ a b ≡ (a + b) % 2
differ_digits zero b ha hb = omega arith
differ_digits (suc zero) zero ha hb = refl
differ_digits (suc zero) (suc zero) ha hb = refl
differ_digits (suc zero) (suc (suc b)) ha hb = absurd (omega arith)
differ_digits (suc (suc a)) b ha hb = absurd (omega arith)

pub bit_xor_step : (a b : ℕ) → bit_xor a b ≡ bit_xor (a / 2) (b / 2) * 2 + (a + b) % 2
bit_xor_step zero b = simp bit_xor-bitwise (omega arith)
bit_xor_step (suc a) b = simp bit_xor-bitwise (
    omega (
      arith,
      bitwise_step (λ y. y) differ a b,
      differ_digits (suc a % 2) (b % 2) (omega arith) (omega arith),
    ))

bit_or-zero_below : (n a : ℕ) → a ≤ n → bit_or a 0 ≡ a
bit_or-zero_below n zero h = refl
bit_or-zero_below zero (suc a) h = absurd (omega arith)
bit_or-zero_below (suc n) (suc a) h =
    omega (arith, bit_or_step (suc a) 0, bit_or-zero_below n (suc a / 2) (omega arith))

pub bit_or-zero : (a : ℕ) → bit_or a 0 ≡ a
bit_or-zero a = bit_or-zero_below a a (omega arith)

bit_and-zero_below : (n a : ℕ) → a ≤ n → bit_and a 0 ≡ 0
bit_and-zero_below n zero h = refl
bit_and-zero_below zero (suc a) h = absurd (omega arith)
bit_and-zero_below (suc n) (suc a) h =
    omega (arith, bit_and_step (suc a) 0, bit_and-zero_below n (suc a / 2) (omega arith))

bit_and-zero : (a : ℕ) → bit_and a 0 ≡ 0
bit_and-zero a = bit_and-zero_below a a (omega arith)

bit_or_comm_below : (n a b : ℕ) → a + b ≤ n → bit_or a b ≡ bit_or b a
bit_or_comm_below n zero b h = bit_or-bitwise 0 b ∙ sym (bit_or-zero b)
bit_or_comm_below n (suc a) zero h = bit_or-zero (suc a) ∙ sym (bit_or-bitwise 0 (suc a))
bit_or_comm_below zero (suc a) (suc b) h = absurd (omega arith)
bit_or_comm_below (suc n) (suc a) (suc b) h = omega (
  arith,
  bit_or_step (suc a) (suc b),
  bit_or_step (suc b) (suc a),
  bit_or_comm_below n (suc a / 2) (suc b / 2) (omega arith),
)

pub bit_or_comm : (a b : ℕ) → bit_or a b ≡ bit_or b a
bit_or_comm a b = bit_or_comm_below (a + b) a b (omega arith)

-- A multiple of 2 ^ (k + 1) as an even number.
mul-pow-suc : (q k : ℕ) → q * 2 ^ suc k ≡ 2 * (q * 2 ^ k)
mul-pow-suc q k = omega (arith, ap (λ (t : ℕ). q * t) (pow-suc 2 k))

-- `(q << k) | r` is a sum when `r` has `k` bits.
pub bit_or-field : (k q r : ℕ) → r < 2 ^ k → bit_or (q * 2 ^ k) r ≡ q * 2 ^ k + r
bit_or-field zero q r h = ground (arith, bit_or-zero q)
bit_or-field (suc k) q r h =
    let half : r / 2 < 2 ^ k = omega (arith, pow-suc 2 k) in
    omega (
      arith,
      mul-pow-suc q k,
      bit_or_step (2 * (q * 2 ^ k)) r,
      ap (λ (t : ℕ). bit_or t r) (mul-pow-suc q k),
      ap (λ (t : ℕ). bit_or t (r / 2)) (let e : 2 * (q * 2 ^ k) / 2 ≡ q * 2 ^ k = omega arith in e),
      bit_or-field k q (r / 2) half,
    )

-- The same with the low field first.
pub field-bit_or : (k q r : ℕ) → r < 2 ^ k → bit_or r (q * 2 ^ k) ≡ q * 2 ^ k + r
field-bit_or k q r h = bit_or_comm r (q * 2 ^ k) ∙ bit_or-field k q r h

-- Quotient and remainder of a number whose two fields are known.
pub mod-field : (a q r m : ℕ) → a ≡ q * m + r → r < m → a % m ≡ r
mod-field a q r m e h = rw (e, mul-add-mod_self_right q m r) (mod-eq_of_lt h)

pub div-field : (a q r m : ℕ) → a ≡ q * m + r → r < m → a / m ≡ q
div-field a q r m e h =
    rw (e, mul-add-div_right (let pos : 0 < m = omega arith in pos) q r, div-eq_of_lt h)
      (omega arith)

mod-double : (a k : ℕ) → a % 2 ^ suc k ≡ a / 2 % 2 ^ k * 2 + a % 2
mod-double a k =
    mod-field a (a / 2 / 2 ^ k) (a / 2 % 2 ^ k * 2 + a % 2) (2 ^ suc k)
      (omega (arith, mul-pow-suc (a / 2 / 2 ^ k) k, div-add-mod' (a / 2) (2 ^ k)))
      (omega (arith, pow-suc 2 k, one-le-pow k 2))

-- `a & (2 ^ k - 1)` is the remainder by 2 ^ k.
pub bit_and-mask : (k a : ℕ) → bit_and a (2 ^ k - 1) ≡ a % 2 ^ k
bit_and-mask zero a = ground (arith, bit_and-zero a)
bit_and-mask (suc k) a = omega (
  arith,
  pow-suc 2 k,
  one-le-pow k 2,
  bit_and_step a (2 ^ suc k - 1),
  ap (λ (t : ℕ). bit_and (a / 2) t)
      (let e : (2 ^ suc k - 1) / 2 ≡ 2 ^ k - 1 = omega (arith, pow-suc 2 k, one-le-pow k 2) in e),
  bit_and-mask k (a / 2),
  mod-double a k,
)

-- A mask shifted by `j` picks from the number shifted by `j`.
pub bit_and-shifted : (j a m : ℕ) → bit_and a (m * 2 ^ j) ≡ bit_and (a / 2 ^ j) m * 2 ^ j
bit_and-shifted zero a m = ground arith
bit_and-shifted (suc j) a m = omega (
  arith,
  bit_and_step a (2 * (m * 2 ^ j)),
  ap (λ (t : ℕ). bit_and a t) (mul-pow-suc m j),
  ap (λ (t : ℕ). bit_and (a / 2) t) (let e : 2 * (m * 2 ^ j) / 2 ≡ m * 2 ^ j = omega arith in e),
  bit_and-shifted j (a / 2) m,
  mul-pow-suc (bit_and (a / 2 ^ suc j) m) j,
  ap (λ (t : ℕ). bit_and t m * 2 ^ j) (halves a j),
)
  where
    halves : (a j : ℕ) → a / 2 / 2 ^ j ≡ a / 2 ^ suc j
    halves a j =
        div-div-eq-div-mul a 2 (2 ^ j)
        ∙ ap (λ (t : ℕ). a / t) (let e : 2 * 2 ^ j ≡ 2 ^ suc j = omega (arith, pow-suc 2 j) in e)

-- The operations keep a width.
pub bit_and-lt : (k a b : ℕ) → a < 2 ^ k → bit_and a b < 2 ^ k
bit_and-lt zero a b h = ground (arith, bit_and-bitwise 0 b)
bit_and-lt (suc k) a b h =
    let half : a / 2 < 2 ^ k = omega (arith, pow-suc 2 k) in
    omega (arith, pow-suc 2 k, bit_and_step a b, bit_and-lt k (a / 2) (b / 2) half)

pub bit_or-lt : (k a b : ℕ) → a < 2 ^ k → b < 2 ^ k → bit_or a b < 2 ^ k
bit_or-lt zero a b h g = ground (arith, bit_or-bitwise 0 b)
bit_or-lt (suc k) a b h g =
    let half : a / 2 < 2 ^ k = omega (arith, pow-suc 2 k) in
    let half' : b / 2 < 2 ^ k = omega (arith, pow-suc 2 k) in
    omega (arith, pow-suc 2 k, bit_or_step a b, bit_or-lt k (a / 2) (b / 2) half half')

pub bit_xor-lt : (k a b : ℕ) → a < 2 ^ k → b < 2 ^ k → bit_xor a b < 2 ^ k
bit_xor-lt zero a b h g = ground (arith, bit_xor-bitwise 0 b)
bit_xor-lt (suc k) a b h g =
    let half : a / 2 < 2 ^ k = omega (arith, pow-suc 2 k) in
    let half' : b / 2 < 2 ^ k = omega (arith, pow-suc 2 k) in
    omega (arith, pow-suc 2 k, bit_xor_step a b, bit_xor-lt k (a / 2) (b / 2) half half')

-- The same for a number known to be a multiple of 2 ^ k.
pub bit_or-above : (k q r x : ℕ) → x ≡ q * 2 ^ k → r < 2 ^ k → bit_or x r ≡ x + r
bit_or-above k q r x e h = rw e (bit_or-field k q r h)

-- Four bytes put together from the top.
pub bit_or_four :
    (x y z w a b c : ℕ)
    → x ≡ a * 2 ^ 24
    → y ≡ b * 2 ^ 16
    → z ≡ c * 2 ^ 8
    → b < 256
    → c < 256
    → w < 256
    → bit_or (bit_or (bit_or x y) z) w ≡ x + y + z + w
bit_or_four x y z w a b c ex ey ez hb hc hw =
    rw
      (
        bit_or-above 24 a y x ex (omega arith),
        bit_or-above 16 (a * 2 ^ 8 + b) z (x + y) (omega arith) (omega arith),
      )
      (bit_or-above 8 (a * 2 ^ 16 + b * 2 ^ 8 + c) w (x + y + z) (omega arith) (omega arith))

pub mod-mul : (a b m : ℕ) → a % m * b % m ≡ a * b % m
mod-mul a b m =
    sym (add-mul-mod_self_right (a % m * b) (a / m * b) m)
    ∙ ap (λ (t : ℕ). t % m) (omega (arith, ap (λ (t : ℕ). t * b) (div-add-mod' a m)))
