-- ===== src/U256/Shifts.antt =====
-- src/util/uint256.hpp: `operator<<=`.
use btccpu.Prelude.{
  ℕ, zero, suc, ◌+◌, ◌-◌, ◌*◌, ◌/◌, ◌%◌, ◌^◌, ◌<◌, ◌≤◌, ◌≡◌, ap, sym, ◌∙◌, bit_or, arith,
  Bool-cases, leb, inl, inr, leb→le, ◌==◌, if◌then◌else◌, subst,
}
use btccpu.Prelude.Bits.{bit_or-above, mod-field, pow-plus, bit_or-lt, mod-mul}
use btccpu.U256.{U256, IsU256, value, shift_limbs_up, shift_bits_up, shift_left}
use native.Mathlib.Nat.{
  div-add-mod', one-le-pow, mod-lt, mul-lt-mul_of_pos_right, lt_of_mul-lt-mul_right, div-le_self,
  mul-mod_left,
}

-- A limb shifted by `r` of 64 bits: the part `q` that leaves it and the part `l` that stays.
limb_split :
    (w r : ℕ)
    → r < 64
    → w < 2 ^ 64
    → (l : ℕ) × (w * 2 ^ r ≡ w / 2 ^ (64 - r) * 2 ^ 64 + l * 2 ^ r)
      × (w * 2 ^ r % 2 ^ 64 ≡ l * 2 ^ r)
      × (w / 2 ^ (64 - r) < 2 ^ r)
limb_split w r h hw =
    split (2 ^ (64 - r)) (2 ^ r)
      (sym (pow-plus (64 - r) r)
        ∙ ap (λ (t : ℕ). 2 ^ t) (let e : 64 - r + r ≡ 64 = omega arith in e))
      (one-le-pow (64 - r) 2 (omega arith)) (one-le-pow r 2 (omega arith))
  where
    split :
        (p m : ℕ)
        → p * m ≡ 2 ^ 64
        → 0 < p
        → 0 < m
        → (l : ℕ) × (w * m ≡ w / p * 2 ^ 64 + l * m) × (w * m % 2 ^ 64 ≡ l * m) × (w / p < m)
    split p m e hp hm =
        let whole : w * m ≡ w / p * 2 ^ 64 + w % p * m =
          omega (arith, ap (λ (t : ℕ). t * m) (div-add-mod' w p), ap (λ (t : ℕ). w / p * t) e) in
        let low : w % p * m < 2 ^ 64 = omega (arith, e, mul-lt-mul_of_pos_right (mod-lt w hp) hm) in
        (
          w % p,
          whole,
          mod-field (w * m) (w / p) (w % p * m) (2 ^ 64) whole low,
          lt_of_mul-lt-mul_right p (omega (arith, e, div-add-mod' w p)),
        )

-- The bit loop multiplies by 2 ^ r, modulo 2 ^ 256.
shift_bits_up_lem :
    (x : U256) (r : ℕ)
    → IsU256 x
    → r < 64
    → (value (shift_bits_up x r) ≡ value x * 2 ^ r % 2 ^ 256) × IsU256 (shift_bits_up x r)
unfolding shift_bits_up
shift_bits_up_lem x r (h0, h1, h2, h3) hr =
    let (l0, e0, m0, c0) = limb_split x.w0 r hr h0 in
    let (l1, e1, m1, c1) = limb_split x.w1 r hr h1 in
    let (l2, e2, m2, c2) = limb_split x.w2 r hr h2 in
    let (l3, e3, m3, c3) = limb_split x.w3 r hr h3 in
    let pos : 0 < 2 ^ r = one-le-pow r 2 (omega arith) in
    let o0 = bit_or-above r l0 0 (x.w0 * 2 ^ r % 2 ^ 64) m0 pos in
    let o1 = bit_or-above r l1 (x.w0 / 2 ^ (64 - r)) (x.w1 * 2 ^ r % 2 ^ 64) m1 c0 in
    let o2 = bit_or-above r l2 (x.w1 / 2 ^ (64 - r)) (x.w2 * 2 ^ r % 2 ^ 64) m2 c1 in
    let o3 = bit_or-above r l3 (x.w2 / 2 ^ (64 - r)) (x.w3 * 2 ^ r % 2 ^ 64) m3 c2 in
    let range : IsU256 (shift_bits_up x r) = (
      limb x.w0 0 (omega arith),
      limb x.w1 (x.w0 / 2 ^ (64 - r)) (small x.w0 h0),
      limb x.w2 (x.w1 / 2 ^ (64 - r)) (small x.w1 h1),
      limb x.w3 (x.w2 / 2 ^ (64 - r)) (small x.w2 h2),
    ) in
    let whole : value x * 2 ^ r ≡ x.w3 / 2 ^ (64 - r) * 2 ^ 256 + value (shift_bits_up x r) =
      omega (arith, o0, o1, o2, o3, e0, e1, e2, e3, m0, m1, m2, m3) in
    (
      sym (
          mod-field (value x * 2 ^ r) (x.w3 / 2 ^ (64 - r)) (value (shift_bits_up x r)) (2 ^ 256)
            whole (omega (arith, range))),
      range,
    )
  where
    limb : (w t : ℕ) → t < 2 ^ 64 → bit_or (w * 2 ^ r % 2 ^ 64) t < 2 ^ 64
    limb w t h = bit_or-lt 64 (w * 2 ^ r % 2 ^ 64) t (omega arith) h

    small : (w : ℕ) → w < 2 ^ 64 → w / 2 ^ (64 - r) < 2 ^ 64
    small w h = omega (arith, div-le_self w (2 ^ (64 - r)))

-- The limb loop multiplies by 2 ^ (64 s), modulo 2 ^ 256.
shift_limbs_up_lem :
    (x : U256) (s : ℕ)
    → IsU256 x
    → s < 4
    → (value (shift_limbs_up x s) ≡ value x * 2 ^ (64 * s) % 2 ^ 256) × IsU256 (shift_limbs_up x s)
unfolding shift_limbs_up
shift_limbs_up_lem x zero h l = (omega arith, h)
shift_limbs_up_lem x (suc zero) (h0, h1, h2, h3) l = (omega arith, (omega arith, h0, h1, h2))
shift_limbs_up_lem x (suc (suc zero)) (h0, h1, h2, h3) l =
    (omega arith, (omega arith, omega arith, h0, h1))
shift_limbs_up_lem x (suc (suc (suc zero))) (h0, h1, h2, h3) l =
    (omega arith, (omega arith, omega arith, omega arith, h0))
shift_limbs_up_lem x (suc (suc (suc (suc s)))) h l = absurd (omega arith)

-- `y` is `x` times 2 ^ s, modulo 2 ^ 256.
abbrev pub IsShifted : U256 → ℕ → U256 → Type 0
IsShifted x s y = (value y ≡ value x * 2 ^ s % 2 ^ 256) × IsU256 y

-- A loop that is skipped for a shift of zero.
skipped-IsShifted :
    (x y : U256) (q s : ℕ)
    → IsU256 x
    → (q ≡ 0 → s ≡ 0)
    → IsShifted x s y
    → IsShifted x s (if q == 0 then x else y)
skipped-IsShifted x y q s h hs shifted = elim (Bool-cases (q == 0)) [
  | inl e ↦ let zero_shift : s ≡ 0 = hs (ground arith) in rw (e, zero_shift) (omega arith, h)
  | inr e ↦ rw e shifted
]

IsShifted-trans :
    (x y z : U256) (s t : ℕ) → IsShifted x s y → IsShifted y t z → IsShifted x (s + t) z
IsShifted-trans x y z s t (ey, hy) (ez, hz) = (
  ez
      ∙ ap (λ (v : ℕ). v * 2 ^ t % 2 ^ 256) ey
      ∙ mod-mul (value x * 2 ^ s) (2 ^ t) (2 ^ 256)
      ∙ ap (λ (v : ℕ). v % 2 ^ 256) (omega (arith, ap (λ (v : ℕ). value x * v) (pow-plus s t))),
  hz,
)

-- All the bits leave.
shifted_out : (v s : ℕ) → 256 ≤ s → 0 ≡ v * 2 ^ s % 2 ^ 256
shifted_out v s h =
    sym (mul-mod_left (v * 2 ^ (s - 256)) (2 ^ 256))
    ∙ ap (λ (t : ℕ). t % 2 ^ 256)
        (omega (
          arith,
          ap (λ (t : ℕ). v * t) (pow-plus (s - 256) 256),
          ap (λ (t : ℕ). v * 2 ^ t) (let e : s - 256 + 256 ≡ s = omega arith in e),
        ))

-- `x << s` is the number of `x` times 2 ^ s, modulo 2 ^ 256, also for a shift of 256 or more bits,
-- and its limbs are in range.
pub shift_left_lem :
    (x : U256) (s : ℕ)
    → IsU256 x
    → (value (shift_left x s) ≡ value x * 2 ^ s % 2 ^ 256) × IsU256 (shift_left x s)
unfolding shift_left
shift_left_lem x s h = elim (Bool-cases (leb 256 s)) [
  | inl e ↦ rw e (
    shifted_out (value x) s (leb→le 256 s e),
    (omega arith, omega arith, omega arith, omega arith),
  )
  | inr e ↦
      let whole : 64 * (s / 64) + s % 64 ≡ s = omega arith in
      let limbs = if s / 64 == 0 then x else shift_limbs_up x (s / 64) in
      let bits = if s % 64 == 0 then limbs else shift_bits_up limbs (s % 64) in
      let h_limbs : IsShifted x (64 * (s / 64)) limbs =
        skipped-IsShifted x (shift_limbs_up x (s / 64)) (s / 64) (64 * (s / 64)) h
          (λ z. omega arith) (shift_limbs_up_lem x (s / 64) h (ground arith)) in
      let h_bits : IsShifted limbs (s % 64) bits =
        skipped-IsShifted limbs (shift_bits_up limbs (s % 64)) (s % 64) (s % 64) h_limbs.1 (λ z. z)
          (shift_bits_up_lem limbs (s % 64) h_limbs.1 (omega arith)) in
      rw e (
        subst (λ (t : ℕ). IsShifted x t bits) whole
          (IsShifted-trans x limbs bits (64 * (s / 64)) (s % 64) h_limbs h_bits))
]
