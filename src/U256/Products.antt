-- ===== src/U256/Products.antt =====
-- src/util/uint256.hpp: `operator*`.
use btccpu.Prelude.{
  ℕ, zero, suc, ◌+◌, ◌*◌, ◌/◌, ◌%◌, ◌^◌, ◌<◌, ◌≤◌, ◌≡◌, refl, ap, sym, ◌∙◌, subst, List, [], ◌∷◌,
  length, take, four_elements, All, arith,
}
use btccpu.Prelude.Bits.{pow-plus}
use btccpu.U256.{U256, IsU256, value, of_u64, mul_row, mul_rows, mul, limbs}

-- The ranges of the limbs, and the number that a list of limbs stands for.
abbrev pub IsLimb : ℕ → Type 0
IsLimb w = w < 2 ^ 64

abbrev pub limbs_value : List ℕ → ℕ
limbs_value [] = 0
limbs_value (w ∷ ws) = w + 2 ^ 64 * limbs_value ws

-- The carry of a row stays a limb: (2 ^ 64 - 1) ^ 2 + 2 (2 ^ 64 - 1) < 2 ^ 128.
cur-lt : (a b r c : ℕ) → IsLimb a → IsLimb b → IsLimb r → IsLimb c → a * b + r + c < 2 ^ 128
cur-lt a b r c ha hb hr hc = grind arith

pow-limb : (n : ℕ) → 2 ^ (64 * suc n) ≡ 2 ^ 64 * 2 ^ (64 * n)
pow-limb n =
    ap (λ (t : ℕ). 2 ^ t) (let e : 64 * suc n ≡ 64 + 64 * n = omega arith in e)
    ∙ pow-plus 64 (64 * n)

-- A row adds `a` times the other factor and the carry, modulo the limbs that are left.
mul_row_lem :
    (a : ℕ) (bs rs : List ℕ) (c : ℕ)
    → IsLimb a
    → All IsLimb bs
    → All IsLimb rs
    → IsLimb c
    → length rs ≤ length bs
    → (k : ℕ) × (limbs_value (mul_row a bs rs c) + k * 2 ^ (64 * length rs)
        ≡ a * limbs_value (take (length rs) bs) + limbs_value rs + c)
unfolding mul_row
mul_row_lem a bs [] c ha hb hr hc l = (c, omega arith)
mul_row_lem a [] (r ∷ rs) c ha hb hr hc l = absurd (omega arith)
mul_row_lem a (b ∷ bs) (r ∷ rs) c ha (hb, hbs) (hr, hrs) hc l =
    let carry = (a * b + r + c) / 2 ^ 64 in
    let lt : carry < 2 ^ 64 = omega (arith, cur-lt a b r c ha hb hr hc) in
    let (k, e) = mul_row_lem a bs rs carry ha hbs hrs lt (omega arith) in
    (k, omega (arith, e, ap (λ (t : ℕ). k * t) (pow-limb (length rs))))

-- A row of as many limbs as it was given, all in range.
mul_row_limbs :
    (a : ℕ) (bs rs : List ℕ) (c : ℕ)
    → All IsLimb rs
    → All IsLimb (mul_row a bs rs c) × (length (mul_row a bs rs c) ≡ length rs)
unfolding mul_row
mul_row_limbs a bs [] c hr = (tt, refl)
mul_row_limbs a [] (r ∷ rs) c hr = (hr, refl)
mul_row_limbs a (b ∷ bs) (r ∷ rs) c (hr, hrs) =
    let (all, len) = mul_row_limbs a bs rs ((a * b + r + c) / 2 ^ 64) hrs in
    ((omega arith, all), ap suc len)

-- One limb more.
take-suc_value :
    (n : ℕ) (bs : List ℕ)
    → n < length bs
    → (t : ℕ) × (limbs_value (take (suc n) bs) ≡ limbs_value (take n bs) + t * 2 ^ (64 * n))
take-suc_value n [] h = absurd (omega arith)
take-suc_value zero (b ∷ bs) h = (b, omega arith)
take-suc_value (suc n) (b ∷ bs) h =
    let (t, e) = take-suc_value n bs (omega arith) in
    (t, omega (arith, e, ap (λ (p : ℕ). t * p) (pow-limb n)))

one_more : (xs : List ℕ) (n : ℕ) → length xs ≡ suc n → (w : ℕ) × (ws : List ℕ) × (xs ≡ w ∷ ws)
one_more [] n e = absurd (omega arith)
one_more (w ∷ ws) n e = (w, ws, refl)

mul_rows_step :
    (a : ℕ) (more bs rs : List ℕ) (w : ℕ) (ws : List ℕ)
    → mul_row a bs rs 0 ≡ w ∷ ws
    → mul_rows (a ∷ more) bs rs ≡ w ∷ mul_rows more bs ws
unfolding mul_rows
mul_rows_step a more bs rs w ws e =
    ap
      (λ (row : List ℕ).
        let out : List ℕ = elim row [ [] ↦ [] | x ∷ xs ↦ x ∷ mul_rows more bs xs ] in out)
      e

-- What a list of limbs `out` is to be after the rows of `more`.
abbrev IsProduct : List ℕ → List ℕ → List ℕ → List ℕ → Type 0
IsProduct more bs rs out =
    All IsLimb out
    × (length out ≡ length rs)
    × (k : ℕ) × (limbs_value out + k * 2 ^ (64 * length rs)
        ≡ limbs_value more * limbs_value (take (length rs) bs) + limbs_value rs)

-- The rows together are the product and what the array held, modulo the limbs of the array.
mul_rows_lem :
    (more bs rs : List ℕ)
    → All IsLimb more
    → All IsLimb bs
    → All IsLimb rs
    → length more ≡ length rs
    → length rs ≤ length bs
    → IsProduct more bs rs (mul_rows more bs rs)
unfolding mul_rows
mul_rows_lem [] bs [] ha hb hr el l = (tt, refl, 0, omega arith)
mul_rows_lem [] bs (r ∷ rs) ha hb hr el l = absurd (omega arith)
mul_rows_lem (a ∷ more) bs [] ha hb hr el l = absurd (omega arith)
mul_rows_lem (a ∷ more) bs (r ∷ rs) (ha, hmore) hb hr el l =
    let (all, len) = mul_row_limbs a bs (r ∷ rs) 0 hr in
    let (k, e) = mul_row_lem a bs (r ∷ rs) 0 ha hb hr (omega arith) l in
    let (w, ws, row) = one_more (mul_row a bs (r ∷ rs) 0) (length rs) len in
    let all' : All IsLimb (w ∷ ws) = subst (All IsLimb) row all in
    let el' : length ws ≡ length rs = omega (arith, len, ap length row) in
    let (rest, len', k', e') =
      mul_rows_lem more bs ws hmore hb all'.1 (omega arith) (omega arith) in
    let (t, et) = take-suc_value (length rs) bs l in
    subst (IsProduct (a ∷ more) bs (r ∷ rs)) (sym (mul_rows_step a more bs (r ∷ rs) w ws row)) (
      (all'.0, rest),
      ap suc (len' ∙ el'),
      k + k' + limbs_value more * t,
      omega (
        arith,
        e,
        e',
        ap limbs_value row,
        ap (λ (n : ℕ). k' * 2 ^ (64 * n)) el',
        ap (λ (n : ℕ). limbs_value more * limbs_value (take n bs)) el',
        ap (λ (x : ℕ). limbs_value more * x) et,
        ap (λ (x : ℕ). a * x) et,
        ap (λ (x : ℕ). (k + k' + limbs_value more * t) * x) (pow-limb (length rs)),
        ap (λ (x : ℕ). k * x) (pow-limb (length rs)),
      ),
    )

-- The product of two 256-bit numbers is their product modulo 2 ^ 256, and its limbs are in range.
pub mul_lem :
    (a b : U256)
    → IsU256 a
    → IsU256 b
    → (value (mul a b) ≡ value a * value b % 2 ^ 256) × IsU256 (mul a b)
unfolding mul
mul_lem a b ha hb =
    let zeros : List ℕ = 0 ∷ 0 ∷ 0 ∷ 0 ∷ [] in
    let (all, len, k, e) =
      mul_rows_lem (limbs a) (limbs b) zeros (limbs-All a ha) (limbs-All b hb)
        (limbs-All (of_u64 0) (omega arith, omega arith, omega arith, omega arith)) refl
        (omega arith) in
    let (w0, w1, w2, w3, e4) = four_elements (mul_rows (limbs a) (limbs b) zeros) len in
    let all' : All IsLimb (w0 ∷ w1 ∷ w2 ∷ w3 ∷ []) = subst (All IsLimb) e4 all in
    rw e4 (omega (arith, e, ap limbs_value e4), (all'.0, all'.1.0, all'.1.1.0, all'.1.1.1.0))
  where
    limbs-All : (x : U256) → IsU256 x → All IsLimb (limbs x)
    limbs-All x (h0, h1, h2, h3) = (h0, (h1, (h2, (h3, tt))))
