-- ===== src/U256/Sums.antt =====
-- src/util/uint256.hpp: `operator+=` and `operator-=`.
use btccpu.Prelude.{ℕ, ◌+◌, ◌-◌, ◌*◌, ◌%◌, ◌^◌, ◌<◌, ◌≡◌, arith}
use btccpu.U256.{U256, IsU256, value, add_carry, sub_borrow, add, sub}

-- A sum of two limbs and a carry of at most one, cut in two.
add_carry_lem :
    (a b c : ℕ)
    → a < 2 ^ 64
    → b < 2 ^ 64
    → c < 2
    → ((add_carry a b c).0 + (add_carry a b c).1 * 2 ^ 64 ≡ a + b + c)
      × ((add_carry a b c).0 < 2 ^ 64)
      × ((add_carry a b c).1 < 2)
unfolding add_carry
add_carry_lem a b c ha hb hc = (omega arith, omega arith, omega arith)

-- A difference of two limbs and a borrow, kept positive by a borrow from above.
sub_borrow_lem :
    (a b c : ℕ)
    → a < 2 ^ 64
    → b < 2 ^ 64
    → c < 2
    → ((sub_borrow a b c).0 + b + c ≡ a + (sub_borrow a b c).1 * 2 ^ 64)
      × ((sub_borrow a b c).0 < 2 ^ 64)
      × ((sub_borrow a b c).1 < 2)
unfolding sub_borrow
sub_borrow_lem a b c ha hb hc = (ground arith, ground arith, ground arith)

-- The sum of two 256-bit numbers is their sum modulo 2 ^ 256, and its limbs are in range.
pub add_lem :
    (a b : U256)
    → IsU256 a
    → IsU256 b
    → (value (add a b) ≡ (value a + value b) % 2 ^ 256) × IsU256 (add a b)
unfolding add
add_lem a b ha hb =
    let (s0, r0, c0) = add_carry_lem a.w0 b.w0 0 ha.0 hb.0 (omega arith) in
    let (s1, r1, c1) = add_carry_lem a.w1 b.w1 (add_carry a.w0 b.w0 0).1 ha.1 hb.1 c0 in
    let (s2, r2, c2) =
      add_carry_lem a.w2 b.w2 (add_carry a.w1 b.w1 (add_carry a.w0 b.w0 0).1).1 ha.2 hb.2 c1 in
    let (s3, r3, c3) =
      add_carry_lem a.w3 b.w3
        (add_carry a.w2 b.w2 (add_carry a.w1 b.w1 (add_carry a.w0 b.w0 0).1).1).1 ha.3 hb.3 c2 in
    (omega arith, (r0, r1, r2, r3))

-- The difference of two 256-bit numbers is their difference modulo 2 ^ 256, and its limbs are in range.
pub sub_lem :
    (a b : U256)
    → IsU256 a
    → IsU256 b
    → (value (sub a b) ≡ (value a + 2 ^ 256 - value b) % 2 ^ 256) × IsU256 (sub a b)
unfolding sub
sub_lem a b ha hb =
    let (s0, r0, c0) = sub_borrow_lem a.w0 b.w0 0 ha.0 hb.0 (omega arith) in
    let (s1, r1, c1) = sub_borrow_lem a.w1 b.w1 (sub_borrow a.w0 b.w0 0).1 ha.1 hb.1 c0 in
    let (s2, r2, c2) =
      sub_borrow_lem a.w2 b.w2 (sub_borrow a.w1 b.w1 (sub_borrow a.w0 b.w0 0).1).1 ha.2 hb.2 c1 in
    let (s3, r3, c3) =
      sub_borrow_lem a.w3 b.w3
        (sub_borrow a.w2 b.w2 (sub_borrow a.w1 b.w1 (sub_borrow a.w0 b.w0 0).1).1).1 ha.3 hb.3 c2 in
    (omega arith, (r0, r1, r2, r3))
